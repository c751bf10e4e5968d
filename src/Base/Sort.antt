-- ===== src/Base/Sort.antt =====
-- Go's order on strings, `slices.Sort` and `slices.Compact`.
use miniflux.Base.{
  String, ◌≡◌, refl, ap, ◌∙◌, ◌≢◌, inl, inr, Bool, true, false, ◌&&◌, ◌||◌, List, [], ◌∷◌, arith,
  eq_iff, ltb, nat_beq, if◌then◌else◌, ◌==◌, nat_eq, string_eq, Bool-cases, eq_of_beq, ne_of_beq,
  any,
}
use Prim.Native.Char.{code}

-- `a <= b`: lexicographic; on valid UTF-8 the order of bytes is that of code points.
unfoldable pub str_leb : String → String → Bool
str_leb String.[] t = true
str_leb (String.◌∷◌ c s) String.[] = false
str_leb (String.◌∷◌ c s) (String.◌∷◌ d t) =
    ltb (code c) (code d) || (nat_beq (code c) (code d) && str_leb s t)

-- One element into a sorted list.
unfoldable pub place : String → List String → List String
place x [] = x ∷ []
place x (y ∷ ys) = if str_leb x y then x ∷ y ∷ ys else y ∷ place x ys

-- `slices.Sort`
unfoldable pub sort : List String → List String
unfolding place str_leb
sort [] = []
sort (x ∷ xs) = place x (sort xs)

-- `slices.Compact`: equal neighbours become one.
unfoldable pub compact : List String → List String
compact [] = []
compact (x ∷ []) = x ∷ []
compact (x ∷ y ∷ ys) = if x == y then compact (y ∷ ys) else x ∷ compact (y ∷ ys)

any-place :
    (x : String) (ys : List String) (a : String)
    → any (λ y. a == y) (place x ys) ≡ (a == x || any (λ y. a == y) ys)
unfolding place
any-place x [] a = refl
any-place x (y ∷ ys) a = ground (arith, any-place x ys a)

-- `slices.Sort` keeps the members.
pub any-sort : (xs : List String) (a : String) → any (λ y. a == y) (sort xs) ≡ any (λ y. a == y) xs
unfolding sort
any-sort [] a = refl
any-sort (x ∷ xs) a = any-place x (sort xs) a ∙ ap (λ b. a == x || b) (any-sort xs a)

-- So does `slices.Compact`.
pub any-compact :
    (xs : List String) (a : String) → any (λ y. a == y) (compact xs) ≡ any (λ y. a == y) xs
unfolding compact
any-compact [] a = refl
any-compact (x ∷ []) a = refl
any-compact (x ∷ y ∷ ys) a = ground (arith, any-compact (y ∷ ys) a, eq_iff x y)

-- Neighbours in order.
abbrev pub IsSorted : List String → Type 0
IsSorted [] = Unit
IsSorted (x ∷ []) = Unit
IsSorted (x ∷ y ∷ ys) = (str_leb x y ≡ true) × IsSorted (y ∷ ys)

-- Neighbours in order and different.
abbrev pub IsStrict : List String → Type 0
IsStrict [] = Unit
IsStrict (x ∷ []) = Unit
IsStrict (x ∷ y ∷ ys) = (str_leb x y ≡ true) × (x ≢ y) × IsStrict (y ∷ ys)

str_leb_total : (s t : String) → str_leb s t ≡ false → str_leb t s ≡ true
unfolding str_leb
str_leb_total String.[] t h = cc
str_leb_total (String.◌∷◌ c s) String.[] h = refl
str_leb_total (String.◌∷◌ c s) (String.◌∷◌ d t) h = ground (arith, str_leb_total s t)

place-IsSorted : (x : String) (ys : List String) → IsSorted ys → IsSorted (place x ys)
unfolding place
place-IsSorted x [] h = tt
place-IsSorted x (y ∷ []) h = ground (arith, str_leb_total x y)
place-IsSorted x (y ∷ z ∷ zs) h = ground (arith, str_leb_total x y, place-IsSorted x (z ∷ zs) h.1)

pub sort-IsSorted : (xs : List String) → IsSorted (sort xs)
unfolding sort
sort-IsSorted [] = tt
sort-IsSorted (x ∷ xs) = place-IsSorted x (sort xs) (sort-IsSorted xs)

compact-cons : (y : String) (ys : List String) → (r : List String) × (compact (y ∷ ys) ≡ y ∷ r)
unfolding compact
compact-cons y [] = ([], refl)
compact-cons y (z ∷ zs) = elim (Bool-cases (y == z)) [
  | inl same ↦ let (r, e) = compact-cons z zs in (r, rw same (rw (eq_of_beq y z same) e))
  | inr other ↦ (compact (z ∷ zs), rw other)
]

pub compact-IsStrict : (xs : List String) → IsSorted xs → IsStrict (compact xs)
unfolding compact
compact-IsStrict [] h = tt
compact-IsStrict (x ∷ []) h = tt
compact-IsStrict (x ∷ y ∷ ys) h = elim (Bool-cases (x == y)) [
  | inl same ↦ rw same (compact-IsStrict (y ∷ ys) h.1)
  | inr other ↦
      let (r, e) = compact-cons y ys in
      rw (other, e) (h.0, ne_of_beq x y other, rw e at (compact-IsStrict (y ∷ ys) h.1))
]
