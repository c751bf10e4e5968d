-- ===== src/GoogleReader/Pages/Cut.antt =====
-- Lists that are cut into pages.
use mathlib.Core.List.{append-nil}
use miniflux.Base.{
  ℕ, zero, suc, ◌+◌, ◌-◌, ◌≤◌, min, ◌≡◌, refl, sym, ap, ◌∙◌, List, [], ◌∷◌, ◌++◌, arith, nat_eq,
  string_eq, length,
}

module _ {ℓ} {A : Type ℓ} where
  abbrev pub take : ℕ → List A → List A
  take zero xs = []
  take (suc n) [] = []
  take (suc n) (x ∷ xs) = x ∷ take n xs

  abbrev pub drop : ℕ → List A → List A
  drop zero xs = xs
  drop (suc n) [] = []
  drop (suc n) (x ∷ xs) = drop n xs

  pub length-take : (n : ℕ) (xs : List A) → length (take n xs) ≡ min n (length xs)
  length-take zero xs = omega arith
  length-take (suc n) [] = omega arith
  length-take (suc n) (x ∷ xs) = omega (arith, length-take n xs)

  pub length-drop : (n : ℕ) (xs : List A) → length (drop n xs) ≡ length xs - n
  length-drop zero xs = omega arith
  length-drop (suc n) [] = omega arith
  length-drop (suc n) (x ∷ xs) = omega (arith, length-drop n xs)

  drop_nil : (n : ℕ) → drop n [] ≡ []
  drop_nil zero = refl
  drop_nil (suc n) = refl

  drop-add : (k offset : ℕ) (xs : List A) → drop (k + offset) xs ≡ drop k (drop offset xs)
  drop-add k zero xs = let q : k + 0 ≡ k = omega arith in ap (λ n. drop n xs) q
  drop-add k (suc offset) [] = drop_nil (k + suc offset) ∙ sym (drop_nil k)
  drop-add k (suc offset) (x ∷ xs) =
      let q : k + suc offset ≡ suc (k + offset) = omega arith in
      ap (λ n. drop n (x ∷ xs)) q ∙ drop-add k offset xs

  -- A page and what comes after it.
  take-rest : (n : ℕ) (xs : List A) → take n xs ++ drop (length (take n xs)) xs ≡ xs
  take-rest zero xs = refl
  take-rest (suc n) [] = refl
  take-rest (suc n) (x ∷ xs) = ap (λ ys. x ∷ ys) (take-rest n xs)

  -- The next page begins where this one ended.
  pub take-drop :
      (n offset : ℕ) (xs : List A)
      → take n (drop offset xs) ++ drop (length (take n (drop offset xs)) + offset) xs
        ≡ drop offset xs
  take-drop n offset xs =
      ap (λ ys. take n (drop offset xs) ++ ys)
        (drop-add (length (take n (drop offset xs))) offset xs)
      ∙ take-rest n (drop offset xs)

  -- Nothing is left behind a page that reaches the end.
  drop_all : (n : ℕ) (xs : List A) → length xs ≤ n → drop n xs ≡ []
  drop_all zero [] h = refl
  drop_all zero (x ∷ xs) h = absurd (omega arith)
  drop_all (suc n) [] h = refl
  drop_all (suc n) (x ∷ xs) h = drop_all n xs (omega arith)

  pub take_all : (n : ℕ) (xs : List A) → length xs ≤ length (take n xs) → take n xs ≡ xs
  take_all n xs h =
      sym (append-nil (take n xs))
      ∙ ap (λ ys. take n xs ++ ys) (sym (drop_all (length (take n xs)) xs h))
      ∙ take-rest n xs
