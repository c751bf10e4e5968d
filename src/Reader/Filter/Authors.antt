-- ===== src/Reader/Filter/Authors.antt =====
-- The blocked authors, found by a binary search, and the range of the limits in days.
use miniflux.Base.{
  ℕ, suc, ◌*◌, ◌≤◌, ◌<◌, String, ◌≡◌, refl, sym, ◌∙◌, ◌≢◌, ◌⊎◌, inl, inr, Bool, true, false, not,
  ◌&&◌, List, [], ◌∷◌, arith, ltb, ltb→lt, ◌==◌, nat_eq, string_eq, Bool-cases, eq_of_beq, length,
  any,
}
use miniflux.Base.Int.{pos, ◌<ℤ◌}
use native.Mathlib.Nat.{mod-eq_of_lt}
use miniflux.Base.Sort.{sort, IsSorted, any-sort, sort-IsSorted}
use miniflux.Model.Entry.{Entry}
use miniflux.Model.Feed.{Feed}
use miniflux.Reader.Filter.Rules.{Rule}
use miniflux.Reader.Filter.Dates.{Library, days}
use miniflux.Reader.Filter.Entries.{match_author, settings_of}

any_empty : {A : Type 0} (p : A → Bool) (xs : List A) → (length xs == 0) ≡ true → any p xs ≡ false
any_empty p [] h = refl
any_empty p (x ∷ xs) h = absurd (ne_of_suc (eq_of_beq (suc (length xs)) 0 h))
  where
    ne_of_suc : suc (length xs) ≢ 0
    ne_of_suc e = omega arith

sorted_author-any :
    {Url : Type 0} (lib : Library) (blocked : List String) (e : Entry Url)
    → ((xs : List String) (a : String)
        → IsSorted xs
        → lib.binary_search xs a ≡ any (λ y. a == y) xs)
    → match_author lib (sort blocked) e ≡ (not (e.author == "") && any (λ y. e.author == y) blocked)
unfolding match_author
sorted_author-any lib blocked e search = elim (Bool-cases (e.author == "")) [
  | inl nobody ↦ rw nobody refl
  | inr named ↦
      let found = search (sort blocked) e.author (sort-IsSorted blocked) in
      let same = any-sort blocked e.author in
      elim (Bool-cases (length (sort blocked) == 0)) [
        | inl empty ↦
            rw (named, empty) (sym (any_empty (λ y. e.author == y) (sort blocked) empty) ∙ same)
        | inr filled ↦ rw (named, filled) (found ∙ same)
      ]
]

-- Where the binary search finds the members of a sorted list, an entry is blocked by its author, with
-- the settings of a feed, exactly if it has one that stands in the feed's list of blocked authors, in
-- whatever order that list is.
pub match_author-any :
    {Url : Type 0} (lib : Library) (max_age : ℕ) (mark skip : Bool) (f : Feed Url)
    (block keep : List (Rule lib.Regexp)) (e : Entry Url)
    → ((xs : List String) (a : String)
        → IsSorted xs
        → lib.binary_search xs a ≡ any (λ y. a == y) xs)
    → match_author lib (settings_of lib max_age mark skip f block keep).authors e
      ≡ (not (e.author == "") && any (λ y. e.author == y) f.extra.block_authors)
unfolding settings_of
match_author-any lib max_age mark skip f block keep e search =
    sorted_author-any lib f.extra.block_authors e search

-- A limit of at most 106751 days is exact, and one of 106752 to 213503 days overflows to a negative
-- duration.
pub days-exact_or_negative :
    (n : ℕ)
    → n ≤ 213503
    → ((n ≤ 106751) × (days (pos n) ≡ pos (n * 86400000000000)))
      ⊎ ((106752 ≤ n) × (days (pos n) <ℤ pos 0))
unfolding days
days-exact_or_negative n h =
    let below : n * 86400000000000 < 18446744073709551616 = omega arith in
    let whole = mod-eq_of_lt below in
    rw whole (elim (Bool-cases (ltb (n * 86400000000000) 9223372036854775808)) [
      | inl small ↦
          let bound = ltb→lt (n * 86400000000000) 9223372036854775808 small in
          rw small (inl (omega arith, refl))
      | inr large ↦
          let over : 9223372036854775808 ≤ n * 86400000000000 = ground arith in
          rw large (inr (omega arith, ground arith))
    ])
