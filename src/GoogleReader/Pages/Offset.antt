-- ===== src/GoogleReader/Pages/Offset.antt =====
-- The query of a page, at every offset.
use miniflux.Base.{
  ℕ, zero, suc, ◌+◌, ◌≤◌, ◌<◌, String, ◌≡◌, refl, sym, ap, ◌∙◌, inl, inr, Bool, true, false, ◌&&◌,
  List, arith, if◌then◌else◌, nat_eq, string_eq, Bool-cases,
}
use miniflux.Base.Int.{ℤ, pos, ◌+ℤ◌, ltb_ℤ, leb_ℤ}
use miniflux.Storage.EntryQuery.{
  equal_fold, EntryQueryBuilder, add_arg, append_condition, max_entries_limit,
}
use miniflux.Storage.EntryQuery.Methods.{
  where_arg, with_limit, with_offset, with_sorting, sort_by, after_published_date,
  before_published_date,
}
use miniflux.GoogleReader.Pages.{RequestModifiers, unix, when_positive, page_query}

-- The builder at another offset.
abbrev pub at_offset : ℕ → EntryQueryBuilder → EntryQueryBuilder
at_offset o b = record b { offset = pos o }

offset_is : (b : EntryQueryBuilder) → b.offset ≡ pos 0 → at_offset 0 b ≡ b
offset_is b h = λ i. record b { offset = sym h i }

offset_of :
    (o : ℕ) (b : EntryQueryBuilder) → b.offset ≡ pos 0 → with_offset (pos o) b ≡ at_offset o b
unfolding with_offset
offset_of zero b h = sym (offset_is b h)
offset_of (suc o) b h = elim (Bool-cases (ltb_ℤ (pos 0) (pos (suc o)))) [
  | inl q ↦ rw (with_offset, q) refl
  | inr q ↦ absurd (ground arith)
]

limit_offset : (n : ℤ) (b : EntryQueryBuilder) → (with_limit n b).offset ≡ b.offset
unfolding with_limit
limit_offset n b = elim (Bool-cases (ltb_ℤ (pos 0) n && leb_ℤ n (pos max_entries_limit))) [
  | inl h ↦ rw h refl
  | inr h ↦ rw h refl
]

limit_positive : (n : ℤ) (b : EntryQueryBuilder) → 0 < b.limit → 0 < (with_limit n b).limit
unfolding with_limit
limit_positive n b h = ground arith

when_offset :
    (seconds : ℤ) (narrow : ℕ → EntryQueryBuilder → EntryQueryBuilder) (o : ℕ)
    (b : EntryQueryBuilder)
    → ((at : ℕ) → narrow at (at_offset o b) ≡ at_offset o (narrow at b))
    → when_positive seconds narrow (at_offset o b) ≡ at_offset o (when_positive seconds narrow b)
when_offset seconds narrow o b h = elim (Bool-cases (ltb_ℤ (pos 0) seconds)) [
  | inl q ↦ rw q (h (unix seconds))
  | inr q ↦ rw q refl
]

pick :
    (asc desc : Bool) (o : ℕ) (b up down : EntryQueryBuilder)
    → (if asc then at_offset o up else if desc then at_offset o down else at_offset o b)
      ≡ at_offset o (if asc then up else if desc then down else b)
pick true desc o b up down = refl
pick false true o b up down = refl
pick false false o b up down = refl

sorting_offset :
    (sanitize : List String → String) (column direction : String) (o : ℕ) (b : EntryQueryBuilder)
    → with_sorting sanitize column direction (at_offset o b)
      ≡ at_offset o (with_sorting sanitize column direction b)
unfolding with_sorting sort_by
sorting_offset sanitize column direction o b =
    pick (equal_fold "ASC" direction) (equal_fold "DESC" direction) o b
      (sort_by sanitize column "ASC" b) (sort_by sanitize column "DESC" b)

zero_offset : (b : EntryQueryBuilder) → b ≡ with_offset (pos 0) b
unfolding with_offset
zero_offset b = refl

after_offset :
    (at o : ℕ) (b : EntryQueryBuilder)
    → after_published_date at (at_offset o b) ≡ at_offset o (after_published_date at b)
unfolding after_published_date where_arg append_condition add_arg
after_offset at o b = refl

before_offset :
    (at o : ℕ) (b : EntryQueryBuilder)
    → before_published_date at (at_offset o b) ≡ at_offset o (before_published_date at b)
unfolding before_published_date where_arg append_condition add_arg
before_offset at o b = refl

-- The limit is positive whatever the query.
when_limit :
    (seconds : ℤ) (narrow : ℕ → EntryQueryBuilder → EntryQueryBuilder) (b : EntryQueryBuilder)
    → ((at : ℕ) → 0 < (narrow at b).limit)
    → 0 < b.limit
    → 0 < (when_positive seconds narrow b).limit
when_limit seconds narrow b h positive = elim (Bool-cases (ltb_ℤ (pos 0) seconds)) [
  | inl q ↦ rw q (h (unix seconds))
  | inr q ↦ rw q positive
]

offset_limit : (n : ℤ) (b : EntryQueryBuilder) → 0 < b.limit → 0 < (with_offset n b).limit
unfolding with_offset
offset_limit n b h = ground arith

sorting_limit :
    (sanitize : List String → String) (column direction : String) (b : EntryQueryBuilder)
    → 0 < b.limit
    → 0 < (with_sorting sanitize column direction b).limit
unfolding with_sorting sort_by
sorting_limit sanitize column direction b h = ground arith

pub page_query_limit :
    (sanitize : List String → String) (rm : RequestModifiers) (b : EntryQueryBuilder)
    → 0 < b.limit
    → 0 < (page_query sanitize rm b).limit
unfolding page_query after_published_date before_published_date where_arg append_condition add_arg
page_query_limit sanitize rm b h =
    let limited = limit_positive rm.count b h in
    let sorted =
      sorting_limit sanitize "published_at" rm.sort_direction _
        (offset_limit rm.offset _ limited) in
    let after = when_limit rm.start_time after_published_date _ (λ at. sorted) sorted in
    when_limit rm.stop_time before_published_date _ (λ at. after) after

pub continuation_more :
    (k o n : ℕ)
    → k + o < n
    → (if ltb_ℤ (pos k +ℤ pos o) (pos n) then pos k +ℤ pos o else pos 0) ≡ pos (k + o)
unfolding ◌+ℤ◌
continuation_more k o n h = ground arith

pub continuation_end :
    (k o n : ℕ)
    → n ≤ k + o
    → (if ltb_ℤ (pos k +ℤ pos o) (pos n) then pos k +ℤ pos o else pos 0) ≡ pos 0
unfolding ◌+ℤ◌
continuation_end k o n h = ground arith

-- The request of the page from an offset.
abbrev pub page_at : RequestModifiers → ℕ → RequestModifiers
page_at rm o = record rm { offset = pos o }

module _ (sanitize : List String → String) (rm : RequestModifiers) (b : EntryQueryBuilder)
    (fresh : b.offset ≡ pos 0) where
  -- The queries of the pages differ in their offset only.
  pub page_query_at :
      (o : ℕ)
      → page_query sanitize (page_at rm o) b ≡ at_offset o (page_query sanitize (page_at rm 0) b)
  unfolding page_query
  page_query_at o =
      let limited = with_limit rm.count b in
      let at_zero = limit_offset rm.count b ∙ fresh in
      let sorted = with_sorting sanitize "published_at" rm.sort_direction in
      let after = when_positive rm.start_time after_published_date in
      let before = when_positive rm.stop_time before_published_date in
      ap (λ c. before (after (sorted c))) (offset_of o limited at_zero)
      ∙ ap (λ c. before (after c))
          (sorting_offset sanitize "published_at" rm.sort_direction o limited)
      ∙ ap before (
          when_offset rm.start_time after_published_date o (sorted limited)
            (λ at. after_offset at o (sorted limited)))
      ∙ when_offset rm.stop_time before_published_date o (after (sorted limited))
          (λ at. before_offset at o (after (sorted limited)))
      ∙ ap (λ c. at_offset o (before (after (sorted c)))) (zero_offset limited)
