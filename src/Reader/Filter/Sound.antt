-- ===== src/Reader/Filter/Sound.antt =====
-- The rules that NewRule builds can be matched: no nil regular expression is used.
use miniflux.Base.{
  ℕ, ◌+◌, String, ◌≡◌, refl, ◌⊎◌, inl, inr, Bool, true, false, Option, none, some, List, [], ◌∷◌,
  arith, eq_iff, if◌then◌else◌, ◌==◌, nat_eq, string_eq, Bool-cases, Option-cases, All, All-append,
}
use miniflux.Base.Int.{ℤ}
use miniflux.Base.Text.{cut, cut_suffix, split, trim_space}
use miniflux.Model.Entry.{Entry}
use miniflux.Reader.Filter.Rules.{
  Library, Rule, RuleError, Parsed, parsed, bad_rule, is_one_of, date_names, author_names,
  comments_url_names, content_names, tag_names, title_names, url_names, regexp_names, init, rule_of,
  add_rule, add_set, new_rule, match_tags, match_rule, match_filter, allow, and_then, parse_lines,
  parse_sets, new_combined_filter,
}

abbrev pub Answers {ℓ} : {A : Type ℓ} → Option A → Type ℓ
Answers {A} o = (a : A) × (o ≡ some a)

-- What holds of a result that is no error.
abbrev pub OfParsed {ℓ} : {A : Type 0} → (A → Type ℓ) → Parsed A → Type ℓ
OfParsed P (parsed a) = P a
OfParsed P (bad_rule err) = Unit

abbrev pub OfInl {ℓ} : {A E : Type 0} → (A → Type ℓ) → A ⊎ E → Type ℓ
OfInl P (inl a) = P a
OfInl P (inr err) = Unit

pub if-Answers {ℓ} :
    {A : Type ℓ} (b : Bool) {x y : Option A} → Answers x → Answers y → Answers (if b then x else y)
if-Answers true hx hy = hx
if-Answers false hx hy = hy

pub and_then-Answers {ℓ κ} :
    {A : Type ℓ} {B : Type κ} {o : Option A} {k : A → Option B}
    → Answers o
    → ((a : A) → Answers (k a))
    → Answers (and_then o k)
and_then-Answers {k} (a, q) h = rw q (h a)

module _ (lib : Library) where
  -- A rule for a date, or one with a regular expression.
  abbrev pub IsSound : Rule lib.Regexp → Type 0
  IsSound r = (r.field ≡ "entrydate") ⊎ (r.field ≡ "date") ⊎ ((re : lib.Regexp) × (r.re ≡ some re))

  date_cases : (s : String) → is_one_of date_names s ≡ true → (s ≡ "entrydate") ⊎ (s ≡ "date")
  date_cases s h = ground (arith, eq_iff "entrydate" s, eq_iff "date" s)

  init-IsSound : (r : Rule lib.Regexp) → OfParsed IsSound (init lib r)
  unfolding init
  init-IsSound r = elim (Bool-cases (is_one_of regexp_names r.field)) [
    | inl text ↦ elim (Option-cases (lib.compile r.filter)) [
      | inl bad ↦ rw (text, bad) tt
      | inr (re, good) ↦ rw (text, good) (inr (inr (re, refl)))
    ]
    | inr other ↦ elim (Bool-cases (is_one_of date_names r.field)) [
      | inr unknown ↦ rw (other, unknown) tt
      | inl date ↦ elim (date_cases r.field date) [
        | inl entrydate ↦ rw (other, date) (inl entrydate)
        | inr date' ↦ rw (other, date) (inr (inl date'))
      ]
    ]
  ]

  rule_of-IsSound : (o : Option (String × String)) → OfParsed IsSound (rule_of lib o)
  rule_of-IsSound none = tt
  rule_of-IsSound (some (before, after)) =
      let field = lib.to_lower (trim_space before) in
      let filter = trim_space after in
      let rule = init-IsSound (record { field = field; filter = filter; re = none }) in
      elim (Bool-cases (field == "")) [
        | inl empty ↦ rw empty tt
        | inr named ↦ elim (Bool-cases (filter == "")) [
          | inl empty ↦ rw (named, empty) tt
          | inr full ↦ rw (named, full) rule
        ]
      ]

  -- A rule that NewRule builds is for a date or has its regular expression.
  new_rule-IsSound : (s : String) → OfParsed IsSound (new_rule lib s)
  unfolding new_rule
  new_rule-IsSound s = rule_of-IsSound (cut 0x3d (trim_space s))

  match_tags-Answers : (re : lib.Regexp) (ts : List String) → Answers (match_tags lib (some re) ts)
  match_tags-Answers re [] = (_, refl)
  match_tags-Answers re (t ∷ ts) = (_, refl)

  -- A rule that is for a date or has its regular expression is matched without a panic.
  match_rule-Answers :
      {Url : Type 0} (now : ℤ) (r : Rule lib.Regexp) (e : Entry Url)
      → IsSound r
      → Answers (match_rule lib now r e)
  unfolding match_rule
  match_rule-Answers now r e (inl date) = rw date (_, refl)
  match_rule-Answers now r e (inr (inl date)) = rw date (_, refl)
  match_rule-Answers now r e (inr (inr (re, h))) = rw h (
      if-Answers (is_one_of author_names r.field) (_, refl)
        (if-Answers (is_one_of comments_url_names r.field) (_, refl)
          (if-Answers (is_one_of content_names r.field) (_, refl)
            (if-Answers (is_one_of date_names r.field) (_, refl)
              (if-Answers (is_one_of tag_names r.field) (match_tags-Answers re e.tags) (
                if-Answers (is_one_of title_names r.field) (_, refl)
                  (if-Answers (is_one_of url_names r.field) (_, refl) (_, refl))))))))

  pub match_filter-Answers :
      {Url : Type 0} (now : ℤ) (rs : List (Rule lib.Regexp)) (e : Entry Url)
      → All IsSound rs
      → Answers (match_filter lib now rs e)
  unfolding match_filter
  match_filter-Answers now [] e h = (false, refl)
  match_filter-Answers now (r ∷ rs) e h =
      and_then-Answers (match_rule-Answers now r e h.0)
        λ b. if-Answers b (true, refl) (match_filter-Answers now rs e h.1)

  pub allow-Answers :
      {Url : Type 0} (now : ℤ) (rs : List (Rule lib.Regexp)) (e : Entry Url)
      → All IsSound rs
      → Answers (allow lib now rs e)
  unfolding allow
  allow-Answers now [] e h = (true, refl)
  allow-Answers now (r ∷ rs) e h = match_filter-Answers now (r ∷ rs) e h

  add_rule-IsSound :
      (i : ℕ) (p : Parsed (Rule lib.Regexp)) (rest : List (Rule lib.Regexp) ⊎ (ℕ × RuleError))
      → OfParsed IsSound p
      → OfInl (All IsSound) rest
      → OfInl (All IsSound) (add_rule lib i p rest)
  add_rule-IsSound i (bad_rule err) rest hp hr = tt
  add_rule-IsSound i (parsed r) (inl rs) hp hr = (hp, hr)
  add_rule-IsSound i (parsed r) (inr err) hp hr = tt

  parse_lines-IsSound :
      (i : ℕ) (lines : List String) → OfInl (All IsSound) (parse_lines lib i lines)
  unfolding parse_lines
  parse_lines-IsSound i [] = tt
  parse_lines-IsSound i (line ∷ lines) =
      let rest = parse_lines-IsSound (i + 1) lines in
      let text = trim_space (elim (cut_suffix 0xd line) [ none ↦ line | some s ↦ s ]) in
      elim (Bool-cases (text == "")) [
        | inl blank ↦ rw blank rest
        | inr rule ↦ rw rule (add_rule-IsSound i (new_rule lib text) _ (new_rule-IsSound text) rest)
      ]

  add_set-IsSound :
      (j : ℕ) (first : List (Rule lib.Regexp) ⊎ (ℕ × RuleError))
      (rest : List (Rule lib.Regexp) ⊎ (ℕ × ℕ × RuleError))
      → OfInl (All IsSound) first
      → OfInl (All IsSound) rest
      → OfInl (All IsSound) (add_set lib j first rest)
  add_set-IsSound j (inr err) rest hf hr = tt
  add_set-IsSound j (inl rs) (inl more) hf hr = All-append IsSound rs more hf hr
  add_set-IsSound j (inl rs) (inr err) hf hr = tt

  parse_sets-IsSound : (j : ℕ) (sets : List String) → OfInl (All IsSound) (parse_sets lib j sets)
  unfolding parse_sets
  parse_sets-IsSound j [] = tt
  parse_sets-IsSound j (s ∷ sets) =
      let rest = parse_sets-IsSound (j + 1) sets in
      elim (Bool-cases (trim_space s == "")) [
        | inl blank ↦ rw blank rest
        | inr full ↦ rw full (
            add_set-IsSound j (parse_lines lib 1 (split 0xa s)) _
              (parse_lines-IsSound 1 (split 0xa s)) rest)
      ]

  -- The rules that NewCombinedFilter returns are each for a date or have their regular expression.
  pub new_combined_filter-IsSound :
      (sets : List String) → OfInl (All IsSound) (new_combined_filter lib sets)
  unfolding new_combined_filter
  new_combined_filter-IsSound sets = parse_sets-IsSound 1 sets
