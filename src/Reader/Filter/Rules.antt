-- ===== src/Reader/Filter/Rules.antt =====
-- internal/reader/filter/rules.go: the rules as text, as values, and matched against an entry. A nil regular expression that is used panics:
-- a match returns `none` then. The logger is left out.
use miniflux.Base.{
  ℕ, ◌+◌, String, ◌⊎◌, inl, inr, Bool, true, false, ◌||◌, Option, none, some, List, [], ◌∷◌, ◌++◌,
  if◌then◌else◌, ◌==◌, nat_eq, string_eq, any,
}
use miniflux.Base.Int.{ℤ, pos}
use miniflux.Base.Text.{trim_space, cut, cut_suffix, split}
use miniflux.Model.Entry.{Entry}
pub use miniflux.Reader.Filter.Dates.{Library}
use miniflux.Reader.Filter.Dates.{match_date_pattern}

abbrev pub is_one_of : List String → String → Bool
is_one_of names s = any (λ name. name == s) names

-- The fields of a rule, under their two names.
abbrev pub author_names : List String
author_names = "entryauthor" ∷ "author" ∷ []

abbrev pub comments_url_names : List String
comments_url_names = "entrycommentsurl" ∷ "commentsurl" ∷ []

abbrev pub content_names : List String
content_names = "entrycontent" ∷ "content" ∷ []

abbrev pub date_names : List String
date_names = "entrydate" ∷ "date" ∷ []

abbrev pub tag_names : List String
tag_names = "entrytag" ∷ "tag" ∷ []

abbrev pub title_names : List String
title_names = "entrytitle" ∷ "title" ∷ []

abbrev pub url_names : List String
url_names = "entryurl" ∷ "url" ∷ []

-- The names that `init` compiles a regular expression for.
abbrev pub regexp_names : List String
regexp_names =
    author_names
    ++ comments_url_names
    ++ content_names
    ++ tag_names
    ++ title_names
    ++ url_names
    ++ "any" ∷ []

pub record Rule (Regexp : Type 0) : Type 0 where
  pub field : String
  pub filter : String
  pub re : Option Regexp

pub data RuleError : Type 0 where
  unexpected_format : RuleError
  empty_field : RuleError
  empty_filter : RuleError
  bad_regexp : RuleError
  unknown_field : RuleError

pub data Parsed {ℓ} (A : Type ℓ) : Type ℓ where
  parsed : A → Parsed A
  bad_rule : RuleError → Parsed A

-- Goes on where there was no panic.
abbrev pub and_then {ℓ κ} : {A : Type ℓ} {B : Type κ} → Option A → (A → Option B) → Option B
and_then none k = none
and_then (some a) k = k a

module _ (lib : Library) where
  -- Rule.init
  unfoldable pub init : Rule lib.Regexp → Parsed (Rule lib.Regexp)
  init r =
      if is_one_of regexp_names r.field
      then elim (lib.compile r.filter) [
        | none ↦ bad_rule bad_regexp
        | some re ↦ parsed (record r { re = some re })
      ]
      else if is_one_of date_names r.field
      then parsed r
      else bad_rule unknown_field

  -- What NewRule makes of the two sides of the sign `=`.
  abbrev pub rule_of : Option (String × String) → Parsed (Rule lib.Regexp)
  rule_of none = bad_rule unexpected_format
  rule_of (some (before, after)) =
      let field = lib.to_lower (trim_space before) in
      let filter = trim_space after in
      if field == ""
      then bad_rule empty_field
      else if filter == ""
      then bad_rule empty_filter
      else init (record { field = field; filter = filter; re = none })

  -- NewRule
  unfoldable pub new_rule : String → Parsed (Rule lib.Regexp)
  unfolding init
  new_rule s = rule_of (cut 0x3d (trim_space s))

  -- `self.re.MatchString(s)`
  abbrev pub match_text : Option lib.Regexp → String → Option Bool
  match_text none s = none
  match_text (some re) s = some (lib.match_string re s)

  -- `slices.ContainsFunc(entry.Tags, …)`
  abbrev pub match_tags : Option lib.Regexp → List String → Option Bool
  match_tags re [] = some false
  match_tags none (t ∷ ts) = none
  match_tags (some re) (t ∷ ts) = some (any (lib.match_string re) (t ∷ ts))

  -- What a rule for any field matches.
  abbrev pub match_any : {Url : Type 0} → Option lib.Regexp → Entry Url → Option Bool
  match_any none e = none
  match_any (some re) e = some (
      lib.match_string re e.author
      || lib.match_string re e.comments_url
      || lib.match_string re e.content
      || lib.match_string re e.title
      || lib.match_string re e.url
      || any (lib.match_string re) e.tags)

  -- Rule.Match
  unfoldable pub match_rule : {Url : Type 0} → ℤ → Rule lib.Regexp → Entry Url → Option Bool
  unfolding match_date_pattern
  match_rule now r e =
      if is_one_of author_names r.field
      then match_text r.re e.author
      else if is_one_of comments_url_names r.field
      then match_text r.re e.comments_url
      else if is_one_of content_names r.field
      then match_text r.re e.content
      else if is_one_of date_names r.field
      then some (match_date_pattern lib now r.filter (pos e.date))
      else if is_one_of tag_names r.field
      then match_tags r.re e.tags
      else if is_one_of title_names r.field
      then match_text r.re e.title
      else if is_one_of url_names r.field
      then match_text r.re e.url
      else match_any r.re e

  -- Filter.Match
  unfoldable pub match_filter :
      {Url : Type 0} → ℤ → List (Rule lib.Regexp) → Entry Url → Option Bool
  unfolding match_rule
  match_filter now [] e = some false
  match_filter now (r ∷ rs) e =
      let rest = match_filter now rs e in
      and_then (match_rule now r e) (λ b. if b then some true else rest)

  -- Filter.Allow
  unfoldable pub allow : {Url : Type 0} → ℤ → List (Rule lib.Regexp) → Entry Url → Option Bool
  unfolding match_filter
  allow now [] e = some true
  allow now (r ∷ rs) e = match_filter now (r ∷ rs) e

  -- What a line adds to the rules of the lines after it.
  abbrev pub add_rule :
      ℕ
      → Parsed (Rule lib.Regexp)
      → List (Rule lib.Regexp) ⊎ (ℕ × RuleError)
      → List (Rule lib.Regexp) ⊎ (ℕ × RuleError)
  add_rule i (bad_rule err) rest = inr (i, err)
  add_rule i (parsed r) (inl rs) = inl (r ∷ rs)
  add_rule i (parsed r) (inr err) = inr err

  -- The loop of NewCombinedFilter over the lines of a rule set, from line `i`: the rules, or the
  -- line and its error.
  unfoldable pub parse_lines : ℕ → List String → List (Rule lib.Regexp) ⊎ (ℕ × RuleError)
  unfolding new_rule
  parse_lines i [] = inl []
  parse_lines i (line ∷ lines) =
      let rest = parse_lines (i + 1) lines in
      let text = trim_space (elim (cut_suffix 0xd line) [ none ↦ line | some s ↦ s ]) in
      if text == "" then rest else add_rule i (new_rule text) rest

  -- What a rule set adds to the rules of the sets after it.
  abbrev pub add_set :
      ℕ
      → List (Rule lib.Regexp) ⊎ (ℕ × RuleError)
      → List (Rule lib.Regexp) ⊎ (ℕ × ℕ × RuleError)
      → List (Rule lib.Regexp) ⊎ (ℕ × ℕ × RuleError)
  add_set j (inr (i, err)) rest = inr (j, i, err)
  add_set j (inl rs) (inl more) = inl (rs ++ more)
  add_set j (inl rs) (inr err) = inr err

  -- The loop over the rule sets, from the set `j`.
  unfoldable pub parse_sets : ℕ → List String → List (Rule lib.Regexp) ⊎ (ℕ × ℕ × RuleError)
  unfolding parse_lines
  parse_sets j [] = inl []
  parse_sets j (s ∷ sets) =
      let rest = parse_sets (j + 1) sets in
      if trim_space s == "" then rest else add_set j (parse_lines 1 (split 0xa s)) rest

  -- NewCombinedFilter: the rules, or the set, the line and the error.
  unfoldable pub new_combined_filter : List String → List (Rule lib.Regexp) ⊎ (ℕ × ℕ × RuleError)
  unfolding parse_sets
  new_combined_filter sets = parse_sets 1 sets
