-- ===== src/Validator/Rules.antt =====
-- Rules that pass the checks of the requests never make DeleteEntries fail.
use miniflux.Base.{
  ℕ, ◌+◌, String, ◌≡◌, refl, sym, ◌≢◌, ◌⊎◌, inl, inr, Bool, true, none, List, [], ◌∷◌, ◌==◌, nat_eq,
  string_eq, Bool-cases, eq_of_beq, All,
}
use mathlib.Core.Option.{none-ne-some}
use miniflux.Base.Text.{split, trim_space, trim_left, trim_right}
use miniflux.Model.Feed.{Feed}
use miniflux.Model.User.{User}
use miniflux.Reader.Filter.Rules.{
  Library, Rule, RuleError, parse_lines, add_set, parse_sets, new_combined_filter,
}
use miniflux.Reader.Filter.Entries.{done, block_rules, keep_rules, delete_entries}
use miniflux.Reader.Filter.Safety.{delete_entries-ends}
use miniflux.Validator.Checks.{
  LocalizedError, invalid_block_rule, invalid_keep_rule, rule_error, validate_rules,
}

module _ (lib : Library) where
  -- A rule set that is blank or whose lines are all rules.
  abbrev IsReadable : String → Type 0
  IsReadable s =
      (trim_space s == "" ≡ true)
      ⊎ ((rs : List (Rule lib.Regexp)) × (parse_lines lib 1 (split 0xa s) ≡ inl rs))

  abbrev IsInl : {A E : Type 0} → A ⊎ E → Type 0
  IsInl {A} o = (a : A) × (o ≡ inl a)

  parse_lines-readable :
      (wrap : ℕ × ℕ × RuleError → LocalizedError) (o : List (Rule lib.Regexp) ⊎ (ℕ × RuleError))
      → rule_error lib wrap (add_set lib 1 o (inl [])) ≡ none
      → IsInl o
  parse_lines-readable wrap (inl rs) h = (rs, refl)
  parse_lines-readable wrap (inr (i, err)) h = absurd (none-ne-some (wrap (1, i, err)) (sym h))

  validate_rules-IsReadable :
      (wrap : ℕ × ℕ × RuleError → LocalizedError) (s : String)
      → validate_rules lib wrap s ≡ none
      → IsReadable s
  unfolding validate_rules new_combined_filter parse_sets trim_space trim_left trim_right
  validate_rules-IsReadable wrap s h = elim (Bool-cases (trim_space s == "")) [
    | inl blank ↦ inl blank
    | inr full ↦ elim (Bool-cases (s == "")) [
      | inl empty ↦ inl (rw (eq_of_beq s "" empty) refl)
      | inr some_text ↦
          let checked = rw (some_text, full) at h in
          inr (parse_lines-readable wrap (parse_lines lib 1 (split 0xa s)) checked)
    ]
  ]

  add_set-IsInl :
      (j : ℕ) (o : List (Rule lib.Regexp) ⊎ (ℕ × RuleError))
      (rest : List (Rule lib.Regexp) ⊎ (ℕ × ℕ × RuleError))
      → IsInl o
      → IsInl rest
      → IsInl (add_set lib j o rest)
  add_set-IsInl j o rest (rs, p) (more, q) = rw (p, q) (_, refl)

  parse_sets-IsInl :
      (j : ℕ) (sets : List String) → All IsReadable sets → IsInl (parse_sets lib j sets)
  unfolding parse_sets
  parse_sets-IsInl j [] h = ([], refl)
  parse_sets-IsInl j (s ∷ sets) (inl blank, h) = rw blank (parse_sets-IsInl (j + 1) sets h)
  parse_sets-IsInl j (s ∷ sets) (inr readable, h) =
      let rest = parse_sets-IsInl (j + 1) sets h in
      elim (Bool-cases (trim_space s == "")) [
        | inl blank ↦ rw blank rest
        | inr full ↦ rw full (add_set-IsInl j (parse_lines lib 1 (split 0xa s)) _ readable rest)
      ]

  inl-not-inr : {A E : Type 0} (o : A ⊎ E) (err : E) → IsInl o → o ≢ inr err
  inl-not-inr o err (a, p) q = cc

  -- Where each set of rules of the user, the category and the feed passes its check, DeleteEntries
  -- succeeds: it neither fails nor panics.
  pub validated-delete_entries :
      {Rate Url : Type 0} (now max_age : ℕ) (block_mark_read skip_age : Bool) (u : User Rate)
      (f : Feed Url)
      → validate_rules lib invalid_block_rule u.block_filter_entry_rules ≡ none
      → validate_rules lib invalid_block_rule f.category.extra.block_filter ≡ none
      → validate_rules lib invalid_block_rule f.extra.block_filter_entry_rules ≡ none
      → validate_rules lib invalid_keep_rule u.keep_filter_entry_rules ≡ none
      → validate_rules lib invalid_keep_rule f.extra.keep_filter_entry_rules ≡ none
      → (f' : Feed Url) × (delete_entries lib now max_age block_mark_read skip_age u f ≡ done f')
  unfolding block_rules keep_rules new_combined_filter
  validated-delete_entries now max_age block_mark_read skip_age u f ub cb fb uk fk =
      let read_block = validate_rules-IsReadable invalid_block_rule in
      let read_keep = validate_rules-IsReadable invalid_keep_rule in
      let block =
        parse_sets-IsInl 1
          (u.block_filter_entry_rules ∷ f.category.extra.block_filter
            ∷ f.extra.block_filter_entry_rules ∷ [])
          (read_block _ ub, (read_block _ cb, (read_block _ fb, tt))) in
      let keep =
        parse_sets-IsInl 1 (u.keep_filter_entry_rules ∷ f.extra.keep_filter_entry_rules ∷ [])
          (read_keep _ uk, (read_keep _ fk, tt)) in
      elim (delete_entries-ends lib now max_age block_mark_read skip_age u f) [
        | inl success ↦ success
        | inr (err, fails, inl bad) ↦ absurd (inl-not-inr (block_rules lib u f) err block bad)
        | inr (err, fails, inr bad) ↦ absurd (inl-not-inr (keep_rules lib u f) err keep bad)
      ]
