-- ===== src/Reader/Filter/Safety.antt =====
-- DeleteEntries ends: with the feed, or with the error of a rule.
use miniflux.Base.{
  ℕ, ◌≡◌, refl, ◌⊎◌, inl, inr, Bool, true, not, ◌&&◌, Option, List, [], ◌∷◌, nat_eq, string_eq,
  keep, All,
}
use miniflux.Base.Int.{ℤ, pos}
use miniflux.Model.Entry.{Entry}
use miniflux.Model.Feed.{Feed}
use miniflux.Model.User.{User}
use miniflux.Reader.Filter.Rules.{Library, Rule, RuleError}
use miniflux.Reader.Filter.Entries.{
  entry_aged, match_author, Settings, done, failed, Progress, after_rules, finished, delete_found,
  settings_of, is_blocked, del, del_loop, block_rules, keep_rules, delete_with, delete_entries,
}
use miniflux.Reader.Filter.Sound.{
  IsSound, Answers, OfInl, if-Answers, and_then-Answers, match_filter-Answers, allow-Answers,
  new_combined_filter-IsSound,
}

module _ (lib : Library) where
  is_blocked-Answers :
      {Url : Type 0} (now : ℤ) (s : Settings lib.Regexp) (e : Entry Url)
      → All (IsSound lib) s.block
      → All (IsSound lib) s.keep
      → Answers (is_blocked lib now s e)
  unfolding is_blocked
  is_blocked-Answers now s e hb hk =
      if-Answers (match_author lib s.authors e) (true, refl)
        (and_then-Answers (match_filter-Answers lib now s.block e hb) λ b.
          if-Answers b (true, refl)
            (and_then-Answers (allow-Answers lib now s.keep e hk) (λ k. (not k, refl))))

  del-Answers :
      {Url : Type 0} (now : ℕ) (s : Settings lib.Regexp) (p : Progress Url) (e : Entry Url)
      → All (IsSound lib) s.block
      → All (IsSound lib) s.keep
      → Answers (del lib now s p e)
  unfolding del
  del-Answers now s p e hb hk =
      if-Answers (not s.skip_age && entry_aged now s.max_age e) (_, refl)
        (if-Answers e.stored (_, refl)
          (and_then-Answers (is_blocked-Answers (pos now) s e hb hk)
            (λ b. (after_rules lib s p e b, refl))))

  del_loop-Answers :
      {Url : Type 0} (now : ℕ) (s : Settings lib.Regexp) (p : Progress Url) (es : List (Entry Url))
      → All (IsSound lib) s.block
      → All (IsSound lib) s.keep
      → Answers (del_loop lib now s p es)
  unfolding del_loop
  del_loop-Answers now s p [] hb hk = (_, refl)
  del_loop-Answers now s p (e ∷ es) hb hk =
      and_then-Answers (del-Answers now s p e hb hk)
        λ r. and_then-Answers (del_loop-Answers now s r.0 es hb hk) (λ rest. (_, refl))

  block_rules-IsSound :
      {Rate Url : Type 0} (u : User Rate) (f : Feed Url)
      → OfInl (All (IsSound lib)) (block_rules lib u f)
  unfolding block_rules
  block_rules-IsSound u f = new_combined_filter-IsSound lib (
      u.block_filter_entry_rules ∷ f.category.extra.block_filter ∷ f.extra.block_filter_entry_rules
      ∷ [])

  keep_rules-IsSound :
      {Rate Url : Type 0} (u : User Rate) (f : Feed Url)
      → OfInl (All (IsSound lib)) (keep_rules lib u f)
  unfolding keep_rules
  keep_rules-IsSound u f =
      new_combined_filter-IsSound lib
        (u.keep_filter_entry_rules ∷ f.extra.keep_filter_entry_rules ∷ [])

  finished_done :
      {Url : Type 0} {o : Option (Progress Url × List (Entry Url))}
      → Answers o
      → (f : Feed Url) × (finished lib o ≡ done f)
  finished_done (run, q) = rw q (_, refl)

  delete_with-ends :
      {Url : Type 0} (now : ℕ) (s : Settings lib.Regexp) (f : Feed Url)
      → All (IsSound lib) s.block
      → All (IsSound lib) s.keep
      → (f' : Feed Url) × (delete_with lib now s f ≡ done f')
  unfolding delete_with
  delete_with-ends now s f hb hk = finished_done (del_loop-Answers now s _ f.entries hb hk)

  delete_found-ends :
      {Url : Type 0} (now : ℕ) (max_age : ℕ) (mark skip : Bool) (f : Feed Url)
      (block keep : List (Rule lib.Regexp) ⊎ (ℕ × ℕ × RuleError))
      → OfInl (All (IsSound lib)) block
      → OfInl (All (IsSound lib)) keep
      → (let run = delete_found lib now (settings_of lib max_age mark skip f) f block keep in
          ((f' : Feed Url) × (run ≡ done f'))
          ⊎ ((err : ℕ × ℕ × RuleError) × (run ≡ failed err)
              × ((block ≡ inr err) ⊎ (keep ≡ inr err))))
  unfolding settings_of
  delete_found-ends now max_age mark skip f (inr err) keep hb hk = inr (err, refl, inl refl)
  delete_found-ends now max_age mark skip f (inl block) (inr err) hb hk = inr (err, refl, inr refl)
  delete_found-ends now max_age mark skip f (inl block) (inl keep) hb hk =
      inl (delete_with-ends now (settings_of lib max_age mark skip f block keep) f hb hk)

  -- DeleteEntries never panics: it returns the feed, or the error of a rule of the user, the
  -- category or the feed.
  pub delete_entries-ends :
      {Rate Url : Type 0} (now max_age : ℕ) (block_mark_read skip_age : Bool) (u : User Rate)
      (f : Feed Url)
      → ((f' : Feed Url) × (delete_entries lib now max_age block_mark_read skip_age u f ≡ done f'))
        ⊎ ((err : ℕ × ℕ × RuleError) × (delete_entries lib now max_age block_mark_read skip_age u f
              ≡ failed err)
            × ((block_rules lib u f ≡ inr err) ⊎ (keep_rules lib u f ≡ inr err)))
  unfolding delete_entries
  delete_entries-ends now max_age block_mark_read skip_age u f =
      delete_found-ends now max_age block_mark_read skip_age f (block_rules lib u f)
        (keep_rules lib u f) (block_rules-IsSound u f) (keep_rules-IsSound u f)
