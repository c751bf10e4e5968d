-- ===== src/Reader/Filter/Entries.antt =====
-- internal/reader/filter: filter.go DeleteEntries, age.go, authors.go and uniq.go: which entries of
-- a feed are dropped, and what is counted. The clock stands still during a run at `now`.
use miniflux.Base.{
  ℕ, ◌+◌, String, ◌⊎◌, inl, inr, Bool, true, false, not, ◌&&◌, ◌||◌, Option, none, some, List, [],
  ◌∷◌, ltb, if◌then◌else◌, ◌==◌, nat_eq, string_eq, length, any, keep,
}
use miniflux.Base.Int.{ℤ, pos}
use miniflux.Base.Sort.{sort}
use miniflux.Model.Entry.{Entry, keep_imported_status, status_read}
use miniflux.Model.Feed.{
  Feed, inc_filtered_by_age, inc_filtered_by_rules, inc_filtered_by_hash, inc_filtered_by_stored,
}
use miniflux.Model.User.{User}
use miniflux.Reader.Filter.Rules.{
  Library, Rule, RuleError, match_filter, allow, and_then, new_combined_filter,
}

-- What a run reads: the rules, the sorted authors, FILTER_ENTRY_MAX_AGE_DAYS (0 for no limit), the
-- option skipAge and what blockMarkRead answers.
pub record Settings (Regexp : Type 0) : Type 0 where
  pub block : List (Rule Regexp)
  pub keep : List (Rule Regexp)
  pub authors : List String
  pub max_age : ℕ
  pub skip_age : Bool
  pub mark_read : Bool

-- How a run ends: with the feed, with the error of a rule, or in a panic.
pub data Run {ℓ} (A : Type ℓ) : Type ℓ where
  done : A → Run A
  failed : ℕ × ℕ × RuleError → Run A
  panicked : Run A

-- What the loop carries: the feed's counters and the hashes of `seen`.
pub record Progress (Url : Type 0) : Type 0 where
  pub feed : Feed Url
  pub seen : List String

-- entryAged
unfoldable pub entry_aged : {Url : Type 0} → ℕ → ℕ → Entry Url → Bool
entry_aged now max_age e = if max_age == 0 then false else ltb (e.date + max_age) now

-- DeleteAgedEntries: the entries it keeps are left in the feed.
unfoldable pub age_loop :
    {Url : Type 0} → ℕ → ℕ → Feed Url → List (Entry Url) → Feed Url × List (Entry Url)
unfolding entry_aged inc_filtered_by_age
age_loop now max_age f [] = (f, [])
age_loop now max_age f (e ∷ es) =
    let aged = entry_aged now max_age e in
    let rest = age_loop now max_age (if aged then inc_filtered_by_age f else f) es in
    (rest.0, if aged then rest.1 else e ∷ rest.1)

unfoldable pub delete_aged_entries : {Url : Type 0} → ℕ → ℕ → Feed Url → Feed Url
unfolding age_loop
delete_aged_entries now max_age f =
    if max_age == 0
    then f
    else let run = age_loop now max_age f f.entries in
      let f' = run.0 in record f' { entries = run.1 }

-- uniqEntries.Add: whether the entry is the first with its hash.
unfoldable pub add_unique : {Url : Type 0} → Progress Url → Entry Url → Progress Url × Bool
unfolding inc_filtered_by_hash
add_unique p e =
    if any (λ h. h == e.hash) p.seen
    then (record p { feed = inc_filtered_by_hash p.feed }, false)
    else (record p { seen = e.hash ∷ p.seen }, true)

-- The entries after one that is kept or dropped.
abbrev pub cons_kept {ℓ} : {A : Type ℓ} → Option A → List A → List A
cons_kept none xs = xs
cons_kept (some x) xs = x ∷ xs

-- The progress at the start: NewAuthors has sorted the feed's own authors.
abbrev pub start_of : {Url : Type 0} → List String → Feed Url → Progress Url
start_of authors f =
    let extra = f.extra in
    record { feed = record f { extra = record extra { block_authors = authors } }; seen = [] }

module _ (lib : Library) where
  -- authors.Match, over the sorted authors
  unfoldable pub match_author : {Url : Type 0} → List String → Entry Url → Bool
  match_author authors e =
      if e.author == "" || length authors == 0 then false else lib.binary_search authors e.author

  -- `blockAuthors.Match(e) || block.Match(e) || !keep.Allow(e)`
  unfoldable pub is_blocked : {Url : Type 0} → ℤ → Settings lib.Regexp → Entry Url → Option Bool
  unfolding match_author match_filter allow
  is_blocked now s e =
      if match_author s.authors e
      then some true
      else and_then (match_filter lib now s.block e)
          λ b. if b then some true else and_then (allow lib now s.keep e) (λ k. some (not k))

  -- The end of `del`, by the answer of the rules.
  abbrev pub after_rules :
      {Url : Type 0}
      → Settings lib.Regexp
      → Progress Url
      → Entry Url
      → Bool
      → Progress Url × Option (Entry Url)
  after_rules s p e true = (
    record p { feed = inc_filtered_by_rules p.feed },
    if s.mark_read then some (keep_imported_status status_read e) else none,
  )
  after_rules s p e false =
      let added = add_unique p e in (added.0, if added.1 then some e else none)

  -- The function `del`: the progress, and the entry where it is kept.
  unfoldable pub del :
      {Url : Type 0}
      → ℕ
      → Settings lib.Regexp
      → Progress Url
      → Entry Url
      → Option (Progress Url × Option (Entry Url))
  unfolding entry_aged is_blocked inc_filtered_by_age inc_filtered_by_stored
  del now s p e =
      if not s.skip_age && entry_aged now s.max_age e
      then some (record p { feed = inc_filtered_by_age p.feed }, none)
      else if e.stored
      then some (record p { feed = inc_filtered_by_stored p.feed }, none)
      else and_then (is_blocked (pos now) s e) (λ b. some (after_rules s p e b))

  -- slices.DeleteFunc(self.feed.Entries, del)
  unfoldable pub del_loop :
      {Url : Type 0}
      → ℕ
      → Settings lib.Regexp
      → Progress Url
      → List (Entry Url)
      → Option (Progress Url × List (Entry Url))
  unfolding del
  del_loop now s p [] = some (p, [])
  del_loop now s p (e ∷ es) =
      and_then (del now s p e)
        λ r. and_then (del_loop now s r.0 es) (λ rest. some (rest.0, cons_kept r.1 rest.1))

  -- blockRules and keepRules
  unfoldable pub block_rules :
      {Rate Url : Type 0} → User Rate → Feed Url → List (Rule lib.Regexp) ⊎ (ℕ × ℕ × RuleError)
  unfolding new_combined_filter
  block_rules u f = new_combined_filter lib (
      u.block_filter_entry_rules ∷ f.category.extra.block_filter ∷ f.extra.block_filter_entry_rules
      ∷ [])

  unfoldable pub keep_rules :
      {Rate Url : Type 0} → User Rate → Feed Url → List (Rule lib.Regexp) ⊎ (ℕ × ℕ × RuleError)
  unfolding new_combined_filter
  keep_rules u f =
      new_combined_filter lib (u.keep_filter_entry_rules ∷ f.extra.keep_filter_entry_rules ∷ [])

  -- The feed at the end of the pass.
  abbrev pub finished : {Url : Type 0} → Option (Progress Url × List (Entry Url)) → Run (Feed Url)
  finished none = panicked
  finished (some (p, es)) = let f = p.feed in done (record f { entries = es })

  -- The pass over the entries, with the rules at hand.
  unfoldable pub delete_with : {Url : Type 0} → ℕ → Settings lib.Regexp → Feed Url → Run (Feed Url)
  unfolding del_loop
  delete_with now s f = finished (del_loop now s (start_of s.authors f) f.entries)

  -- The two checks of filterRules, and the pass where both succeed.
  abbrev pub delete_found :
      {Url : Type 0}
      → ℕ
      → (List (Rule lib.Regexp) → List (Rule lib.Regexp) → Settings lib.Regexp)
      → Feed Url
      → List (Rule lib.Regexp) ⊎ (ℕ × ℕ × RuleError)
      → List (Rule lib.Regexp) ⊎ (ℕ × ℕ × RuleError)
      → Run (Feed Url)
  delete_found now settings f (inr err) keep = failed err
  delete_found now settings f (inl block) (inr err) = failed err
  delete_found now settings f (inl block) (inl keep) = delete_with now (settings block keep) f

  -- The settings of a run; `block_mark_read` is the configured BlockMarkRead.
  unfoldable pub settings_of :
      {Url : Type 0}
      → ℕ
      → Bool
      → Bool
      → Feed Url
      → List (Rule lib.Regexp)
      → List (Rule lib.Regexp)
      → Settings lib.Regexp
  unfolding sort
  settings_of max_age block_mark_read skip_age f block keep = record {
    block = block;
    keep = keep;
    authors = sort f.extra.block_authors;
    max_age = max_age;
    skip_age = skip_age;
    mark_read = block_mark_read || f.extra.block_mark_read;
  }

  -- feedFilter.DeleteEntries
  unfoldable pub delete_entries :
      {Rate Url : Type 0} → ℕ → ℕ → Bool → Bool → User Rate → Feed Url → Run (Feed Url)
  unfolding delete_with block_rules keep_rules settings_of
  delete_entries now max_age block_mark_read skip_age u f =
      delete_found now (settings_of max_age block_mark_read skip_age f) f (block_rules u f)
        (keep_rules u f)
