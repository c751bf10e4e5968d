-- ===== src/Reader/Filter/Counting.antt =====
-- What DeleteEntries counts: every entry that it drops is counted under one reason.
use miniflux.Base.{
  ℕ, ◌+◌, ◌≡◌, refl, ◌⊎◌, inl, inr, Bool, true, false, not, ◌&&◌, Option, none, some, List, [], ◌∷◌,
  arith, if◌then◌else◌, ◌==◌, nat_eq, string_eq, Bool-cases, length, any, keep,
}
use miniflux.Base.Int.{pos}
use miniflux.Model.Entry.{Entry}
use miniflux.Model.Feed.{
  Feed, inc_filtered_by_age, inc_filtered_by_rules, inc_filtered_by_hash, inc_filtered_by_stored,
}
use miniflux.Model.User.{User}
use miniflux.Reader.Filter.Rules.{Library, Rule, RuleError, and_then}
use miniflux.Reader.Filter.Entries.{
  Settings, Run, done, failed, panicked, Progress, entry_aged, add_unique, is_blocked, after_rules,
  del, cons_kept, del_loop, block_rules, keep_rules, start_of, finished, delete_with, delete_found,
  settings_of, delete_entries,
}

-- What holds of a result, where there is one.
abbrev pub OfSome {ℓ κ} : {A : Type ℓ} → (A → Type κ) → Option A → Type κ
OfSome P none = Unit
OfSome P (some a) = P a

pub and_then-OfSome {ℓ κ ν ο} :
    {A : Type ℓ} {B : Type κ} (P : A → Type ν) (Q : B → Type ο) (o : Option A) (k : A → Option B)
    → OfSome P o
    → ((a : A) → P a → OfSome Q (k a))
    → OfSome Q (and_then o k)
and_then-OfSome P Q none k h g = tt
and_then-OfSome P Q (some a) k h g = g a h

pub and_then-OfSome_any {ℓ κ ο} :
    {A : Type ℓ} {B : Type κ} (Q : B → Type ο) (o : Option A) (k : A → Option B)
    → ((a : A) → OfSome Q (k a))
    → OfSome Q (and_then o k)
and_then-OfSome_any Q none k g = tt
and_then-OfSome_any Q (some a) k g = g a

pub if-OfSome {ℓ κ} :
    {A : Type ℓ} (P : A → Type κ) (b : Bool) (x y : Option A)
    → OfSome P x
    → OfSome P y
    → OfSome P (if b then x else y)
if-OfSome P true x y hx hy = hx
if-OfSome P false x y hx hy = hy

abbrev pub OfRun {ℓ} : {A : Type 0} → (A → Type ℓ) → Run A → Type ℓ
OfRun P (done a) = P a
OfRun P (failed err) = Unit
OfRun P panicked = Unit

-- The entries that a feed counts as dropped.
abbrev pub dropped : {Url : Type 0} → Feed Url → ℕ
dropped f = f.filtered_by_age + f.filtered_by_rules + f.filtered_by_hash + f.filtered_by_stored

abbrev kept_count {ℓ} : {A : Type ℓ} → Option A → ℕ
kept_count none = 0
kept_count (some x) = 1

length-cons_kept :
    {A : Type 0} (o : Option A) (xs : List A) → length (cons_kept o xs) ≡ kept_count o + length xs
length-cons_kept none xs = omega arith
length-cons_kept (some x) xs = omega arith

module _ {Url : Type 0} (lib : Library) where
  abbrev Counted : Progress Url → Progress Url × Option (Entry Url) → Type 0
  Counted p r = kept_count r.1 + dropped r.0.feed ≡ dropped p.feed + 1

  after_rules-counts :
      (s : Settings lib.Regexp) (p : Progress Url) (e : Entry Url) (b : Bool)
      → s.mark_read ≡ false
      → kept_count (after_rules lib s p e b).1 + dropped (after_rules lib s p e b).0.feed
        ≡ dropped p.feed + 1
  unfolding add_unique inc_filtered_by_hash inc_filtered_by_rules
  after_rules-counts s p e true h = rw h (omega arith)
  after_rules-counts s p e false h = elim (Bool-cases (any (λ h. h == e.hash) p.seen)) [
    | inl seen ↦ rw seen (omega arith)
    | inr new ↦ rw new (omega arith)
  ]

  del-counts :
      (now : ℕ) (s : Settings lib.Regexp) (p : Progress Url) (e : Entry Url)
      → s.mark_read ≡ false
      → OfSome (Counted p) (del lib now s p e)
  unfolding del inc_filtered_by_age inc_filtered_by_stored
  del-counts now s p e h =
      let P = Counted p in
      if-OfSome P (not s.skip_age && entry_aged now s.max_age e) _ _ (omega arith) (
        if-OfSome P e.stored _ _ (omega arith) (
          and_then-OfSome_any P (is_blocked lib (pos now) s e) _
            (λ b. after_rules-counts s p e b h)))

  abbrev AllCounted : Progress Url → List (Entry Url) → Progress Url × List (Entry Url) → Type 0
  AllCounted p es r = length r.1 + dropped r.0.feed ≡ length es + dropped p.feed

  pub del_loop-counts :
      (now : ℕ) (s : Settings lib.Regexp) (p : Progress Url) (es : List (Entry Url))
      → s.mark_read ≡ false
      → OfSome (AllCounted p es) (del_loop lib now s p es)
  unfolding del_loop
  del_loop-counts now s p [] h = refl
  del_loop-counts now s p (e ∷ es) h =
      and_then-OfSome (Counted p) (AllCounted p (e ∷ es)) (del lib now s p e) _
        (del-counts now s p e h)
        λ r q.
          and_then-OfSome (AllCounted r.0 es) (AllCounted p (e ∷ es)) (del_loop lib now s r.0 es) _
            (del_loop-counts now s r.0 es h) λ rest q'. omega (arith, length-cons_kept r.1 rest.1)

  finished_of {ℓ} :
      (P : Feed Url → Type ℓ) (o : Option (Progress Url × List (Entry Url)))
      → OfSome (λ r. let f = r.0.feed in P (record f { entries = r.1 })) o
      → OfRun P (finished lib o)
  finished_of P none h = tt
  finished_of P (some r) h = h

  -- A theorem on the pass over the entries holds of DeleteEntries.
  pub delete_found_of {ℓ} :
      (P : Feed Url → Type ℓ) (now max_age : ℕ) (mark skip : Bool) (f : Feed Url)
      (block keep : List (Rule lib.Regexp) ⊎ (ℕ × ℕ × RuleError))
      → ((b k : List (Rule lib.Regexp))
          → let s = settings_of lib max_age mark skip f b k in
            OfSome
              (λ r. let f = r.0.feed in P (record f { entries = r.1 }))
              (del_loop lib now s (start_of s.authors f) f.entries))
      → OfRun P (delete_found lib now (settings_of lib max_age mark skip f) f block keep)
  unfolding delete_with
  delete_found_of P now max_age mark skip f (inr err) keep h = tt
  delete_found_of P now max_age mark skip f (inl block) (inr err) h = tt
  delete_found_of P now max_age mark skip f (inl block) (inl keep) h =
      let s = settings_of lib max_age mark skip f block keep in
      finished_of P (del_loop lib now s (start_of s.authors f) f.entries) (h block keep)

  -- Where neither the configuration nor the feed marks blocked entries as read, the entries that
  -- DeleteEntries keeps and those that it counts as dropped are together the entries of the feed.
  pub delete_entries-counts :
      {Rate : Type 0} (now max_age : ℕ) (skip_age : Bool) (u : User Rate) (f : Feed Url)
      → f.extra.block_mark_read ≡ false
      → OfRun
          (λ f'. length f'.entries + dropped f' ≡ length f.entries + dropped f)
          (delete_entries lib now max_age false skip_age u f)
  unfolding delete_entries settings_of
  delete_entries-counts now max_age skip_age u f unmarked =
      delete_found_of (λ f'. length f'.entries + dropped f' ≡ length f.entries + dropped f) now
        max_age false skip_age f (block_rules lib u f) (keep_rules lib u f)
        λ b k.
          let s = settings_of lib max_age false skip_age f b k in
          del_loop-counts now s (start_of s.authors f) f.entries unmarked
