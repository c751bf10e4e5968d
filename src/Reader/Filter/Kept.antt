-- ===== src/Reader/Filter/Kept.antt =====
-- Which entries DeleteEntries keeps: no two with one hash, and each for a reason.
use miniflux.Base.{
  ℕ, String, ◌≡◌, refl, ◌≢◌, inl, inr, Bool, true, false, not, ◌&&◌, Option, none, some, List, [],
  ◌∷◌, arith, eq_iff, ◌==◌, nat_eq, string_eq, Bool-cases, any, All, All-map,
}
use miniflux.Base.Int.{pos}
use miniflux.Model.Entry.{Entry}
use miniflux.Model.Feed.{Feed}
use miniflux.Model.User.{User}
use miniflux.Reader.Filter.Rules.{Library}
use miniflux.Reader.Filter.Entries.{
  Settings, Progress, entry_aged, add_unique, is_blocked, after_rules, del, cons_kept, del_loop,
  block_rules, keep_rules, start_of, settings_of, delete_entries,
}
use miniflux.Reader.Filter.Counting.{
  OfSome, and_then-OfSome, and_then-OfSome_any, if-OfSome, OfRun, delete_found_of,
}

-- No two entries of the list have one hash.
abbrev pub HasOwnHashes : {Url : Type 0} → List (Entry Url) → Type 0
HasOwnHashes [] = Unit
HasOwnHashes (e ∷ es) = All (λ e'. e.hash ≢ e'.hash) es × HasOwnHashes es

OfSome-map {ℓ κ ν} :
    {A : Type ℓ} (P : A → Type κ) (Q : A → Type ν)
    → ((a : A) → P a → Q a)
    → (o : Option A) → OfSome P o
    → OfSome Q o
OfSome-map P Q h none p = tt
OfSome-map P Q h (some a) p = h a p

abbrev is_seen : {Url : Type 0} → List String → Entry Url → Bool
is_seen seen e = any (λ h. h == e.hash) seen

module _ {Url : Type 0} (lib : Library) where
  -- What one entry does to `seen`: nothing if it is dropped, else its hash is new and is added.
  abbrev Marks : Progress Url → Entry Url → Progress Url × Option (Entry Url) → Type 0
  Marks p e (p', none) = p'.seen ≡ p.seen
  Marks p e (p', some e') = (e' ≡ e) × (p'.seen ≡ e.hash ∷ p.seen) × (is_seen p.seen e ≡ false)

  after_rules-Marks :
      (s : Settings lib.Regexp) (p : Progress Url) (e : Entry Url) (b : Bool)
      → s.mark_read ≡ false
      → Marks p e (after_rules lib s p e b)
  unfolding add_unique
  after_rules-Marks s p e true h = rw h refl
  after_rules-Marks s p e false h = elim (Bool-cases (any (λ h. h == e.hash) p.seen)) [
    | inl seen ↦ rw seen refl
    | inr new ↦ rw new (refl, refl, new)
  ]

  del-Marks :
      (now : ℕ) (s : Settings lib.Regexp) (p : Progress Url) (e : Entry Url)
      → s.mark_read ≡ false
      → OfSome (Marks p e) (del lib now s p e)
  unfolding del
  del-Marks now s p e h =
      let P = Marks p e in
      if-OfSome P (not s.skip_age && entry_aged now s.max_age e) _ _ refl (
        if-OfSome P e.stored _ _ refl (
          and_then-OfSome_any P (is_blocked lib (pos now) s e) _
            (λ b. after_rules-Marks s p e b h)))

  -- The kept entries have hashes of their own, none of them seen before.
  abbrev Distinct : Progress Url → Progress Url × List (Entry Url) → Type 0
  Distinct p (p', es) = All (λ e. is_seen p.seen e ≡ false) es × HasOwnHashes es

  unsee :
      (seen : List String) (h : String) (e : Entry Url)
      → is_seen (h ∷ seen) e ≡ false
      → (is_seen seen e ≡ false) × (h ≢ e.hash)
  unsee seen h e q = ground (arith, eq_iff h e.hash)

  cons-Distinct :
      (p : Progress Url) (e : Entry Url) (r : Progress Url × Option (Entry Url))
      (rest : Progress Url × List (Entry Url))
      → Marks p e r
      → Distinct r.0 rest
      → Distinct p (rest.0, cons_kept r.1 rest.1)
  cons-Distinct p e (p', none) rest m d = rw m at d
  cons-Distinct p e (p', some e') rest (same, marked, new) d =
      let d' = rw marked at d in
      let apart =
        All-map {P = λ x. is_seen (e.hash ∷ p.seen) x ≡ false} (λ x. unsee p.seen e.hash x) rest.1
          d'.0 in
      rw same ((new, All-map (λ x q. q.0) rest.1 apart), (All-map (λ x q. q.1) rest.1 apart, d'.1))

  del_loop-Distinct :
      (now : ℕ) (s : Settings lib.Regexp) (p : Progress Url) (es : List (Entry Url))
      → s.mark_read ≡ false
      → OfSome (Distinct p) (del_loop lib now s p es)
  unfolding del_loop
  del_loop-Distinct now s p [] h = (tt, tt)
  del_loop-Distinct now s p (e ∷ es) h =
      and_then-OfSome (Marks p e) (Distinct p) (del lib now s p e) _ (del-Marks now s p e h) λ r m.
        and_then-OfSome (Distinct r.0) (Distinct p) (del_loop lib now s r.0 es) _
          (del_loop-Distinct now s r.0 es h) λ rest d. cons-Distinct p e r rest m d

  -- Where neither the configuration nor the feed marks blocked entries as read, no two entries that
  -- DeleteEntries keeps have one hash.
  pub delete_entries-HasOwnHashes :
      {Rate : Type 0} (now max_age : ℕ) (skip_age : Bool) (u : User Rate) (f : Feed Url)
      → f.extra.block_mark_read ≡ false
      → OfRun (λ f'. HasOwnHashes f'.entries) (delete_entries lib now max_age false skip_age u f)
  unfolding delete_entries settings_of
  delete_entries-HasOwnHashes now max_age skip_age u f unmarked =
      delete_found_of lib (λ f'. HasOwnHashes f'.entries) now max_age false skip_age f
        (block_rules lib u f) (keep_rules lib u f)
        λ b k.
          let s = settings_of lib max_age false skip_age f b k in
          let start = start_of s.authors f in
          OfSome-map (Distinct start) (λ r. HasOwnHashes r.1) (λ r d. d.1)
            (del_loop lib now s start f.entries) (del_loop-Distinct now s start f.entries unmarked)
