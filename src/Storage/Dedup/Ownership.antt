-- ===== src/Storage/Dedup/Ownership.antt =====
-- Within a batch every hash has one owner: an unread entry survives in one feed only.
use miniflux.Base.{
  ℕ, ◌+◌, String, ◌≡◌, sym, ◌∙◌, inl, inr, true, false, some, List, [], ◌∷◌, arith, eq_iff,
  if◌then◌else◌, nat_beq_iff, ◌==◌, nat_eq, string_eq, Bool-cases, Option-cases, beq_refl,
  eq_of_beq, length, All-mem, Memᴰ, All, All-map, lookup, insert, lookup-insert, lookup-insert_self,
}
use miniflux.Model.Entry.{Entry, is_unread, keep_imported_status, status_read}
use miniflux.Model.Refreshed.{FeedRefreshed}
use miniflux.Storage.Dedup.{
  Hashes, DedupEntries, Round, dedup_entry, dedup_loop, filter_user, user_hashes, filter,
  filter_all,
}

-- Ownership is never taken away.
abbrev pub Extends : Hashes → Hashes → Type 0
Extends old new = (h : String) (f : ℕ) → lookup h old ≡ some f → lookup h new ≡ some f

user_hashes-insert :
    (v user_id : ℕ) (table : Hashes) (n : ℕ) (d : DedupEntries)
    → user_hashes v (record { hashes = insert user_id table d.hashes; created = n })
      ≡ (if user_id == v then table else user_hashes v d)
unfolding user_hashes
user_hashes-insert v user_id table n d =
    ground (arith, lookup-insert user_id v table d.hashes, nat_beq_iff user_id v)

module _ {Url : Type 0} where
  -- An unread entry that was not imported belongs to the feed that owns its hash.
  abbrev pub IsOwned : Hashes → Entry Url → Type 0
  IsOwned table e = is_unread e ≡ true → e.imported ≡ false → lookup e.hash table ≡ some e.feed_id

  dedup_entry-Extends : (s : Round) (e : Entry Url) → Extends s.table (dedup_entry s e).0.table
  unfolding dedup_entry
  dedup_entry-Extends s e h f p =
      ground (arith, lookup-insert e.hash h e.feed_id s.table, eq_iff e.hash h)

  keep_read-not-unread :
      (e : Entry Url) → e.imported ≡ false → is_unread (keep_imported_status status_read e) ≡ false
  unfolding is_unread keep_imported_status
  keep_read-not-unread e h = rw h

  keep_read-imported : (e : Entry Url) → (keep_imported_status status_read e).imported ≡ e.imported
  unfolding keep_imported_status
  keep_read-imported e = ground arith

  dedup_entry-IsOwned :
      (s : Round) (e : Entry Url) → IsOwned (dedup_entry s e).0.table (dedup_entry s e).1
  unfolding dedup_entry
  dedup_entry-IsOwned s e = elim (Bool-cases (is_unread e)) [
    | inr read ↦ rw read (λ u _. cc)
    | inl unread ↦ elim (Option-cases (lookup e.hash s.table)) [
      | inl new ↦ rw (unread, new) (λ _ _. lookup-insert_self e.hash e.feed_id s.table)
      | inr (f, old) ↦ elim (Bool-cases (e.feed_id == f)) [
        | inl same ↦ rw (unread, old, same) (λ _ _. rw (eq_of_beq e.feed_id f same) old)
        | inr other ↦
            rw (unread, old, other)
              λ u i. let t = keep_read-not-unread e (sym (keep_read-imported e) ∙ i) in cc
      ]
    ]
  ]

  dedup_loop-Extends :
      (s : Round) (es : List (Entry Url)) → Extends s.table (dedup_loop s es).0.table
  unfolding dedup_loop
  dedup_loop-Extends s [] h f p = p
  dedup_loop-Extends s (e ∷ es) h f p =
      dedup_loop-Extends (dedup_entry s e).0 es h f (dedup_entry-Extends s e h f p)

  dedup_loop-IsOwned :
      (s : Round) (es : List (Entry Url))
      → All (IsOwned (dedup_loop s es).0.table) (dedup_loop s es).1
  unfolding dedup_loop
  dedup_loop-IsOwned s [] = tt
  dedup_loop-IsOwned s (e ∷ es) = (
    λ u i. dedup_loop-Extends (dedup_entry s e).0 es _ _ (dedup_entry-IsOwned s e u i),
    dedup_loop-IsOwned (dedup_entry s e).0 es,
  )

  All-of_empty :
      (P : Entry Url → Type 0) (es : List (Entry Url)) → (length es == 0) ≡ true → All P es
  All-of_empty P [] h = tt
  All-of_empty P (e ∷ es) h = absurd (ground arith)

  -- The table of a user after a Filter for any user.
  user_hashes-filter :
      (v user_id : ℕ) (d : DedupEntries) (r : FeedRefreshed Url)
      → user_hashes v (filter user_id d r).0 ≡ (
          if length r.created == 0
          then user_hashes v d
          else if user_id == v
          then (filter_user (user_hashes user_id d) r).0
          else user_hashes v d)
  unfolding filter
  user_hashes-filter v user_id d r = elim (Bool-cases (length r.created == 0)) [
    | inl empty ↦ rw empty
    | inr filled ↦
        let done = filter_user (user_hashes user_id d) r in
        rw filled (user_hashes-insert v user_id done.0 (d.created + done.2) d)
  ]

  user_hashes-filter_self :
      (user_id : ℕ) (d : DedupEntries) (r : FeedRefreshed Url)
      → (length r.created == 0) ≡ false
      → user_hashes user_id (filter user_id d r).0 ≡ (filter_user (user_hashes user_id d) r).0
  user_hashes-filter_self user_id d r filled =
      user_hashes-filter user_id user_id d r ∙ rw (filled, beq_refl user_id)

  filter_user-Extends :
      (table : Hashes) (r : FeedRefreshed Url) → Extends table (filter_user table r).0
  unfolding filter_user
  filter_user-Extends table r h f p = dedup_loop-Extends _ r.created h f p

  filter_user-IsOwned :
      (table : Hashes) (r : FeedRefreshed Url)
      → All (IsOwned (filter_user table r).0) (filter_user table r).1.created
  unfolding filter_user
  filter_user-IsOwned table r = dedup_loop-IsOwned _ r.created

  filter-Extends :
      (v user_id : ℕ) (d : DedupEntries) (r : FeedRefreshed Url)
      → Extends (user_hashes v d) (user_hashes v (filter user_id d r).0)
  filter-Extends v user_id d r h f p =
      rw (user_hashes-filter v user_id d r)
        (ground (arith, nat_beq_iff user_id v, filter_user-Extends (user_hashes user_id d) r h f))

  filter-IsOwned :
      (user_id : ℕ) (d : DedupEntries) (r : FeedRefreshed Url)
      → All (IsOwned (user_hashes user_id (filter user_id d r).0)) (filter user_id d r).1.created
  filter-IsOwned user_id d r = elim (Bool-cases (length r.created == 0)) [
    | inl empty ↦ unfold filter in rw empty (All-of_empty _ r.created empty)
    | inr filled ↦
        rw (user_hashes-filter_self user_id d r filled)
          (unfold filter in rw filled (filter_user-IsOwned (user_hashes user_id d) r))
  ]

  filter_all-Extends :
      (v : ℕ) (d : DedupEntries) (rs : List (ℕ × FeedRefreshed Url))
      → Extends (user_hashes v d) (user_hashes v (filter_all d rs).0)
  unfolding filter_all
  filter_all-Extends v d [] h f p = p
  filter_all-Extends v d ((user_id, r) ∷ rs) h f p =
      filter_all-Extends v (filter user_id d r).0 rs h f (filter-Extends v user_id d r h f p)

  IsOwned-Extends :
      (old new : Hashes) (es : List (Entry Url))
      → Extends old new
      → All (IsOwned old) es
      → All (IsOwned new) es
  IsOwned-Extends old new es x h = All-map (λ e o u i. x e.hash e.feed_id (o u i)) es h

  -- Every unread entry of a history is owned in the table that the history leaves.
  filter_all-IsOwned :
      (d : DedupEntries) (rs : List (ℕ × FeedRefreshed Url))
      → All
          (λ out. All (IsOwned (user_hashes out.0 (filter_all d rs).0)) out.1.created)
          (filter_all d rs).1
  unfolding filter_all
  filter_all-IsOwned d [] = tt
  filter_all-IsOwned d ((user_id, r) ∷ rs) = (
    IsOwned-Extends _ _ _ (filter_all-Extends user_id (filter user_id d r).0 rs)
        (filter-IsOwned user_id d r),
    filter_all-IsOwned (filter user_id d r).0 rs,
  )

module _ {Url : Type 0} where
  -- A history of Filters in one batch: two unread entries of one user with the same hash that come
  -- out of it, neither imported, belong to the same feed.
  pub filter_all_unique :
      (d : DedupEntries) (rs : List (ℕ × FeedRefreshed Url)) (user_id : ℕ) (r s : FeedRefreshed Url)
      (a b : Entry Url)
      → Memᴰ (user_id, r) (filter_all d rs).1
      → Memᴰ (user_id, s) (filter_all d rs).1
      → Memᴰ a r.created
      → Memᴰ b s.created
      → is_unread a ≡ true
      → is_unread b ≡ true
      → a.imported ≡ false
      → b.imported ≡ false
      → a.hash ≡ b.hash
      → a.feed_id ≡ b.feed_id
  filter_all_unique d rs user_id r s a b mr ms ma mb ua ub ia ib same =
      let final = (filter_all d rs).0 in
      let owned = filter_all-IsOwned d rs in
      let oa = All-mem _ (All-mem _ owned mr) ma ua ia in
      let ob = All-mem _ (All-mem _ owned ms) mb ub ib in cc
