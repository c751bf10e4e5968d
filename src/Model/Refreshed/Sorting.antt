-- ===== src/Model/Refreshed/Sorting.antt =====
-- Why a refresh counts an entry as created or as updated.
use miniflux.Base.{
  ℕ, ◌<◌, String, ◌≡◌, refl, ◌∙◌, ◌≢◌, ◌⊎◌, inl, inr, Bool, true, not, ◌&&◌, ◌||◌, none, some, List,
  [], ◌∷◌, arith, ltb, ◌==◌, nat_eq, string_eq, Bool-cases, Option-cases, eq_of_beq, ne_of_beq, All,
  All-append, lookup,
}
use miniflux.Model.Entry.{Entry, keep_imported_status, status_read}
use miniflux.Model.Refreshed.{
  FeedRefreshed, map_stored_entries, append_entry, append_loop, append_stored, append,
}

module _ {Url : Type 0} where
  -- Why an entry counts as created: no stored entry has its hash, or another feed stored it, and
  -- then the entry is newer, the update is forced, or the entry has been marked read (imported
  -- entries keep their status).
  abbrev pub IsFresh : Bool → List (String × Entry Url) → Entry Url → Type 0
  IsFresh force stored_by e =
      (lookup e.hash stored_by ≡ none)
      ⊎ ((s : Entry Url) × (lookup e.hash stored_by ≡ some s)
          × (e.feed_id ≢ s.feed_id)
          × ((force ≡ true) ⊎ (s.date < e.date) ⊎ (e.imported ≡ true) ⊎ (e.status ≡ status_read)))

  -- Why an entry counts as updated: its feed stored it, and it is newer or the update is forced.
  abbrev pub IsNewer : Bool → List (String × Entry Url) → Entry Url → Type 0
  IsNewer force stored_by e =
      (s : Entry Url) × (lookup e.hash stored_by ≡ some s)
      × (e.feed_id ≡ s.feed_id)
      × ((force ≡ true) ⊎ (s.date < e.date))

  keep-hash : (v : String) (e : Entry Url) → (keep_imported_status v e).hash ≡ e.hash
  unfolding keep_imported_status
  keep-hash v e = ground arith

  keep-feed_id : (v : String) (e : Entry Url) → (keep_imported_status v e).feed_id ≡ e.feed_id
  unfolding keep_imported_status
  keep-feed_id v e = ground arith

  keep-status :
      (v : String) (e : Entry Url)
      → ((keep_imported_status v e).imported ≡ true) ⊎ ((keep_imported_status v e).status ≡ v)
  unfolding keep_imported_status
  keep-status v e = ground arith

  abbrev Sorts : List (String × Entry Url) → FeedRefreshed Url → Type 0
  Sorts stored_by r =
      All (IsFresh r.force_update stored_by) r.created
      × All (IsNewer r.force_update stored_by) r.updated

  pub append_entry-force :
      (m : List (String × Entry Url)) (r : FeedRefreshed Url) (e : Entry Url)
      → (append_entry m r e).0.force_update ≡ r.force_update
  unfolding append_entry
  append_entry-force m r e = ground arith

  IsFresh-read :
      (m : List (String × Entry Url)) (force : Bool) (e s : Entry Url)
      → lookup e.hash m ≡ some s
      → e.feed_id ≢ s.feed_id
      → IsFresh force m (keep_imported_status status_read e)
  IsFresh-read m force e s there ne = inr (
    s,
    rw (keep-hash status_read e) there,
    rw (keep-feed_id status_read e) ne,
    inr (inr (keep-status status_read e)),
  )

  append_entry-Sorts :
      (m : List (String × Entry Url)) (r : FeedRefreshed Url) (e : Entry Url)
      → Sorts m r
      → Sorts m (append_entry m r e).0
  unfolding append_entry
  append_entry-Sorts m r e (c, u) = elim (Option-cases (lookup e.hash m)) [
    | inl new ↦ rw (new, append_entry) (All-append _ r.created (e ∷ []) c (inl new, tt), u)
    | inr (s, there) ↦ elim (Bool-cases (e.feed_id == s.feed_id)) [
      | inl own ↦ elim (Bool-cases (r.force_update || ltb s.date e.date)) [
        | inl newer ↦
            let why : IsNewer r.force_update m e =
              (s, there, eq_of_beq e.feed_id s.feed_id own, ground arith) in
            rw (there, own, newer, append_entry) (c, All-append _ r.updated (e ∷ []) u (why, tt))
        | inr older ↦ rw (there, own, older, append_entry) (c, u)
      ]
      | inr other ↦
          let ne = ne_of_beq e.feed_id s.feed_id other in
          elim (Bool-cases (not r.force_update && not (ltb s.date e.date))) [
            | inl older ↦
                rw (there, other, older, append_entry)
                  (All-append _ r.created _ c (IsFresh-read m r.force_update e s there ne, tt), u)
            | inr newer ↦
                let why : IsFresh r.force_update m e = inr (s, there, ne, ground arith) in
                rw (there, other, newer, append_entry)
                  (All-append _ r.created (e ∷ []) c (why, tt), u)
          ]
    ]
  ]

  append_loop-Sorts :
      (m : List (String × Entry Url)) (r : FeedRefreshed Url) (es : List (Entry Url))
      → Sorts m r
      → Sorts m (append_loop m r es).0
  unfolding append_loop
  append_loop-Sorts m r [] h = h
  append_loop-Sorts m r (e ∷ es) h =
      append_loop-Sorts m (append_entry m r e).0 es (append_entry-Sorts m r e h)

  append_loop-force :
      (m : List (String × Entry Url)) (r : FeedRefreshed Url) (es : List (Entry Url))
      → (append_loop m r es).0.force_update ≡ r.force_update
  unfolding append_loop
  append_loop-force m r [] = refl
  append_loop-force m r (e ∷ es) =
      append_loop-force m (append_entry m r e).0 es ∙ append_entry-force m r e

  All-none : (force : Bool) (es : List (Entry Url)) → All (IsFresh force []) es
  unfolding lookup
  All-none force [] = tt
  All-none force (e ∷ es) = (inl refl, All-none force es)

  append_stored-Sorts :
      (m : List (String × Entry Url)) (r : FeedRefreshed Url) (es : List (Entry Url))
      → Sorts m r
      → Sorts m (append_stored m r es).0
  unfolding append_stored
  append_stored-Sorts [] r es h = (All-none r.force_update es, h.1)
  append_stored-Sorts (s ∷ ss) r es h = append_loop-Sorts (s ∷ ss) r es h

  -- Append sorts the entries of a feed: whatever it counts as created is not stored, or stored by
  -- another feed and newer, forced, imported or marked read; whatever it counts as updated is stored
  -- by the feed itself and newer or forced. The outcome passed in has been sorted likewise.
  pub append-Sorts :
      (feed_id : ℕ) (r : FeedRefreshed Url) (es stored : List (Entry Url))
      → All (IsFresh r.force_update (map_stored_entries feed_id stored)) r.created
      → All (IsNewer r.force_update (map_stored_entries feed_id stored)) r.updated
      → All
          (IsFresh (append feed_id r es stored).0.force_update (map_stored_entries feed_id stored))
          (append feed_id r es stored).0.created
        × All
            (IsNewer
              (append feed_id r es stored).0.force_update
              (map_stored_entries feed_id stored))
            (append feed_id r es stored).0.updated
  unfolding append
  append-Sorts feed_id r es stored c u =
      append_stored-Sorts (map_stored_entries feed_id stored) r es (c, u)
