-- ===== src/Model/Refreshed/Counting.antt =====
-- Which entries a refresh creates and updates.
use miniflux.Base.{
  ℕ, String, ◌≡◌, refl, sym, ap, ◌∙◌, inl, inr, Bool, true, false, not, ◌&&◌, ◌||◌, none, some,
  List, [], ◌∷◌, ◌++◌, ltb, if◌then◌else◌, ◌==◌, nat_eq, string_eq, Bool-cases, Option-cases, keep,
  lookup,
}
use miniflux.Model.Entry.{Entry, keep_imported_status, status_read, hashes}
use miniflux.Model.Refreshed.{
  FeedRefreshed, map_stored_entries, append_entry, append_loop, append_stored, append,
  new_feed_refreshed,
}
use miniflux.Model.Refreshed.Sorting.{append_entry-force}

append_assoc :
    {A : Type 0} (xs : List A) (y : A) (ys : List A) → (xs ++ y ∷ []) ++ ys ≡ xs ++ y ∷ ys
append_assoc [] y ys = refl
append_assoc (x ∷ xs) y ys = cc (append_assoc xs y ys)

append_nil : {A : Type 0} (xs : List A) → xs ++ [] ≡ xs
append_nil [] = refl
append_nil (x ∷ xs) = cc (append_nil xs)

module _ {Url : Type 0} where
  -- An entry that is not stored, or is stored by another feed.
  unfoldable pub is_new : List (String × Entry Url) → Entry Url → Bool
  is_new m e = elim (lookup e.hash m) [ none ↦ true | some s ↦ not (e.feed_id == s.feed_id) ]

  -- An entry that its own feed has stored, and that is newer or forced.
  unfoldable pub is_newer : Bool → List (String × Entry Url) → Entry Url → Bool
  is_newer force m e = elim (lookup e.hash m) [
    | none ↦ false
    | some s ↦ (e.feed_id == s.feed_id) && (force || ltb s.date e.date)
  ]

  hashes-append : (xs ys : List (Entry Url)) → hashes (xs ++ ys) ≡ hashes xs ++ hashes ys
  unfolding hashes
  hashes-append [] ys = refl
  hashes-append (x ∷ xs) ys = cc (hashes-append xs ys)

  one_hash :
      (xs : List (Entry Url)) (e : Entry Url) (hs : List String)
      → hashes (xs ++ e ∷ []) ++ hs ≡ hashes xs ++ e.hash ∷ hs
  unfolding hashes
  one_hash [] e hs = refl
  one_hash (x ∷ xs) e hs = cc (one_hash xs e hs)

  marked_hash : (status : String) (e : Entry Url) → (keep_imported_status status e).hash ≡ e.hash
  unfolding keep_imported_status
  marked_hash status e = elim (Bool-cases e.imported) [
    | inl is_so ↦ rw is_so refl
    | inr not_so ↦ rw not_so refl
  ]

  kept_cons :
      (p : Entry Url → Bool) (e : Entry Url) (es : List (Entry Url))
      → (if p e then e ∷ keep p es else keep p es) ≡ keep p (e ∷ es)
  kept_cons p e es = refl

  kept_hashes :
      (p : Entry Url → Bool) (e : Entry Url) (es : List (Entry Url))
      → (if p e then e.hash ∷ hashes (keep p es) else hashes (keep p es)) ≡ hashes (keep p (e ∷ es))
  unfolding hashes
  kept_hashes p e es = elim (Bool-cases (p e)) [
    | inl is_so ↦ rw is_so refl
    | inr not_so ↦ rw not_so refl
  ]

  -- What an entry adds to the entries created and updated.
  abbrev Adds :
      Bool → List (String × Entry Url) → FeedRefreshed Url → Entry Url → FeedRefreshed Url → Type 0
  Adds force m r e r' =
      ((hs : List String)
        → hashes r'.created ++ hs ≡ hashes r.created ++ (if is_new m e then e.hash ∷ hs else hs))
      × ((es : List (Entry Url))
          → r'.updated ++ es ≡ r.updated ++ (if is_newer force m e then e ∷ es else es))

  added :
      (force : Bool) (m : List (String × Entry Url)) (r : FeedRefreshed Url) (e : Entry Url)
      → r.force_update ≡ force
      → Adds force m r e (append_entry m r e).0
  unfolding append_entry is_new is_newer
  added force m r e h = elim (Option-cases (lookup e.hash m)) [
    | inl new ↦
        rw (new, append_entry, is_new, is_newer) ((λ hs. one_hash r.created e hs), (λ es. refl))
    | inr (s, old) ↦
        rw (old, append_entry, is_new, is_newer, h)
          (elim (Bool-cases (e.feed_id == s.feed_id)) [
            | inl own ↦ elim (Bool-cases (force || ltb s.date e.date)) [
              | inl newer ↦ rw (own, newer) ((λ hs. refl), (λ es. append_assoc r.updated e es))
              | inr older ↦ rw (own, older) ((λ hs. refl), (λ es. refl))
            ]
            | inr other ↦ elim (Bool-cases (not force && not (ltb s.date e.date))) [
              | inl known ↦
                  rw (other, known)
                    (
                      (λ hs.
                          one_hash r.created (keep_imported_status status_read e) hs
                          ∙ ap (λ name. hashes r.created ++ name ∷ hs) (marked_hash status_read e)),
                      (λ es. refl),
                    )
              | inr unknown ↦ rw (other, unknown) ((λ hs. one_hash r.created e hs), (λ es. refl))
            ]
          ])
  ]

  append_loop_added :
      (force : Bool) (m : List (String × Entry Url)) (r : FeedRefreshed Url) (es : List (Entry Url))
      → r.force_update ≡ force
      → (hashes (append_loop m r es).0.created ≡ hashes r.created ++ hashes (keep (is_new m) es))
        × ((append_loop m r es).0.updated ≡ r.updated ++ keep (is_newer force m) es)
  unfolding append_loop hashes
  append_loop_added force m r [] h =
      (sym (append_nil (hashes r.created)), sym (append_nil r.updated))
  append_loop_added force m r (e ∷ es) h =
      let (created, updated) =
        append_loop_added force m (append_entry m r e).0 es (append_entry-force m r e ∙ h) in
      let (one, other) = added force m r e h in
      (
        created
            ∙ one (hashes (keep (is_new m) es))
            ∙ ap (λ hs. hashes r.created ++ hs) (kept_hashes (is_new m) e es),
        updated
            ∙ other (keep (is_newer force m) es)
            ∙ ap (λ xs. r.updated ++ xs) (kept_cons (is_newer force m) e es),
      )

  all_new : (es : List (Entry Url)) → keep (is_new []) es ≡ es
  unfolding is_new lookup
  all_new [] = refl
  all_new (e ∷ es) = cc (all_new es)

  none_newer : (force : Bool) (es : List (Entry Url)) → keep (is_newer force []) es ≡ []
  unfolding is_newer lookup
  none_newer force [] = refl
  none_newer force (e ∷ es) = none_newer force es

  append_stored_added :
      (force : Bool) (m : List (String × Entry Url)) (es : List (Entry Url))
      → (let out = (append_stored m (new_feed_refreshed force) es).0 in
          (hashes out.created ≡ hashes (keep (is_new m) es))
          × (out.updated ≡ keep (is_newer force m) es))
  unfolding append_stored hashes
  append_stored_added force [] es = (ap hashes (sym (all_new es)), sym (none_newer force es))
  append_stored_added force (s ∷ ss) es =
      append_loop_added force (s ∷ ss) (new_feed_refreshed force) es refl

  -- From a new outcome, the entries that Append counts as created are, by their hashes and in order,
  -- those of the fetched feed that are not stored or stored by another feed, and those that it counts
  -- as updated are, in order, the ones that the feed itself has stored and that are newer or forced.
  -- None is lost or doubled, and no other entry is among them.
  pub append-hashes :
      (feed_id : ℕ) (force : Bool) (es stored : List (Entry Url))
      → (let out = (append feed_id (new_feed_refreshed force) es stored).0 in
          let m = map_stored_entries feed_id stored in
          (hashes out.created ≡ hashes (keep (is_new m) es))
          × (out.updated ≡ keep (is_newer force m) es))
  unfolding append
  append-hashes feed_id force es stored =
      append_stored_added force (map_stored_entries feed_id stored) es
