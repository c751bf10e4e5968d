-- ===== src/Model/Refreshed.antt =====
-- internal/model/feed.go, FeedRefreshed: which entries of a fetched feed are new, updated or kept.
-- The entries are shared by pointers between the feed and the outcome; the model returns the feed's
-- entries as they stand afterwards beside the outcome, which holds the same values.
pub mod Stored
pub mod Sorting
pub mod Counting
mod Tests
use miniflux.Base.{
  ℕ, zero, suc, ◌+◌, ◌-◌, ◌*◌, ◌/◌, ◌%◌, ◌≤◌, ◌<◌, min, max, String, ◌≡◌, refl, sym, ap, ◌∙◌, ◌≢◌,
  ◌↔◌, ◌⊎◌, inl, inr, Bool, true, false, not, ◌&&◌, ◌||◌, Option, none, some, List, [], ◌∷◌, ◌++◌,
  map, reverse, arith, eq_iff, ltb, leb, nat_beq, if◌then◌else◌, ltb→lt, lt→ltb, leb→le,
  nat_beq_iff, tests, Eq, ◌==◌, nat_eq, string_eq, Bool-cases, Option-cases, beq_refl, eq_of_beq,
  ne_of_beq, beq_of_ne, length, get_elem?, length-append, any, keep, All, All-append, All-map,
  lookup, insert, lookup-insert, lookup-insert_self, length-insert_new,
}
use miniflux.Model.Entry.{Entry, keep_imported_status, status_read}

pub record FeedRefreshed (Url : Type 0) : Type 0 where
  pub created : List (Entry Url)
  pub updated : List (Entry Url)
  pub dedups : ℕ
  pub deleted : ℕ
  pub not_modified : ℕ
  pub remote_entries : ℕ
  pub refreshed : Bool
  pub force_update : Bool

module _ {Url : Type 0} where
  -- NewFeedRefreshed().WithForceUpdate(value)
  abbrev pub new_feed_refreshed : Bool → FeedRefreshed Url
  new_feed_refreshed value = record {
    created = [];
    updated = [];
    dedups = 0;
    deleted = 0;
    not_modified = 0;
    remote_entries = 0;
    refreshed = false;
    force_update = value;
  }

  -- FeedRefreshed.WithRefreshed
  unfoldable pub with_refreshed : ℕ → FeedRefreshed Url → FeedRefreshed Url
  with_refreshed n r = record r { remote_entries = n; refreshed = true }

  -- One round of the loop of mapStoredEntries.
  unfoldable pub store_entry : ℕ → List (String × Entry Url) → Entry Url → List (String × Entry Url)
  store_entry feed_id by_hash e = elim (lookup e.hash by_hash) [
    | none ↦ insert e.hash e by_hash
    | some old ↦ if e.feed_id == feed_id then insert e.hash e by_hash else by_hash
  ]

  unfoldable pub map_stored_from :
      ℕ → List (String × Entry Url) → List (Entry Url) → List (String × Entry Url)
  unfolding store_entry
  map_stored_from feed_id by_hash [] = by_hash
  map_stored_from feed_id by_hash (e ∷ es) =
      map_stored_from feed_id (store_entry feed_id by_hash e) es

  -- mapStoredEntries
  unfoldable pub map_stored_entries : ℕ → List (Entry Url) → List (String × Entry Url)
  unfolding map_stored_from
  map_stored_entries feed_id es = map_stored_from feed_id [] es

  -- The body of the loop of Append: the outcome and the entry as it stands afterwards.
  unfoldable pub append_entry :
      List (String × Entry Url) → FeedRefreshed Url → Entry Url → FeedRefreshed Url × Entry Url
  unfolding keep_imported_status
  append_entry stored_by r e = elim (lookup e.hash stored_by) [
    | none ↦ (record r { created = r.created ++ e ∷ [] }, e)
    | some stored ↦
        if not (e.feed_id == stored.feed_id)
        then (if not r.force_update && not (ltb stored.date e.date)
            then (
              record r {
                created = r.created ++ keep_imported_status status_read e ∷ [];
                dedups = r.dedups + 1;
              },
              keep_imported_status status_read e,
            )
            else (record r { created = r.created ++ e ∷ [] }, e))
        else if r.force_update || ltb stored.date e.date
        then (record r { updated = r.updated ++ e ∷ [] }, e)
        else (r, keep_imported_status stored.status e)
  ]

  unfoldable pub append_loop :
      List (String × Entry Url)
      → FeedRefreshed Url
      → List (Entry Url)
      → FeedRefreshed Url × List (Entry Url)
  append_loop stored_by r [] = (r, [])
  append_loop stored_by r (e ∷ es) =
      let step = append_entry stored_by r e in
      let rest = append_loop stored_by step.0 es in (rest.0, step.1 ∷ rest.1)

  -- FeedRefreshed.Append; an empty map leaves every entry to `created`.
  unfoldable pub append_stored :
      List (String × Entry Url)
      → FeedRefreshed Url
      → List (Entry Url)
      → FeedRefreshed Url × List (Entry Url)
  unfolding append_loop
  append_stored [] r es = (record r { created = es }, es)
  append_stored (s ∷ ss) r es = append_loop (s ∷ ss) r es

  unfoldable pub append :
      ℕ
      → FeedRefreshed Url
      → List (Entry Url)
      → List (Entry Url)
      → FeedRefreshed Url × List (Entry Url)
  unfolding append_stored map_stored_entries
  append feed_id r es stored = append_stored (map_stored_entries feed_id stored) r es
