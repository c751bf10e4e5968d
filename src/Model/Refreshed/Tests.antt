-- ===== src/Model/Refreshed/Tests.antt =====
-- Runs of Append, and its theorems at inputs.
use miniflux.Base.{
  String, ◌≡◌, refl, false, List, [], ◌∷◌, nat_eq, string_eq, keep, All, lookup, insert,
}
use miniflux.Model.Entry.{hashes, Entry, keep_imported_status, status_read}
use miniflux.Model.Refreshed.{new_feed_refreshed, map_stored_entries, append_entry, append}
use miniflux.Model.Refreshed.Stored.{or_else, first_stored, last_own, lookup-map_stored_entries}
use miniflux.Model.Refreshed.Sorting.{IsFresh, IsNewer, append-Sorts}
use miniflux.Model.Refreshed.Counting.{is_new, is_newer, append-hashes}
use miniflux.Model.Samples.{entry_of}

-- Feed 1 has "a" from day 5, feed 2 has "b" from day 5.
abbrev stored : List (Entry String)
stored = entry_of 1 "a" 5 ∷ entry_of 2 "b" 5 ∷ []

abbrev fetched : List (Entry String)
fetched = entry_of 1 "a" 6 ∷ entry_of 1 "b" 5 ∷ entry_of 1 "c" 1 ∷ []

-- "a" is newer, "b" comes out read, "c" is new.
append_out : (append 1 (new_feed_refreshed false) fetched stored).0 ≡ (
    let r = new_feed_refreshed {Url = String} false in
    let b = entry_of 1 "b" 5 in
    record r {
      created = record b { status = status_read } ∷ entry_of 1 "c" 1 ∷ [];
      updated = entry_of 1 "a" 6 ∷ [];
      dedups = 1;
    })
unfolding append append_entry keep_imported_status lookup insert
append_out = refl

lookup-map_stored_entries_example :
    lookup "a" (map_stored_entries 1 stored)
    ≡ or_else (last_own 1 "a" stored) (first_stored "a" stored)
lookup-map_stored_entries_example = lookup-map_stored_entries 1 "a" stored

append-Sorts_example :
    All
      (IsFresh
        (append 1 (new_feed_refreshed false) fetched stored).0.force_update
        (map_stored_entries 1 stored))
      (append 1 (new_feed_refreshed false) fetched stored).0.created
    × All
        (IsNewer
          (append 1 (new_feed_refreshed false) fetched stored).0.force_update
          (map_stored_entries 1 stored))
        (append 1 (new_feed_refreshed false) fetched stored).0.updated
append-Sorts_example = append-Sorts 1 (new_feed_refreshed false) fetched stored tt tt

append-hashes_example :
    (let out = (append 1 (new_feed_refreshed false) fetched stored).0 in
      let m = map_stored_entries 1 stored in
      (hashes out.created ≡ hashes (keep (is_new m) fetched))
      × (out.updated ≡ keep (is_newer false m) fetched))
append-hashes_example = append-hashes 1 false fetched stored
