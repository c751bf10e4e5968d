-- ===== src/Storage/Dedup/Tests.antt =====
-- Runs of the deduplication, and its theorems at inputs.
use miniflux.Base.{
  ℕ, String, ◌≡◌, refl, false, List, [], ◌∷◌, nat_eq, string_eq, Memᴰ, lookup, insert,
}
use mathlib.Core.List.{Memᴰ}
use miniflux.Model.Entry.{Entry, is_unread, keep_imported_status, status_read}
use miniflux.Model.Refreshed.{FeedRefreshed, new_feed_refreshed}
use miniflux.Model.Samples.{entry_of}
use miniflux.Storage.Dedup.{new_dedup_entries, dedup_entry, filter, filter_all}
use miniflux.Storage.Dedup.Ownership.{filter_all_unique}
use miniflux.Storage.Dedup.Counting.{IsCounted, filter_all-IsCounted}

abbrev fresh : List (Entry String) → FeedRefreshed String
fresh es = let r = new_feed_refreshed {Url = String} false in record r { created = es }

abbrev first : FeedRefreshed String
first = fresh (entry_of 1 "x" 0 ∷ [])

abbrev second : FeedRefreshed String
second = fresh (entry_of 2 "x" 0 ∷ entry_of 2 "y" 0 ∷ [])

abbrev third : FeedRefreshed String
third = fresh (entry_of 1 "x" 5 ∷ [])

abbrev history : List (ℕ × FeedRefreshed String)
history = (7, first) ∷ (7, second) ∷ (7, third) ∷ []

-- The second feed's copy of "x" comes out read.
second_out : filter 7 (filter 7 new_dedup_entries first).0 second ≡ (
  record { hashes = (7, ("x", 1) ∷ ("y", 2) ∷ []) ∷ []; created = 2 },
  record second {
    created =
        (let e = entry_of 2 "x" 0 in record e { status = status_read }) ∷ entry_of 2 "y" 0 ∷ [];
    dedups = 1;
  },
)
unfolding filter dedup_entry is_unread keep_imported_status lookup insert
second_out = refl

filter_all-IsCounted_example : IsCounted (filter_all new_dedup_entries history).0
filter_all-IsCounted_example = filter_all-IsCounted new_dedup_entries history refl

-- The feed that owns "x" may bring it again.
filter_all_unique_example : (entry_of 1 "x" 0).feed_id ≡ (entry_of 1 "x" 5).feed_id
unfolding filter_all dedup_entry is_unread keep_imported_status lookup insert
filter_all_unique_example =
    filter_all_unique new_dedup_entries history 7 first third (entry_of 1 "x" 0) (entry_of 1 "x" 5)
      (Memᴰ.head refl) (Memᴰ.tail (Memᴰ.tail (Memᴰ.head refl))) (Memᴰ.head refl) (Memᴰ.head refl)
      refl refl refl refl refl
