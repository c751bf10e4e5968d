-- ===== src/Storage/Dedup/Counting.antt =====
-- The counter of new hashes, and what a Filter leaves as it was.
use miniflux.Base.{
  ℕ, ◌+◌, ◌≡◌, refl, Option, none, some, List, [], ◌∷◌, arith, nat_eq, string_eq, length, lookup,
  insert, length-insert_new,
}
use miniflux.Model.Entry.{Entry}
use miniflux.Model.Refreshed.{FeedRefreshed}
use miniflux.Storage.Dedup.{
  Hashes, DedupEntries, Round, dedup_entry, dedup_loop, filter_user, user_hashes, filter,
  filter_all,
}

-- Total of the sizes of the tables.
abbrev pub total : List (ℕ × Hashes) → ℕ
total [] = 0
total ((user_id, table) ∷ m) = length table + total m

abbrev size_of : Option Hashes → ℕ
size_of none = 0
size_of (some table) = length table

total-insert :
    (user_id : ℕ) (table : Hashes) (m : List (ℕ × Hashes))
    → total (insert user_id table m) + size_of (lookup user_id m) ≡ total m + length table
unfolding lookup insert
total-insert user_id table [] = omega arith
total-insert user_id table ((v, t) ∷ m) = ground (arith, total-insert user_id table m)

size-user_hashes :
    (user_id : ℕ) (d : DedupEntries)
    → length (user_hashes user_id d) ≡ size_of (lookup user_id d.hashes)
unfolding user_hashes
size-user_hashes user_id d = ground arith

-- The counter is the number of hashes in all tables.
abbrev pub IsCounted : DedupEntries → Type 0
IsCounted d = d.created ≡ total d.hashes

module _ {Url : Type 0} where
  dedup_entry-length :
      (s : Round) (e : Entry Url)
      → length (dedup_entry s e).0.table + s.created ≡ length s.table + (dedup_entry s e).0.created
  unfolding dedup_entry
  dedup_entry-length s e = ground (arith, length-insert_new e.hash e.feed_id s.table)

  dedup_loop-length :
      (s : Round) (es : List (Entry Url))
      → length (dedup_loop s es).0.table + s.created ≡ length s.table + (dedup_loop s es).0.created
  unfolding dedup_loop
  dedup_loop-length s [] = refl
  dedup_loop-length s (e ∷ es) =
      omega (arith, dedup_entry-length s e, dedup_loop-length (dedup_entry s e).0 es)

  filter_user-length :
      (table : Hashes) (r : FeedRefreshed Url)
      → length (filter_user table r).0 ≡ length table + (filter_user table r).2
  unfolding filter_user
  filter_user-length table r = omega (
    arith,
    dedup_loop-length (record { table = table; dedups = r.dedups; created = 0 }) r.created,
  )

  filter-IsCounted :
      (user_id : ℕ) (d : DedupEntries) (r : FeedRefreshed Url)
      → IsCounted d
      → IsCounted (filter user_id d r).0
  unfolding filter
  filter-IsCounted user_id d r h =
      let done = filter_user (user_hashes user_id d) r in
      ground (
        arith,
        filter_user-length (user_hashes user_id d) r,
        total-insert user_id done.0 d.hashes,
        size-user_hashes user_id d,
      )

  -- From a fresh DedupEntries, Created() is at every point of a history the number of hashes that
  -- the tables of all users hold.
  pub filter_all-IsCounted :
      (d : DedupEntries) (rs : List (ℕ × FeedRefreshed Url))
      → IsCounted d
      → IsCounted (filter_all d rs).0
  unfolding filter_all
  filter_all-IsCounted d [] h = h
  filter_all-IsCounted d ((user_id, r) ∷ rs) h =
      filter_all-IsCounted (filter user_id d r).0 rs (filter-IsCounted user_id d r h)
