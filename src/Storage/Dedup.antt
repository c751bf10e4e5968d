-- ===== src/Storage/Dedup.antt =====
-- internal/storage/dedup.go: within one batch of refreshed feeds an unread entry stays unread in the
-- first feed that brings it only. The mutexes make each Filter one step.
pub mod Ownership
pub mod Counting
mod Tests
use miniflux.Base.{
  ℕ, zero, suc, ◌+◌, ◌-◌, ◌*◌, ◌/◌, ◌%◌, ◌≤◌, ◌<◌, min, max, String, ◌≡◌, refl, sym, ap, ◌∙◌, ◌≢◌,
  ◌↔◌, ◌⊎◌, inl, inr, Bool, true, false, not, ◌&&◌, ◌||◌, Option, none, some, List, [], ◌∷◌, ◌++◌,
  map, reverse, arith, eq_iff, ltb, leb, nat_beq, if◌then◌else◌, ltb→lt, lt→ltb, leb→le,
  nat_beq_iff, tests, Eq, ◌==◌, nat_eq, string_eq, Bool-cases, Option-cases, beq_refl, eq_of_beq,
  ne_of_beq, beq_of_ne, length, get_elem?, length-append, any, keep, All, All-append, All-map,
  lookup, insert, lookup-insert, lookup-insert_self, length-insert_new,
}
use miniflux.Model.Entry.{Entry, is_unread, keep_imported_status, status_read}
use miniflux.Model.Refreshed.{FeedRefreshed}

-- A user's table: the feed that owns each hash (dedupUserEntries).
abbrev pub Hashes : Type 0
Hashes = List (String × ℕ)

pub record DedupEntries : Type 0 where
  pub hashes : List (ℕ × Hashes)
  pub created : ℕ

abbrev pub new_dedup_entries : DedupEntries
new_dedup_entries = record { hashes = []; created = 0 }

-- What the loop of dedupUserEntries.Filter carries: the table, r.Dedups and the local `created`.
pub record Round : Type 0 where
  pub table : Hashes
  pub dedups : ℕ
  pub created : ℕ

-- DedupEntries.userHashes
unfoldable pub user_hashes : ℕ → DedupEntries → Hashes
user_hashes user_id d = elim (lookup user_id d.hashes) [ none ↦ [] | some table ↦ table ]

module _ {Url : Type 0} where
  -- One entry of the loop.
  unfoldable pub dedup_entry : Round → Entry Url → Round × Entry Url
  dedup_entry s e =
      if is_unread e
      then elim (lookup e.hash s.table) [
        | some feed_id ↦
            if not (e.feed_id == feed_id)
            then (record s { dedups = s.dedups + 1 }, keep_imported_status status_read e)
            else (s, e)
        | none ↦ (record s { table = insert e.hash e.feed_id s.table; created = s.created + 1 }, e)
      ]
      else (s, e)

  unfoldable pub dedup_loop : Round → List (Entry Url) → Round × List (Entry Url)
  unfolding dedup_entry
  dedup_loop s [] = (s, [])
  dedup_loop s (e ∷ es) =
      let step = dedup_entry s e in let rest = dedup_loop step.0 es in (rest.0, step.1 ∷ rest.1)

  -- dedupUserEntries.Filter: the table, the outcome and the number of new hashes.
  unfoldable pub filter_user : Hashes → FeedRefreshed Url → Hashes × FeedRefreshed Url × ℕ
  unfolding dedup_loop
  filter_user table r =
      let done = dedup_loop (record { table = table; dedups = r.dedups; created = 0 }) r.created in
      (done.0.table, record r { created = done.1; dedups = done.0.dedups }, done.0.created)

  -- DedupEntries.Filter
  unfoldable pub filter : ℕ → DedupEntries → FeedRefreshed Url → DedupEntries × FeedRefreshed Url
  unfolding filter_user user_hashes
  filter user_id d r =
      if length r.created == 0
      then (d, r)
      else let done = filter_user (user_hashes user_id d) r in
        (record { hashes = insert user_id done.0 d.hashes; created = d.created + done.2 }, done.1)

  -- A history of calls: the outcomes of the refreshed feeds with their users, in order.
  unfoldable pub filter_all :
      DedupEntries → List (ℕ × FeedRefreshed Url) → DedupEntries × List (ℕ × FeedRefreshed Url)
  unfolding filter
  filter_all d [] = (d, [])
  filter_all d ((user_id, r) ∷ rs) =
      let first = filter user_id d r in
      let rest = filter_all first.0 rs in (rest.0, (user_id, first.1) ∷ rest.1)
