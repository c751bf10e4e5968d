-- ===== src/Storage/Entries.antt =====
-- internal/storage/entry.go: the updates of the table of entries, as what their SQL says of the rows.
-- The updates of other tables, the transactions and the failures of the database are left out.
-- `now` is an instant in nanoseconds, and the date of an entry is its published_at.
pub mod Laws
use miniflux.Base.{
  ℕ, zero, suc, ◌+◌, ◌-◌, ◌*◌, ◌/◌, ◌%◌, ◌^◌, ◌≤◌, ◌<◌, min, max, String, ◌≡◌, refl, sym, ap, ◌∙◌,
  ◌≢◌, ◌↔◌, ◌⊎◌, inl, inr, Bool, true, false, not, ◌&&◌, ◌||◌, Option, none, some, List, [], ◌∷◌,
  ◌++◌, map, reverse, arith, eq_iff, ltb, leb, nat_beq, if◌then◌else◌, ltb→lt, lt→ltb, leb→le,
  nat_beq_iff, tests, Eq, ◌==◌, nat_eq, string_eq, Bool-cases, Option-cases, beq_refl, eq_of_beq,
  ne_of_beq, beq_of_ne, length, get_elem?, length-append, All-mem, Memᴰ, any, keep, All, All-append,
  All-map, lookup, insert, lookup-insert, lookup-insert_self, length-insert_new,
}
use miniflux.Base.Int.{
  ℤ, pos, negsuc, pos_part, neg_part, sub_ℕ, ◌+ℤ◌, ◌-ℤ◌, quot, rem, ◌≤ℤ◌, ◌<ℤ◌, ltb_ℤ, leb_ℤ, eqb_ℤ,
  +ℤ_parts, -ℤ_parts, eq_of_parts, int_laws,
}
use miniflux.Model.Entry.{Entry, status_unread, status_read, status_removed}

module _ {Url : Type 0} where
  -- UPDATE: the rows that `where_` chooses are set.
  abbrev pub update :
      (Entry Url → Bool) → (Entry Url → Entry Url) → List (Entry Url) → List (Entry Url)
  update chosen set [] = []
  update chosen set (e ∷ rows) = (if chosen e then set e else e) ∷ update chosen set rows

  -- RowsAffected() != 0
  abbrev pub affects : (Entry Url → Bool) → List (Entry Url) → Bool
  affects chosen rows = any chosen rows

  abbrev pub set_status : ℕ → String → Entry Url → Entry Url
  set_status now status e = record e { status = status; changed_at = now }

  abbrev pub set_starred : ℕ → Bool → Entry Url → Entry Url
  set_starred now starred e = record e { starred = starred; changed_at = now }

  -- id = ANY(ids)
  abbrev pub has_id : List ℕ → Entry Url → Bool
  has_id ids e = any (λ id. id == e.id) ids

  -- The user's rows of these ids.
  abbrev pub the_rows : ℕ → List ℕ → Entry Url → Bool
  the_rows user_id ids e = e.user_id == user_id && has_id ids e

  abbrev pub unread_of : ℕ → Entry Url → Bool
  unread_of user_id e = e.user_id == user_id && e.status == status_unread

  abbrev pub unread_in_feed : ℕ → ℤ → ℕ → Entry Url → Bool
  unread_in_feed user_id feed_id before e =
      unread_of user_id e && eqb_ℤ (pos e.feed_id) feed_id && ltb e.date before

  -- `feed_user` and `feed_category` give the user and the category of a feed.
  abbrev pub unread_in_category : (ℕ → ℕ) → (ℕ → ℕ) → ℕ → ℕ → ℕ → Entry Url → Bool
  unread_in_category feed_user feed_category user_id category_id before e =
      feed_user e.feed_id == user_id
      && e.status == status_unread
      && ltb e.date before
      && feed_category e.feed_id == category_id

  -- SetEntriesStatus
  unfoldable pub set_entries_status : ℕ → ℕ → List ℕ → String → List (Entry Url) → List (Entry Url)
  set_entries_status now user_id ids status =
      update (λ e. e.user_id == user_id && has_id ids e && not (e.status == status_removed))
        (set_status now status)

  -- SetEntriesBookmarkedState; `none` where nothing was updated.
  unfoldable pub set_entries_bookmarked_state :
      ℕ → ℕ → List ℕ → Bool → List (Entry Url) → Option (List (Entry Url))
  set_entries_bookmarked_state now user_id ids starred rows =
      let chosen = the_rows user_id ids in
      if affects chosen rows then some (update chosen (set_starred now starred) rows) else none

  -- ToggleBookmark; `none` where nothing was updated.
  unfoldable pub toggle_bookmark : ℕ → ℕ → ℕ → List (Entry Url) → Option (List (Entry Url))
  toggle_bookmark now user_id entry_id rows =
      let chosen = the_rows user_id (entry_id ∷ []) in
      if affects chosen rows
      then some (update chosen (λ e. set_starred now (not e.starred) e) rows)
      else none

  -- MarkAllAsRead
  unfoldable pub mark_all_as_read : ℕ → ℕ → List (Entry Url) → List (Entry Url)
  mark_all_as_read now user_id = update (unread_of user_id) (set_status now status_read)

  -- MarkAllAsReadBeforeDate
  unfoldable pub mark_all_as_read_before_date : ℕ → ℕ → ℕ → List (Entry Url) → List (Entry Url)
  mark_all_as_read_before_date now user_id before =
      update (λ e. unread_of user_id e && ltb e.date before) (set_status now status_read)

  -- MarkFeedAsRead: the rows, and whether any was affected.
  unfoldable pub mark_feed_as_read : ℕ → ℕ → ℤ → ℕ → List (Entry Url) → List (Entry Url) × Bool
  mark_feed_as_read now user_id feed_id before rows =
      let chosen = unread_in_feed user_id feed_id before in
      (update chosen (set_status now status_read) rows, affects chosen rows)

  -- FlushHistory
  unfoldable pub flush_history : ℕ → ℕ → List (Entry Url) → List (Entry Url)
  flush_history now user_id =
      update (λ e. e.user_id == user_id && e.status == status_read && not e.starred)
        (set_status now status_removed)

  -- MarkCategoryAsRead
  unfoldable pub mark_category_as_read :
      (ℕ → ℕ) → (ℕ → ℕ) → ℕ → ℕ → ℕ → ℕ → List (Entry Url) → List (Entry Url) × Bool
  mark_category_as_read feed_user feed_category now user_id category_id before rows =
      let chosen = unread_in_category feed_user feed_category user_id category_id before in
      (update chosen (set_status now status_read) rows, affects chosen rows)
