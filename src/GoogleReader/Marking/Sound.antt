-- ===== src/GoogleReader/Marking/Sound.antt =====
-- What a request to mark entries as read can change.
use miniflux.Base.{
  ℕ, String, ◌≡◌, refl, ◌⊎◌, inl, inr, Bool, true, ◌&&◌, ◌||◌, Option, none, some, List, [], ◌∷◌,
  arith, ltb, ◌==◌, nat_eq, string_eq, Bool-cases,
}
use miniflux.Base.Int.{ℤ, pos}
use miniflux.Base.Numbers.{parse_int, decimal}
use miniflux.Model.Entry.{Entry, status_unread, status_read}
use miniflux.Storage.Entries.{
  update, affects, set_status, mark_feed_as_read, mark_category_as_read,
  mark_all_as_read_before_date, unread_of, unread_in_feed, unread_in_category,
}
use miniflux.Storage.Entries.Laws.{untouched}
use miniflux.GoogleReader.Reply.{Reply, ok, bad_request, not_found}
use miniflux.GoogleReader.Streams.{
  StreamError, StreamType, no_stream, read_stream, starred_stream, reading_list_stream,
  kept_unread_stream, broadcast_stream, broadcast_friends_stream, label_stream, feed_stream,
  like_stream, Stream, get_stream,
}
use miniflux.GoogleReader.Marking.{
  marked_before, affected, mark_feed, mark_category, mark_stream, mark_before, mark_all,
}

module _ {Url : Type 0} (feed_user feed_category : ℕ → ℕ) (category : String → Option ℕ)
    (now user_id : ℕ) where
  -- A row before and after: the same, or one that may be marked, which is read now.
  abbrev pub Marked : (Entry Url → Bool) → List (Entry Url) → List (Entry Url) → Type 0
  Marked may [] [] = Unit
  Marked may [] (f ∷ after) = ⊥
  Marked may (e ∷ rows) [] = ⊥
  Marked may (e ∷ rows) (f ∷ after) =
      ((f ≡ e) ⊎ ((may e ≡ true) × (f ≡ set_status now status_read e))) × Marked may rows after

  -- An entry that a request of the user may mark: unread, and the user's own or in a feed of the
  -- user's.
  abbrev pub may_mark : Entry Url → Bool
  may_mark e = e.status == status_unread && (e.user_id == user_id || feed_user e.feed_id == user_id)

  Marked-update :
      (may chosen : Entry Url → Bool)
      → ((e : Entry Url) → chosen e ≡ true → may e ≡ true)
      → (rows : List (Entry Url))
      → Marked may rows (update chosen (set_status now status_read) rows)
  Marked-update may chosen h [] = tt
  Marked-update may chosen h (e ∷ rows) = (
    elim (Bool-cases (chosen e)) [ inl q ↦ inr (h e q, rw q refl) | inr q ↦ inl (rw q refl) ],
    Marked-update may chosen h rows,
  )

  Marked-refl : (may : Entry Url → Bool) (rows : List (Entry Url)) → Marked may rows rows
  Marked-refl may [] = tt
  Marked-refl may (e ∷ rows) = (inl refl, Marked-refl may rows)

  -- Only a reply of success changes rows, and only those that may be marked.
  abbrev pub Sound : List (Entry Url) → Reply × List (Entry Url) → Type 0
  Sound rows (reply, after) = Marked may_mark rows after × ((reply ≡ ok) ⊎ (after ≡ rows))

  affected-Sound :
      (chosen : Entry Url → Bool) (rows : List (Entry Url))
      → ((e : Entry Url) → chosen e ≡ true → may_mark e ≡ true)
      → Sound rows (
          affected feed_user feed_category category
            (update chosen (set_status now status_read) rows, affects chosen rows))
  affected-Sound chosen rows h = elim (Bool-cases (affects chosen rows)) [
    | inl some_row ↦ rw some_row (Marked-update may_mark chosen h rows, inl refl)
    | inr no_row ↦ rw no_row (
      Marked-update may_mark chosen h rows,
      inr (untouched chosen (set_status now status_read) rows no_row),
    )
  ]

  same-Sound : (reply : Reply) (rows : List (Entry Url)) → Sound rows (reply, rows)
  same-Sound reply rows = (Marked-refl may_mark rows, inr refl)

  mark_feed-Sound :
      (before : ℕ) (id : Option ℤ) (rows : List (Entry Url))
      → Sound rows (mark_feed feed_user feed_category category now user_id before id rows)
  unfolding mark_feed mark_feed_as_read
  mark_feed-Sound before none rows = same-Sound bad_request rows
  mark_feed-Sound before (some id) rows =
      affected-Sound (unread_in_feed user_id id before) rows (λ e h. ground arith)

  mark_category-Sound :
      (before : ℕ) (id : Option ℕ) (rows : List (Entry Url))
      → Sound rows (mark_category feed_user feed_category category now user_id before id rows)
  unfolding mark_category mark_category_as_read
  mark_category-Sound before none rows = same-Sound not_found rows
  mark_category-Sound before (some id) rows =
      affected-Sound (unread_in_category feed_user feed_category user_id id before) rows
        (λ e h. ground arith)

  by_type :
      (before : ℕ) (type : StreamType) (id : String) (rows : List (Entry Url))
      → Sound rows (
          mark_stream feed_user feed_category category now user_id before
            (record { type = type; id = id })
            rows)
  unfolding mark_stream mark_all_as_read_before_date
  by_type before no_stream id rows = same-Sound ok rows
  by_type before read_stream id rows = same-Sound ok rows
  by_type before starred_stream id rows = same-Sound ok rows
  by_type before reading_list_stream id rows = (
    Marked-update may_mark (λ e. unread_of user_id e && ltb e.date before) (λ e h. ground arith)
        rows,
    inl refl,
  )
  by_type before kept_unread_stream id rows = same-Sound ok rows
  by_type before broadcast_stream id rows = same-Sound ok rows
  by_type before broadcast_friends_stream id rows = same-Sound ok rows
  by_type before label_stream id rows = mark_category-Sound before (category id) rows
  by_type before feed_stream id rows = mark_feed-Sound before (parse_int decimal id) rows
  by_type before like_stream id rows = same-Sound ok rows

  -- An outcome is sound whichever the type of the stream is.
  mark_stream-Sound :
      (before : ℕ) (s : Stream) (rows : List (Entry Url))
      → Sound rows (mark_stream feed_user feed_category category now user_id before s rows)
  mark_stream-Sound before s rows = by_type before s.type s.id rows

  mark_before-Sound :
      (s : Stream) (before : Option ℕ) (rows : List (Entry Url))
      → Sound rows (mark_before feed_user feed_category category now user_id s before rows)
  mark_before-Sound s none rows = same-Sound bad_request rows
  mark_before-Sound s (some before) rows = mark_stream-Sound before s rows

  from_stream :
      (found : StreamError ⊎ Stream) (timestamp : String) (rows : List (Entry Url))
      → Sound rows (elim found [
        | inl err ↦ (bad_request, rows)
        | inr s ↦
            mark_before feed_user feed_category category now user_id s
              (marked_before now timestamp)
              rows
      ])
  from_stream (inl err) timestamp rows = same-Sound bad_request rows
  from_stream (inr s) timestamp rows = mark_before-Sound s (marked_before now timestamp) rows

  -- Whatever the stream and the timestamp of a request to mark entries as read: a row stays as it
  -- is, or it was unread, belongs to the user, directly or by its feed, and is read now. Where the
  -- reply is not one of success, every row stays as it is.
  pub mark_all-Sound :
      (stream_id timestamp : String) (rows : List (Entry Url))
      → Sound rows (mark_all feed_user feed_category category now user_id stream_id timestamp rows)
  unfolding mark_all
  mark_all-Sound stream_id timestamp rows =
      from_stream (get_stream stream_id (pos user_id)) timestamp rows
