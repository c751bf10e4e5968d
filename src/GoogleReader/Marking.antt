-- ===== src/GoogleReader/Marking.antt =====
-- internal/googlereader/handler.go: `markAllAsReadHandler`. The database does not fail; `category` is
-- CategoryByTitle, and `feed_user` and `feed_category`
-- give the user and the category of a feed. Instants are nanoseconds.
pub mod Sound
mod Tests
use miniflux.Base.{
  ℕ, zero, suc, ◌+◌, ◌-◌, ◌*◌, ◌/◌, ◌%◌, ◌^◌, ◌≤◌, ◌<◌, min, max, String, ◌≡◌, refl, sym, ap, ◌∙◌,
  ◌≢◌, ◌↔◌, ◌⊎◌, inl, inr, Bool, true, false, not, ◌&&◌, ◌||◌, Option, none, some, List, [], ◌∷◌,
  ◌++◌, map, reverse, arith, eq_iff, ltb, leb, nat_beq, if◌then◌else◌, ltb→lt, lt→ltb, leb→le,
  nat_beq_iff, tests, Eq, ◌==◌, nat_eq, string_eq, Bool-cases, Option-cases, beq_refl, eq_of_beq,
  ne_of_beq, beq_of_ne, length, get_elem?, length-append, All-mem, Memᴰ, any, keep, All, All-append,
  All-map, lookup, insert, lookup-insert, lookup-insert_self, length-insert_new,
}
use miniflux.Base.Int.{
  ℤ, pos, negsuc, pos_part, neg_part, sub_ℕ, ◌+ℤ◌, ◌-ℤ◌, quot, rem, ◌≤ℤ◌, ◌<ℤ◌, ltb_ℤ, leb_ℤ, eqb_ℤ,
  +ℤ_parts, -ℤ_parts, eq_of_parts, int_laws,
}
use miniflux.Base.Text.{byte_length}
use miniflux.Base.Numbers.{parse_int, decimal}
use miniflux.Model.Entry.{Entry}
use miniflux.Storage.Entries.{
  mark_feed_as_read, mark_category_as_read, mark_all_as_read_before_date,
}
use miniflux.GoogleReader.Reply.{Reply, ok, bad_request, not_found}
use miniflux.GoogleReader.Streams.{
  StreamType, label_stream, feed_stream, reading_list_stream, Stream, get_stream,
}

-- The instant of the timestamp: seconds, or microseconds where the text is long; `none` where it is
-- no number.
unfoldable pub marked_before : ℕ → String → Option ℕ
marked_before now timestamp =
    if timestamp == "" then some now else elim (parse_int decimal timestamp) [
      | none ↦ none
      | some ts ↦ some (
          if ltb_ℤ (pos 0) ts
          then (if leb 16 (byte_length timestamp)
              then pos_part ts * 1000
              else pos_part ts * 1000000000)
          else now)
    ]

module _ {Url : Type 0} (feed_user feed_category : ℕ → ℕ) (category : String → Option ℕ) where
  -- The reply to what an update of the rows answered.
  abbrev pub affected : List (Entry Url) × Bool → Reply × List (Entry Url)
  affected (rows, true) = (ok, rows)
  affected (rows, false) = (not_found, rows)

  unfoldable pub mark_feed : ℕ → ℕ → ℕ → Option ℤ → List (Entry Url) → Reply × List (Entry Url)
  mark_feed now user_id before none rows = (bad_request, rows)
  mark_feed now user_id before (some feed_id) rows =
      affected (mark_feed_as_read now user_id feed_id before rows)

  unfoldable pub mark_category : ℕ → ℕ → ℕ → Option ℕ → List (Entry Url) → Reply × List (Entry Url)
  mark_category now user_id before none rows = (not_found, rows)
  mark_category now user_id before (some category_id) rows =
      affected (mark_category_as_read feed_user feed_category now user_id category_id before rows)

  -- The switch on the type of the stream.
  unfoldable pub mark_stream : ℕ → ℕ → ℕ → Stream → List (Entry Url) → Reply × List (Entry Url)
  unfolding mark_feed mark_category
  mark_stream now user_id before s rows = elim s.type [
    | feed_stream ↦ mark_feed now user_id before (parse_int decimal s.id) rows
    | label_stream ↦ mark_category now user_id before (category s.id) rows
    | reading_list_stream ↦ (ok, mark_all_as_read_before_date now user_id before rows)
    | _ ↦ (ok, rows)
  ]

  abbrev pub mark_before : ℕ → ℕ → Stream → Option ℕ → List (Entry Url) → Reply × List (Entry Url)
  mark_before now user_id s none rows = (bad_request, rows)
  mark_before now user_id s (some before) rows = mark_stream now user_id before s rows

  -- markAllAsReadHandler, from the stream and the timestamp of the form.
  unfoldable pub mark_all : ℕ → ℕ → String → String → List (Entry Url) → Reply × List (Entry Url)
  unfolding mark_stream marked_before
  mark_all now user_id stream_id timestamp rows = elim (get_stream stream_id (pos user_id)) [
    | inl err ↦ (bad_request, rows)
    | inr s ↦ mark_before now user_id s (marked_before now timestamp) rows
  ]
