-- ===== src/GoogleReader/Streams.antt =====
-- internal/googlereader/stream.go and prefix_suffix.go: the ids of streams, and the handlers of
-- handler.go that print them.
pub mod RoundTrip
mod Tests
use miniflux.Base.{
  ℕ, zero, suc, ◌+◌, ◌-◌, ◌*◌, ◌/◌, ◌%◌, ◌^◌, ◌≤◌, ◌<◌, min, max, String, ◌≡◌, refl, sym, ap, ◌∙◌,
  ◌≢◌, ◌↔◌, ◌⊎◌, inl, inr, Bool, true, false, not, ◌&&◌, ◌||◌, Option, none, some, List, [], ◌∷◌,
  ◌++◌, map, reverse, arith, eq_iff, ltb, leb, nat_beq, if◌then◌else◌, ltb→lt, lt→ltb, leb→le,
  nat_beq_iff, tests, Eq, ◌==◌, nat_eq, string_eq, Bool-cases, Option-cases, beq_refl, eq_of_beq,
  ne_of_beq, beq_of_ne, length, get_elem?, length-append, All-mem, Memᴰ, any, keep, All, All-append,
  All-map, lookup, insert, lookup-insert, lookup-insert_self, length-insert_new,
}
use miniflux.Base.Int.{
  ℤ, pos, negsuc, pos_part, neg_part, sub_ℕ, ◌+ℤ◌, ◌-ℤ◌, quot, rem, ◌≤ℤ◌, ◌<ℤ◌, ltb_ℤ, leb_ℤ, eqb_ℤ,
  +ℤ_parts, -ℤ_parts, eq_of_parts, int_laws,
}
use miniflux.Base.Text.{append, trim_prefix, has_prefix}
use miniflux.Base.Numbers.{format_int, decimal}

pub data StreamType : Type 0 where
  no_stream : StreamType
  read_stream : StreamType
  starred_stream : StreamType
  reading_list_stream : StreamType
  kept_unread_stream : StreamType
  broadcast_stream : StreamType
  broadcast_friends_stream : StreamType
  label_stream : StreamType
  feed_stream : StreamType
  like_stream : StreamType

abbrev pub is_label : StreamType → Bool
is_label label_stream = true
is_label type = false

pub record Stream : Type 0 where
  pub type : StreamType
  pub id : String

pub data StreamError : Type 0 where
  unknown_stream : String → StreamError
  unknown_stream_type : String → StreamError

abbrev pub stream : StreamType → String → Stream
stream type id = record { type = type; id = id }

-- prefix_suffix.go
abbrev pub stream_prefix : String
stream_prefix = "user/-/state/com.google/"

abbrev pub label_prefix : String
label_prefix = "user/-/label/"

abbrev pub feed_prefix : String
feed_prefix = "feed/"

unfoldable pub user_stream_prefix : ℤ → String
user_stream_prefix user_id =
    append "user/" (append (format_int decimal user_id) "/state/com.google/")

unfoldable pub user_label_prefix : ℤ → String
user_label_prefix user_id = append "user/" (append (format_int decimal user_id) "/label/")

-- The stream of a suffix, in `getStream`.
unfoldable pub state_stream : String → StreamError ⊎ Stream
state_stream id =
    if id == "read"
    then inr (stream read_stream "")
    else if id == "starred"
    then inr (stream starred_stream "")
    else if id == "reading-list"
    then inr (stream reading_list_stream "")
    else if id == "kept-unread"
    then inr (stream kept_unread_stream "")
    else if id == "broadcast"
    then inr (stream broadcast_stream "")
    else if id == "broadcast-friends"
    then inr (stream broadcast_friends_stream "")
    else if id == "like"
    then inr (stream like_stream "")
    else inl (unknown_stream id)

-- getStream
unfoldable pub get_stream : String → ℤ → StreamError ⊎ Stream
get_stream stream_id user_id =
    if has_prefix feed_prefix stream_id
    then inr (stream feed_stream (trim_prefix feed_prefix stream_id))
    else if has_prefix (user_stream_prefix user_id) stream_id || has_prefix stream_prefix stream_id
    then state_stream
        (trim_prefix stream_prefix (trim_prefix (user_stream_prefix user_id) stream_id))
    else if has_prefix (user_label_prefix user_id) stream_id || has_prefix label_prefix stream_id
    then inr (
        stream label_stream
          (trim_prefix label_prefix (trim_prefix (user_label_prefix user_id) stream_id)))
    else if stream_id == ""
    then inr (stream no_stream "")
    else inl (unknown_stream_type stream_id)

-- A result with one more stream before it.
abbrev pub with_stream :
    StreamError ⊎ Stream → StreamError ⊎ List Stream → StreamError ⊎ List Stream
with_stream (inl err) rest = inl err
with_stream (inr s) (inl err) = inl err
with_stream (inr s) (inr streams) = inr (s ∷ streams)

-- getStreams
unfoldable pub get_streams : List String → ℤ → StreamError ⊎ List Stream
get_streams [] user_id = inr []
get_streams (stream_id ∷ stream_ids) user_id =
    with_stream (get_stream stream_id user_id) (get_streams stream_ids user_id)

-- subscriptionCategoryResponse
pub record SubscriptionCategoryResponse : Type 0 where
  pub id : String
  pub label : String
  pub type : String

-- The folder of a category, in tagListHandler and subscriptionListHandler.
unfoldable pub folder : ℤ → String → SubscriptionCategoryResponse
folder user_id title = record {
  id = append (user_label_prefix user_id) title;
  label = title;
  type = "folder";
}

-- tagListHandler, from the titles of the user's categories.
unfoldable pub tag_list : ℤ → List String → List SubscriptionCategoryResponse
unfolding folder
tag_list user_id titles =
    record { id = append (user_stream_prefix user_id) "starred"; label = ""; type = "" }
    ∷ map (folder user_id) titles

-- The id of a subscription, in subscriptionListHandler.
unfoldable pub subscription_id : ℤ → String
subscription_id feed_id = append feed_prefix (format_int decimal feed_id)
