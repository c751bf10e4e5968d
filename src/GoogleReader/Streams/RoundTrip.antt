-- ===== src/GoogleReader/Streams/RoundTrip.antt =====
-- The ids that the API hands out are read back as what they name.
use Prim.Native.String.{[], ◌∷◌}
use miniflux.Base.{
  ℕ, String, ◌≡◌, refl, inr, false, none, some, List, [], ◌∷◌, map, arith, nat_eq, string_eq, All,
}
use miniflux.Base.Int.{ℤ, pos}
use miniflux.Base.Text.{append, cut_prefix, has_prefix}
use miniflux.Base.Text.Prefixes.{
  append_assoc, cut_prefix-append, has_prefix_self, trim_prefix_self, trim_prefix_other,
}
use miniflux.Base.Numbers.{format_uint, format_int, parse_int, decimal}
use miniflux.Base.Numbers.RoundTrip.{
  Starts, format_uint-Starts, unsigned, InInt64, parse_int-format_int,
}
use miniflux.GoogleReader.Streams.{
  stream, feed_stream, label_stream, starred_stream, stream_prefix, label_prefix, feed_prefix,
  user_stream_prefix, user_label_prefix, state_stream, get_stream, get_streams, folder, tag_list,
  subscription_id, SubscriptionCategoryResponse,
}

-- The prefix of no user is none of a user's.
other_user : (p s text : String) → Starts decimal s → cut_prefix ("-" ∷ p) (append s text) ≡ none
unfolding append cut_prefix
other_user p [] text h = absurd h
other_user p (c ∷ s) text (d, h) = let (minus, plus) = unsigned c d h in ground arith

-- Where two texts part after a prefix in common, neither begins the other.
has_prefix-append :
    (front p s : String) → has_prefix (append front p) (append front s) ≡ has_prefix p s
unfolding has_prefix
has_prefix-append front p s = rw (has_prefix, cut_prefix-append front p s) refl

user_path :
    (n : ℕ) (rest text : String)
    → append (append "user/" (append (format_int decimal (pos n)) rest)) text
      ≡ append "user/" (append (format_uint decimal n) (append rest text))
unfolding format_int
user_path n rest text =
    rw
      (
        append_assoc "user/" (append (format_uint decimal n) rest) text,
        append_assoc (format_uint decimal n) rest text,
      )
      refl

-- A user's path begins with no path that names no user.
anonymous :
    (n : ℕ) (p rest : String)
    → has_prefix (append "user/" ("-" ∷ p)) (append "user/" (append (format_uint decimal n) rest))
      ≡ false
unfolding has_prefix
anonymous n p rest =
    rw
      (
        has_prefix-append "user/" ("-" ∷ p) (append (format_uint decimal n) rest),
        has_prefix,
        other_user p (format_uint decimal n) rest (format_uint-Starts n),
      )
      refl

anonymous_state :
    (n : ℕ) (rest : String)
    → has_prefix stream_prefix (append "user/" (append (format_uint decimal n) rest)) ≡ false
unfolding append
anonymous_state n rest = anonymous n "/state/com.google/" rest

no_label : (text : String) → has_prefix "/state/com.google/" (append "/label/" text) ≡ false
unfolding has_prefix cut_prefix append
no_label text = refl

label_no_feed :
    (user_id : ℤ) (text : String)
    → has_prefix feed_prefix (append (user_label_prefix user_id) text) ≡ false
unfolding user_label_prefix has_prefix cut_prefix append
label_no_feed user_id text = refl

state_no_feed :
    (user_id : ℤ) (text : String)
    → has_prefix feed_prefix (append (user_stream_prefix user_id) text) ≡ false
unfolding user_stream_prefix has_prefix cut_prefix append
state_no_feed user_id text = refl

label_no_state :
    (n : ℕ) (title : String)
    → (has_prefix (user_stream_prefix (pos n)) (append (user_label_prefix (pos n)) title) ≡ false)
      × (has_prefix stream_prefix (append (user_label_prefix (pos n)) title) ≡ false)
unfolding user_stream_prefix user_label_prefix format_int
label_no_state n title =
    let digits = format_uint decimal n in
    let text = append "/label/" title in
    rw (user_path n "/label/" title) (
      rw
          (
            has_prefix-append "user/" (append digits "/state/com.google/") (append digits text),
            has_prefix-append digits "/state/com.google/" text,
          )
          (no_label title),
      anonymous_state n text,
    )

-- The id of a user's label.
pub get_stream-label :
    (n : ℕ) (title : String)
    → has_prefix label_prefix title ≡ false
    → get_stream (append (user_label_prefix (pos n)) title) (pos n)
      ≡ inr (stream label_stream title)
unfolding get_stream
get_stream-label n title h =
    let (user, anyone) = label_no_state n title in
    rw
      (
        label_no_feed (pos n) title,
        user,
        anyone,
        has_prefix_self (user_label_prefix (pos n)) title,
        trim_prefix_self (user_label_prefix (pos n)) title,
        trim_prefix_other label_prefix title h,
      )
      refl

-- The ids of the states a user has, as one of `suffix`.
get_stream-state :
    (n : ℕ) (suffix : String)
    → has_prefix stream_prefix suffix ≡ false
    → get_stream (append (user_stream_prefix (pos n)) suffix) (pos n) ≡ state_stream suffix
unfolding get_stream
get_stream-state n suffix h =
    rw
      (
        state_no_feed (pos n) suffix,
        has_prefix_self (user_stream_prefix (pos n)) suffix,
        trim_prefix_self (user_stream_prefix (pos n)) suffix,
        trim_prefix_other stream_prefix suffix h,
      )
      refl

starred_plain : has_prefix stream_prefix "starred" ≡ false
unfolding has_prefix cut_prefix
starred_plain = refl

starred_state : state_stream "starred" ≡ inr (stream starred_stream "")
unfolding state_stream
starred_state = refl

get_streams-labels :
    (n : ℕ) (titles : List String)
    → All (λ title. has_prefix label_prefix title ≡ false) titles
    → get_streams (map SubscriptionCategoryResponse.id (map (folder (pos n)) titles)) (pos n)
      ≡ inr (map (stream label_stream) titles)
unfolding get_streams folder
get_streams-labels n [] h = refl
get_streams-labels n (title ∷ titles) (first, rest) =
    rw (get_stream-label n title first, get_streams-labels n titles rest) refl

-- Every id of the list of tags is read back by `getStreams` as what it names: the starred entries
-- first, then each category as the label of its title. The titles must not begin with
-- "user/-/label/", which would be cut off, and the user's id is not negative.
pub get_streams-tag_list :
    (n : ℕ) (titles : List String)
    → All (λ title. has_prefix label_prefix title ≡ false) titles
    → get_streams (map SubscriptionCategoryResponse.id (tag_list (pos n) titles)) (pos n)
      ≡ inr (stream starred_stream "" ∷ map (stream label_stream) titles)
unfolding get_streams tag_list
get_streams-tag_list n titles h =
    rw (get_stream-state n "starred" starred_plain, get_streams-labels n titles h, starred_state)
      refl

-- The id of a subscription is read back as the stream of its feed, whose id ParseInt reads.
pub subscription_id_lem :
    (feed_id user_id : ℤ)
    → InInt64 feed_id
    → (get_stream (subscription_id feed_id) user_id
        ≡ inr (stream feed_stream (format_int decimal feed_id)))
      × (parse_int decimal (format_int decimal feed_id) ≡ some feed_id)
unfolding subscription_id get_stream
subscription_id_lem feed_id user_id h = (
  rw
      (
        has_prefix_self feed_prefix (format_int decimal feed_id),
        trim_prefix_self feed_prefix (format_int decimal feed_id),
      )
      refl,
  parse_int-format_int feed_id h,
)
