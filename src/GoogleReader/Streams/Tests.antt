-- ===== src/GoogleReader/Streams/Tests.antt =====
-- The ids of streams at concrete inputs.
use miniflux.Base.{◌≡◌, refl, inl, inr, false, [], ◌∷◌, map, nat_eq, string_eq, All}
use miniflux.Base.Int.{pos}
use miniflux.Base.Text.{append, cut_prefix, trim_prefix, has_prefix}
use miniflux.Base.Numbers.{format_uint, digits, format_int, hex_digit}
use miniflux.GoogleReader.Streams.{
  stream, label_stream, starred_stream, kept_unread_stream, unknown_stream, unknown_stream_type,
  label_prefix, user_stream_prefix, user_label_prefix, state_stream, get_stream, get_streams,
  tag_list, SubscriptionCategoryResponse,
}
use miniflux.GoogleReader.Streams.RoundTrip.{get_streams-tag_list}

kept_unread :
    get_stream "user/-/state/com.google/kept-unread" (pos 12) ≡ inr (stream kept_unread_stream "")
unfolding get_stream state_stream user_stream_prefix append has_prefix trim_prefix cut_prefix
    format_int format_uint digits hex_digit
kept_unread = refl

unknown : get_stream "user/12/state/com.google/loved" (pos 12) ≡ inl (unknown_stream "loved")
unfolding get_stream state_stream user_stream_prefix append has_prefix trim_prefix cut_prefix
    format_int format_uint digits hex_digit
unknown = refl

-- The prefix of a label is cut off twice.
nested_label : get_stream "user/12/label/user/-/label/a" (pos 12) ≡ inr (stream label_stream "a")
unfolding get_stream user_stream_prefix user_label_prefix append has_prefix trim_prefix cut_prefix
    format_int format_uint digits hex_digit
nested_label = refl

-- Another user's label is refused.
another_user : get_stream "user/7/label/a" (pos 12) ≡ inl (unknown_stream_type "user/7/label/a")
unfolding get_stream user_stream_prefix user_label_prefix append has_prefix trim_prefix cut_prefix
    format_int format_uint digits hex_digit
another_user = refl

plain_titles : All (λ title. has_prefix label_prefix title ≡ false) ("News" ∷ "user/-/state" ∷ [])
unfolding has_prefix cut_prefix
plain_titles = (refl, (refl, tt))

get_streams-tag_list_example :
    get_streams
      (map SubscriptionCategoryResponse.id (tag_list (pos 12) ("News" ∷ "user/-/state" ∷ [])))
      (pos 12)
    ≡ inr (
        stream starred_stream ""
        ∷ stream label_stream "News"
        ∷ stream label_stream "user/-/state"
        ∷ [])
get_streams-tag_list_example = get_streams-tag_list 12 ("News" ∷ "user/-/state" ∷ []) plain_titles
