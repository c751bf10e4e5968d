-- ===== src/GoogleReader/Tags/Tests.antt =====
-- Tags at concrete inputs.
use miniflux.Base.{◌≡◌, refl, inl, inr, true, false, [], ◌∷◌, nat_eq, string_eq, lookup, insert}
use miniflux.GoogleReader.Streams.{
  read_stream, kept_unread_stream, starred_stream, label_stream, stream,
}
use miniflux.GoogleReader.Tags.{
  stream_type_eq, simultaneously, unsupported, has_key, add_tag, remove_tag,
  check_and_simplify_tags,
}
use miniflux.GoogleReader.Tags.Accepted.{Agrees, check_and_simplify_tags-Agrees}

-- "kept-unread" after "read" is refused, and "read" after "kept-unread" is not.
read_then_kept :
    check_and_simplify_tags (stream read_stream "" ∷ stream kept_unread_stream "" ∷ []) []
    ≡ inl simultaneously
unfolding check_and_simplify_tags add_tag has_key lookup insert
read_then_kept = refl

kept_then_read :
    check_and_simplify_tags (stream kept_unread_stream "" ∷ stream read_stream "" ∷ []) []
    ≡ inr ((read_stream, true) ∷ [])
unfolding check_and_simplify_tags add_tag has_key lookup insert
kept_then_read = refl

label : check_and_simplify_tags (stream label_stream "a" ∷ []) [] ≡ inl (unsupported label_stream)
unfolding check_and_simplify_tags add_tag
label = refl

star_and_unread :
    check_and_simplify_tags (stream starred_stream "" ∷ []) (stream read_stream "" ∷ [])
    ≡ inr ((starred_stream, true) ∷ (read_stream, false) ∷ [])
unfolding check_and_simplify_tags add_tag remove_tag has_key lookup insert
star_and_unread = refl

check_and_simplify_tags-Agrees_example :
    Agrees [] (false ∷ []) (lookup read_stream ((starred_stream, true) ∷ (read_stream, false) ∷ []))
    × Agrees
        (true ∷ [])
        []
        (lookup starred_stream ((starred_stream, true) ∷ (read_stream, false) ∷ []))
check_and_simplify_tags-Agrees_example =
    check_and_simplify_tags-Agrees (stream starred_stream "" ∷ []) (stream read_stream "" ∷ [])
      ((starred_stream, true) ∷ (read_stream, false) ∷ []) star_and_unread
