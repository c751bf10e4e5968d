-- ===== src/GoogleReader/Tags.antt =====
-- internal/googlereader/handler.go: `checkAndSimplifyTags`. The log lines are left out.
pub mod Accepted
mod Tests
use miniflux.Base.{
  ℕ, zero, suc, ◌+◌, ◌-◌, ◌*◌, ◌/◌, ◌%◌, ◌^◌, ◌≤◌, ◌<◌, min, max, String, ◌≡◌, refl, sym, ap, ◌∙◌,
  ◌≢◌, ◌↔◌, ◌⊎◌, inl, inr, Bool, true, false, not, ◌&&◌, ◌||◌, Option, none, some, List, [], ◌∷◌,
  ◌++◌, map, reverse, arith, eq_iff, ltb, leb, nat_beq, if◌then◌else◌, ltb→lt, lt→ltb, leb→le,
  nat_beq_iff, tests, Eq, ◌==◌, nat_eq, string_eq, Bool-cases, Option-cases, beq_refl, eq_of_beq,
  ne_of_beq, beq_of_ne, length, get_elem?, length-append, All-mem, Memᴰ, any, keep, All, All-append,
  All-map, lookup, insert, lookup-insert, lookup-insert_self, length-insert_new,
}
use miniflux.Base.Results.{◌>>=◌}
use miniflux.GoogleReader.Streams.{
  StreamType, no_stream, read_stream, starred_stream, reading_list_stream, kept_unread_stream,
  broadcast_stream, broadcast_friends_stream, label_stream, feed_stream, like_stream, Stream,
}

-- The number of a stream type, by `iota`, and back.
abbrev pub stream_number : StreamType → ℕ
stream_number no_stream = 0
stream_number read_stream = 1
stream_number starred_stream = 2
stream_number reading_list_stream = 3
stream_number kept_unread_stream = 4
stream_number broadcast_stream = 5
stream_number broadcast_friends_stream = 6
stream_number label_stream = 7
stream_number feed_stream = 8
stream_number like_stream = 9

stream_numbered : ℕ → StreamType
stream_numbered n =
    if n == 0
    then no_stream
    else if n == 1
    then read_stream
    else if n == 2
    then starred_stream
    else if n == 3
    then reading_list_stream
    else if n == 4
    then kept_unread_stream
    else if n == 5
    then broadcast_stream
    else if n == 6
    then broadcast_friends_stream
    else if n == 7
    then label_stream
    else if n == 8
    then feed_stream
    else like_stream

stream_numbered_lem : (t : StreamType) → stream_numbered (stream_number t) ≡ t
unfolding stream_numbered
stream_numbered_lem no_stream = refl
stream_numbered_lem read_stream = refl
stream_numbered_lem starred_stream = refl
stream_numbered_lem reading_list_stream = refl
stream_numbered_lem kept_unread_stream = refl
stream_numbered_lem broadcast_stream = refl
stream_numbered_lem broadcast_friends_stream = refl
stream_numbered_lem label_stream = refl
stream_numbered_lem feed_stream = refl
stream_numbered_lem like_stream = refl

pub same_stream_iff :
    (a b : StreamType) → (nat_beq (stream_number a) (stream_number b) ≡ true) ↔ (a ≡ b)
same_stream_iff a b = (
  λ h.
      sym (stream_numbered_lem a)
      ∙ ap stream_numbered (eq_of_beq (stream_number a) (stream_number b) h)
      ∙ stream_numbered_lem b,
  λ q. (nat_beq_iff (stream_number a) (stream_number b)).1 (ap stream_number q),
)

instance abbrev pub stream_type_eq : Eq StreamType
stream_type_eq = record {
  beq_iff = same_stream_iff;
  beq = λ a b. nat_beq (stream_number a) (stream_number b);
}

-- The errors of `checkAndSimplifyTags`.
pub data TagError : Type 0 where
  simultaneously : TagError
  starred_simultaneously : TagError
  unsupported : StreamType → TagError

-- map[StreamType]bool
abbrev pub Tags : Type 0
Tags = List (StreamType × Bool)

unfoldable pub has_key : StreamType → Tags → Bool
unfolding lookup
has_key key tags = elim (lookup key tags) [ none ↦ false | some b ↦ true ]

-- One round of the first loop, for an added tag.
unfoldable pub add_tag : StreamType → Tags → TagError ⊎ Tags
unfolding has_key insert
add_tag read_stream tags =
    if has_key kept_unread_stream tags
    then inl simultaneously
    else inr (insert read_stream true tags)
add_tag kept_unread_stream tags =
    if has_key read_stream tags then inl simultaneously else inr (insert read_stream false tags)
add_tag starred_stream tags = inr (insert starred_stream true tags)
add_tag broadcast_stream tags = inr tags
add_tag like_stream tags = inr tags
add_tag type tags = inl (unsupported type)

-- One round of the second loop, for a removed tag.
unfoldable pub remove_tag : StreamType → Tags → TagError ⊎ Tags
unfolding has_key insert
remove_tag read_stream tags =
    if has_key read_stream tags then inl simultaneously else inr (insert read_stream false tags)
remove_tag kept_unread_stream tags =
    if has_key read_stream tags then inl simultaneously else inr (insert read_stream true tags)
remove_tag starred_stream tags =
    if has_key starred_stream tags
    then inl starred_simultaneously
    else inr (insert starred_stream false tags)
remove_tag broadcast_stream tags = inr tags
remove_tag like_stream tags = inr tags
remove_tag type tags = inl (unsupported type)

-- A loop over streams that stops at the first error.
abbrev pub each : (StreamType → Tags → TagError ⊎ Tags) → List Stream → Tags → TagError ⊎ Tags
each step [] tags = inr tags
each step (s ∷ streams) tags = step s.type tags >>= each step streams

-- checkAndSimplifyTags
unfoldable pub check_and_simplify_tags : List Stream → List Stream → TagError ⊎ Tags
unfolding add_tag remove_tag
check_and_simplify_tags added removed = each add_tag added [] >>= each remove_tag removed
