-- ===== src/GoogleReader/Tags/Accepted.antt =====
-- What the accepted tags say, against the tags that were asked for.
use miniflux.Base.{
  ◌≡◌, refl, sym, ap, ◌∙◌, ◌≢◌, inr, Bool, true, false, Option, none, some, List, [], ◌∷◌, arith,
  nat_eq, string_eq, lookup, lookup-insert,
}
use miniflux.Base.Results.{inr_of_bind}
use miniflux.GoogleReader.Streams.{
  StreamType, no_stream, read_stream, starred_stream, reading_list_stream, kept_unread_stream,
  broadcast_stream, broadcast_friends_stream, label_stream, feed_stream, like_stream, Stream,
}
use miniflux.GoogleReader.Tags.{
  stream_type_eq, Tags, has_key, add_tag, remove_tag, each, check_and_simplify_tags,
}

-- What a tag says of an entry: that it be read, or starred; `none` where it says nothing.
abbrev pub read_if_added : StreamType → Option Bool
read_if_added read_stream = some true
read_if_added kept_unread_stream = some false
read_if_added type = none

abbrev pub read_if_removed : StreamType → Option Bool
read_if_removed read_stream = some false
read_if_removed kept_unread_stream = some true
read_if_removed type = none

abbrev pub starred_if_added : StreamType → Option Bool
starred_if_added starred_stream = some true
starred_if_added type = none

abbrev pub starred_if_removed : StreamType → Option Bool
starred_if_removed starred_stream = some false
starred_if_removed type = none

-- Everything that the tags say, in order.
abbrev pub marks : (StreamType → Option Bool) → List Stream → List Bool
marks says [] = []
marks says (s ∷ streams) = elim (says s.type) [
  | none ↦ marks says streams
  | some b ↦ b ∷ marks says streams
]

-- The last mark, or what was known before.
abbrev pub last_mark : Option Bool → List Bool → Option Bool
last_mark known [] = known
last_mark known (b ∷ bs) = last_mark (some b) bs

abbrev over : Option Bool → Option Bool → Option Bool
over none known = known
over (some b) known = some b

-- What a step does to a key, where it is accepted: it writes what the tag says.
abbrev Writes : StreamType → Option Bool → Tags → Tags → Type 0
Writes key said tags tags' = lookup key tags' ≡ over said (lookup key tags)

-- The same, where a key is written once.
abbrev WritesOnce : StreamType → Option Bool → Tags → Tags → Type 0
WritesOnce key none tags tags' = lookup key tags' ≡ lookup key tags
WritesOnce key (some b) tags tags' = (lookup key tags ≡ none) × (lookup key tags' ≡ some b)

without_key : (key : StreamType) (tags : Tags) → has_key key tags ≡ false → lookup key tags ≡ none
unfolding has_key
without_key key tags h = ground arith

add_tag_lem :
    (type : StreamType) (tags tags' : Tags)
    → add_tag type tags ≡ inr tags'
    → Writes read_stream (read_if_added type) tags tags'
      × Writes starred_stream (starred_if_added type) tags tags'
unfolding add_tag
add_tag_lem no_stream tags tags' h = ground arith
add_tag_lem read_stream tags tags' h = ground (
  arith,
  lookup-insert read_stream read_stream true tags,
  lookup-insert read_stream starred_stream true tags,
)
add_tag_lem starred_stream tags tags' h = ground (
  arith,
  lookup-insert starred_stream starred_stream true tags,
  lookup-insert starred_stream read_stream true tags,
)
add_tag_lem reading_list_stream tags tags' h = ground arith
add_tag_lem kept_unread_stream tags tags' h = ground (
  arith,
  lookup-insert read_stream read_stream false tags,
  lookup-insert read_stream starred_stream false tags,
)
add_tag_lem broadcast_stream tags tags' h = ground arith
add_tag_lem broadcast_friends_stream tags tags' h = ground arith
add_tag_lem label_stream tags tags' h = ground arith
add_tag_lem feed_stream tags tags' h = ground arith
add_tag_lem like_stream tags tags' h = ground arith

remove_tag_lem :
    (type : StreamType) (tags tags' : Tags)
    → remove_tag type tags ≡ inr tags'
    → WritesOnce read_stream (read_if_removed type) tags tags'
      × WritesOnce starred_stream (starred_if_removed type) tags tags'
unfolding remove_tag
remove_tag_lem no_stream tags tags' h = ground arith
remove_tag_lem read_stream tags tags' h = ground (
  arith,
  without_key read_stream tags,
  lookup-insert read_stream read_stream false tags,
  lookup-insert read_stream starred_stream false tags,
)
remove_tag_lem starred_stream tags tags' h = ground (
  arith,
  without_key starred_stream tags,
  lookup-insert starred_stream starred_stream false tags,
  lookup-insert starred_stream read_stream false tags,
)
remove_tag_lem reading_list_stream tags tags' h = ground arith
remove_tag_lem kept_unread_stream tags tags' h = ground (
  arith,
  without_key read_stream tags,
  lookup-insert read_stream read_stream true tags,
  lookup-insert read_stream starred_stream true tags,
)
remove_tag_lem broadcast_stream tags tags' h = ground arith
remove_tag_lem broadcast_friends_stream tags tags' h = ground arith
remove_tag_lem label_stream tags tags' h = ground arith
remove_tag_lem feed_stream tags tags' h = ground arith
remove_tag_lem like_stream tags tags' h = ground arith

-- The outcome for a key of removed tags that say `removed`, where `known` stood before.
abbrev Once : List Bool → Option Bool → Option Bool → Type 0
Once [] known result = result ≡ known
Once (b ∷ []) known result = (known ≡ none) × (result ≡ some b)
Once (b ∷ c ∷ bs) known result = ⊥

-- The outcome of added tags that say `added` and removed tags that say `removed`.
abbrev pub Agrees : List Bool → List Bool → Option Bool → Type 0
Agrees added [] result = result ≡ last_mark none added
Agrees added (b ∷ []) result = (added ≡ []) × (result ≡ some b)
Agrees added (b ∷ c ∷ bs) result = ⊥

last_mark-some : (b : Bool) (bs : List Bool) → last_mark (some b) bs ≢ none
last_mark-some b [] = cc
last_mark-some b (c ∷ bs) = last_mark-some c bs

nothing_said : (bs : List Bool) → last_mark none bs ≡ none → bs ≡ []
nothing_said [] h = refl
nothing_said (b ∷ bs) h = absurd (last_mark-some b bs h)

Agrees-Once :
    (added removed : List Bool) (known result : Option Bool)
    → known ≡ last_mark none added
    → Once removed known result
    → Agrees added removed result
Agrees-Once added [] known result k h = h ∙ k
Agrees-Once added (b ∷ []) known result k (new, h) = (nothing_said added (sym k ∙ new), h)
Agrees-Once added (b ∷ c ∷ bs) known result k h = h

last_mark-over :
    (said known : Option Bool) (bs : List Bool)
    → last_mark (over said known) bs ≡ last_mark known (elim said [ none ↦ bs | some b ↦ b ∷ bs ])
last_mark-over none known bs = refl
last_mark-over (some b) known bs = refl

Once-WritesOnce :
    (key : StreamType) (said : Option Bool) (bs : List Bool) (tags middle : Tags)
    (result : Option Bool)
    → WritesOnce key said tags middle
    → Once bs (lookup key middle) result
    → Once (elim said [ none ↦ bs | some b ↦ b ∷ bs ]) (lookup key tags) result
Once-WritesOnce key none [] tags middle result w h = h ∙ w
Once-WritesOnce key none (b ∷ []) tags middle result w (new, h) = (sym w ∙ new, h)
Once-WritesOnce key none (b ∷ c ∷ bs) tags middle result w h = h
Once-WritesOnce key (some a) [] tags middle result (new, w) h = (new, h ∙ w)
Once-WritesOnce key (some a) (b ∷ []) tags middle result (new, w) (other, h) = absurd (cc)
Once-WritesOnce key (some a) (b ∷ c ∷ bs) tags middle result w h = h

added_lem :
    (streams : List Stream) (tags tags' : Tags)
    → each add_tag streams tags ≡ inr tags'
    → (lookup read_stream tags' ≡ last_mark (lookup read_stream tags) (marks read_if_added streams))
      × (lookup starred_stream tags'
          ≡ last_mark (lookup starred_stream tags) (marks starred_if_added streams))
added_lem [] tags tags' h = ground arith
added_lem (s ∷ streams) tags tags' h =
    let (middle, first, rest) = inr_of_bind (add_tag s.type tags) (each add_tag streams) tags' h in
    let (read, starred) = add_tag_lem s.type tags middle first in
    let (read', starred') = added_lem streams middle tags' rest in
    (
      read'
          ∙ ap (λ k. last_mark k (marks read_if_added streams)) read
          ∙ last_mark-over (read_if_added s.type) (lookup read_stream tags)
              (marks read_if_added streams),
      starred'
          ∙ ap (λ k. last_mark k (marks starred_if_added streams)) starred
          ∙ last_mark-over (starred_if_added s.type) (lookup starred_stream tags)
              (marks starred_if_added streams),
    )

removed_lem :
    (streams : List Stream) (tags tags' : Tags)
    → each remove_tag streams tags ≡ inr tags'
    → Once (marks read_if_removed streams) (lookup read_stream tags) (lookup read_stream tags')
      × Once
          (marks starred_if_removed streams)
          (lookup starred_stream tags)
          (lookup starred_stream tags')
removed_lem [] tags tags' h = ground arith
removed_lem (s ∷ streams) tags tags' h =
    let (middle, first, rest) =
      inr_of_bind (remove_tag s.type tags) (each remove_tag streams) tags' h in
    let (read, starred) = remove_tag_lem s.type tags middle first in
    let (read', starred') = removed_lem streams middle tags' rest in
    (
      Once-WritesOnce read_stream (read_if_removed s.type) (marks read_if_removed streams) tags
          middle _ read read',
      Once-WritesOnce starred_stream (starred_if_removed s.type) (marks starred_if_removed streams)
          tags middle _ starred starred',
    )

-- Accepted tags say, for "read" and for "starred" alike, what the last added tag says where no
-- removed tag says anything; and what the removed tag says where one does, which is then the only
-- one, and no added tag says anything of it.
pub check_and_simplify_tags-Agrees :
    (added removed : List Stream) (tags : Tags)
    → check_and_simplify_tags added removed ≡ inr tags
    → Agrees (marks read_if_added added) (marks read_if_removed removed) (lookup read_stream tags)
      × Agrees
          (marks starred_if_added added)
          (marks starred_if_removed removed)
          (lookup starred_stream tags)
unfolding check_and_simplify_tags
check_and_simplify_tags-Agrees added removed tags h =
    let (middle, first, rest) =
      inr_of_bind (each add_tag added []) (each remove_tag removed) tags h in
    let (read, starred) = added_lem added [] middle first in
    let (read', starred') = removed_lem removed middle tags rest in
    (
      Agrees-Once (marks read_if_added added) (marks read_if_removed removed) _ _ read read',
      Agrees-Once (marks starred_if_added added) (marks starred_if_removed removed) _ _ starred
          starred',
    )
