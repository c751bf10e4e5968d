-- ===== src/GoogleReader/Subscriptions.antt =====
-- internal/googlereader/handler.go: `editSubscriptionHandler` and `disableTagHandler`, with `getFeed`,
-- `getOrCreateCategory`, `rename`, `move` and `unsubscribe`. The logger is left out. `subscribe`, which
-- fetches the feed, is not modelled: its effect on the storage comes as a function.
mod Renamed
pub mod Edited
mod Tests
use miniflux.Base.{
  ℕ, zero, suc, ◌+◌, ◌-◌, ◌*◌, ◌/◌, ◌%◌, ◌^◌, ◌≤◌, ◌<◌, min, max, String, ◌≡◌, refl, sym, ap, ◌∙◌,
  ◌≢◌, ◌↔◌, ◌⊎◌, inl, inr, Bool, true, false, not, ◌&&◌, ◌||◌, Option, none, some, List, [], ◌∷◌,
  ◌++◌, map, reverse, arith, eq_iff, ltb, leb, nat_beq, if◌then◌else◌, ltb→lt, lt→ltb, leb→le,
  nat_beq_iff, tests, Eq, ◌==◌, nat_eq, string_eq, Bool-cases, Option-cases, beq_refl, eq_of_beq,
  ne_of_beq, beq_of_ne, length, get_elem?, length-append, All-mem, Memᴰ, any, keep, All, All-append,
  All-map, lookup, insert, lookup-insert, lookup-insert_self, length-insert_new,
}
use miniflux.Base.Int.{
  ℤ, pos, negsuc, pos_part, neg_part, sub_ℕ, ◌+ℤ◌, ◌-ℤ◌, quot, rem, ◌≤ℤ◌, ◌<ℤ◌, ltb_ℤ, leb_ℤ, eqb_ℤ,
  +ℤ_parts, -ℤ_parts, eq_of_parts, int_laws,
}
use miniflux.Base.Results.{◌>>=◌}
use miniflux.Base.Numbers.{parse_int, decimal}
use miniflux.Model.Category.{Category}
use miniflux.Model.Feed.{Feed}
use miniflux.Model.Feed.Patch.{FeedModificationRequest, patch_feed}
use miniflux.GoogleReader.Reply.{Reply, ok, bad_request, server_error}
use miniflux.GoogleReader.Streams.{
  is_label, StreamType, label_stream, Stream, StreamError, get_stream, get_streams,
}
use miniflux.GoogleReader.FeedStore.{
  Storage, Failure, empty_feed_title, feed_not_found, category_not_found, other, new_title,
  new_category, reply_to,
}

module _ {Url : Type 0} (S : Storage Url) where
  open S use {State}

  -- getFeed, and the test of its nil.
  abbrev pub found : Option (Option (Feed Url)) → Failure ⊎ Feed Url
  found none = inl other
  found (some none) = inl feed_not_found
  found (some (some f)) = inr f

  abbrev pub feed_of : Option ℤ → State → Failure ⊎ Feed Url
  feed_of none st = inl other
  feed_of (some id) st = found (S.feed_by_id id st)

  unfoldable pub get_feed : Stream → State → Failure ⊎ Feed Url
  get_feed s st = feed_of (parse_int decimal s.id) st

  abbrev pub or_other {ℓ} : {A : Type ℓ} → Option A → Failure ⊎ A
  or_other none = inl other
  or_other (some a) = inr a

  abbrev pub nil_category : Option Category → State → Failure ⊎ (Category × State)
  nil_category none st = inl category_not_found
  nil_category (some c) st = inr (c, st)

  abbrev pub or_create : String → State → Option Category → Failure ⊎ (Category × State)
  or_create title st none = or_other (S.create_category title st)
  or_create title st (some c) = inr (c, st)

  -- getOrCreateCategory, and the test of its nil.
  unfoldable pub get_or_create_category : Stream → State → Failure ⊎ (Category × State)
  get_or_create_category label st =
      if label.id == ""
      then (or_other (S.first_category st) >>= λ c. nil_category c st)
      else (or_other (S.category_by_title label.id st) >>= or_create label.id st)

  -- An update, and the state after it, which is as before where it fails.
  abbrev pub saved : State → Option State → Option Failure × State
  saved st none = (some other, st)
  saved st (some st') = (none, st')

  abbrev pub rename_found : String → State → Failure ⊎ Feed Url → Option Failure × State
  rename_found title st (inl err) = (some err, st)
  rename_found title st (inr f) = saved st (S.update_feed (patch_feed (new_title title) f) st)

  -- The failure, if there is one, and the state.
  unfoldable pub rename : Stream → String → State → Option Failure × State
  unfolding get_feed patch_feed
  rename s title st =
      if title == "" then (some empty_feed_title, st) else rename_found title st (get_feed s st)

  abbrev pub move_into : Feed Url → State → Failure ⊎ (Category × State) → Option Failure × State
  move_into f st (inl err) = (some err, st)
  move_into f st (inr (c, st')) = saved st' (S.update_feed (patch_feed (new_category c.id) f) st')

  abbrev pub move_found : Stream → State → Failure ⊎ Feed Url → Option Failure × State
  move_found label st (inl err) = (some err, st)
  move_found label st (inr f) = move_into f st (get_or_create_category label st)

  unfoldable pub move : Stream → Stream → State → Option Failure × State
  unfolding get_feed get_or_create_category patch_feed
  move s label st = move_found label st (get_feed s st)

  abbrev pub feed_ids : List Stream → Failure ⊎ List ℤ
  feed_ids [] = inr []
  feed_ids (s ∷ streams) =
      or_other (parse_int decimal s.id) >>= λ id. feed_ids streams >>= λ ids. inr (id ∷ ids)

  abbrev pub remove_all : State → Failure ⊎ List ℤ → Option Failure × State
  remove_all st (inl err) = (some err, st)
  remove_all st (inr ids) = saved st (S.remove_multiple_feeds ids st)

  unfoldable pub unsubscribe : List Stream → State → Option Failure × State
  unsubscribe streams st = remove_all st (feed_ids streams)

  abbrev pub server_reply : Option Failure × State → Reply × State
  server_reply (none, st) = (ok, st)
  server_reply (some err, st) = (server_error, st)

  abbrev pub edit_reply : Option Failure × State → Reply × State
  edit_reply (none, st) = (ok, st)
  edit_reply (some err, st) = (reply_to err, st)

  -- The second half of the action "edit".
  abbrev pub then_move : Bool → Stream → Stream → Option Failure × State → Reply × State
  then_move has_label s label (some err, st) = (reply_to err, st)
  then_move has_label s label (none, st) =
      if has_label
      then (if is_label label.type then edit_reply (move s label st) else (bad_request, st))
      else (ok, st)

  unfoldable pub edit : Stream → String → Bool → Stream → State → Reply × State
  unfolding rename move
  edit s title has_label label st =
      then_move has_label s label (if title == "" then (none, st) else rename s title st)

  module _ (subscribe : Stream → Stream → String → State → Option Failure × State) where
    abbrev pub act : String → String → Bool → Stream → List Stream → Stream → State → Reply × State
    act action title has_label s streams label st =
        if action == "subscribe"
        then server_reply (subscribe s label title st)
        else if action == "unsubscribe"
        then server_reply (unsubscribe (s ∷ streams) st)
        else if action == "edit"
        then edit s title has_label label st
        else (bad_request, st)

    abbrev pub with_label :
        String → String → Bool → StreamError ⊎ Stream → Stream → List Stream → State → Reply × State
    with_label action title has_label (inl err) s streams st = (bad_request, st)
    with_label action title has_label (inr label) s streams st =
        act action title has_label s streams label st

    abbrev pub with_streams :
        String
        → String
        → Bool
        → StreamError ⊎ Stream
        → StreamError ⊎ List Stream
        → State
        → Reply × State
    with_streams action title has_label label (inl err) st = (bad_request, st)
    with_streams action title has_label label (inr []) st = (bad_request, st)
    with_streams action title has_label label (inr (s ∷ streams)) st =
        with_label action title has_label label s streams st

    -- editSubscriptionHandler: the form's streams, its tag to add and whether it has one, its title
    -- and its action.
    unfoldable pub edit_subscription :
        ℤ → List String → String → Bool → String → String → State → Reply × State
    unfolding unsubscribe edit
    edit_subscription user_id stream_ids add has_label title action st =
        with_streams action title has_label (get_stream add user_id)
          (get_streams stream_ids user_id) st

  abbrev pub titles_of : List Stream → Option (List String)
  titles_of [] = some []
  titles_of (s ∷ streams) =
      if is_label s.type
      then elim (titles_of streams) [ none ↦ none | some titles ↦ some (s.id ∷ titles) ]
      else none

  abbrev pub disable : Option (List String) → State → Reply × State
  disable none st = (bad_request, st)
  disable (some titles) st = server_reply (saved st (S.remove_categories titles st))

  abbrev pub disable_streams : StreamError ⊎ List Stream → State → Reply × State
  disable_streams (inl err) st = (bad_request, st)
  disable_streams (inr streams) st = disable (titles_of streams) st

  -- disableTagHandler
  unfoldable pub disable_tag : ℤ → List String → State → Reply × State
  disable_tag user_id stream_ids st = disable_streams (get_streams stream_ids user_id) st
