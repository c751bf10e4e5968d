-- ===== src/GoogleReader/EditTag.antt =====
-- internal/googlereader/handler.go: `editTagHandler`. `find` is the query of the database, `none` where
-- it fails; `fails` tells whether a write of the database fails. The logger is left out.
pub mod Planned
pub mod Effect
pub mod Halves
pub mod Requested
mod Tests
use miniflux.Base.{
  ℕ, zero, suc, ◌+◌, ◌-◌, ◌*◌, ◌/◌, ◌%◌, ◌^◌, ◌≤◌, ◌<◌, min, max, String, ◌≡◌, refl, sym, ap, ◌∙◌,
  ◌≢◌, ◌↔◌, ◌⊎◌, inl, inr, Bool, true, false, not, ◌&&◌, ◌||◌, Option, none, some, List, [], ◌∷◌,
  ◌++◌, map, reverse, arith, eq_iff, ltb, leb, nat_beq, if◌then◌else◌, ltb→lt, lt→ltb, leb→le,
  nat_beq_iff, tests, Eq, ◌==◌, nat_eq, string_eq, Bool-cases, Option-cases, beq_refl, eq_of_beq,
  ne_of_beq, beq_of_ne, length, get_elem?, length-append, All-mem, Memᴰ, any, keep, All, All-append,
  All-map, lookup, insert, lookup-insert, lookup-insert_self, length-insert_new,
}
use miniflux.Base.Int.{
  ℤ, pos, negsuc, pos_part, neg_part, sub_ℕ, ◌+ℤ◌, ◌-ℤ◌, quot, rem, ◌≤ℤ◌, ◌<ℤ◌, ltb_ℤ, leb_ℤ, eqb_ℤ,
  +ℤ_parts, -ℤ_parts, eq_of_parts, int_laws,
}
use miniflux.Model.Entry.{Entry, status_unread, status_read, status_removed}
use miniflux.Storage.EntryQuery.{EntryQueryBuilder, new_entry_query_builder}
use miniflux.Storage.EntryQuery.Methods.{with_entry_ids, without_status}
use miniflux.GoogleReader.Reply.{Reply, ok, bad_request, server_error}
use miniflux.GoogleReader.Streams.{StreamType, read_stream, starred_stream, Stream, get_streams}
use miniflux.GoogleReader.Tags.{stream_type_eq, Tags, check_and_simplify_tags}
use miniflux.GoogleReader.Items.{parse_item_ids}

-- The calls of SetEntriesStatus and SetEntriesBookmarkedState.
pub data Write : Type 0 where
  set_status : List ℕ → String → Write
  set_bookmarked : List ℕ → Bool → Write

-- The four lists of ids, and `entries[:n]`.
pub record Plan (Url : Type 0) : Type 0 where
  pub read_entry_ids : List ℕ
  pub unread_entry_ids : List ℕ
  pub starred_entry_ids : List ℕ
  pub unstarred_entry_ids : List ℕ
  pub to_send : List (Entry Url)

abbrev pub no_plan : {Url : Type 0} → Plan Url
no_plan = record {
  read_entry_ids = [];
  unread_entry_ids = [];
  starred_entry_ids = [];
  unstarred_entry_ids = [];
  to_send = [];
}

-- A write, where there is something to write.
abbrev pub unless_empty : List ℕ → Write → List Write
unless_empty [] w = []
unless_empty (id ∷ ids) w = w ∷ []

-- What a request did: its reply, the writes that it attempted, and the entries sent to the integrations.
pub record Outcome (Url : Type 0) : Type 0 where
  pub reply : Reply
  pub attempted : List Write
  pub sent : List (Entry Url)

-- The entries of the ids, of those that are not removed.
unfoldable pub entries_query : ℤ → List ℤ → EntryQueryBuilder
unfolding with_entry_ids without_status new_entry_query_builder
entries_query user_id item_ids =
    without_status status_removed (with_entry_ids item_ids (new_entry_query_builder user_id))

module _ {Url : Type 0} where
  -- The switch on the status of an entry.
  unfoldable pub plan_status : Option Bool → Entry Url → Plan Url → Plan Url
  plan_status none e plan = plan
  plan_status (some mark_read) e plan =
      if e.status == status_unread
      then (if mark_read
          then record plan { read_entry_ids = plan.read_entry_ids ++ e.id ∷ [] }
          else plan)
      else if e.status == status_read
      then (if mark_read
          then plan
          else record plan { unread_entry_ids = plan.unread_entry_ids ++ e.id ∷ [] })
      else plan

  -- The switch on the star of an entry.
  unfoldable pub plan_star : Option Bool → Entry Url → Plan Url → Plan Url
  plan_star none e plan = plan
  plan_star (some mark_starred) e plan =
      if e.starred
      then (if mark_starred
          then plan
          else record plan { unstarred_entry_ids = plan.unstarred_entry_ids ++ e.id ∷ [] })
      else if mark_starred
      then record plan {
        starred_entry_ids = plan.starred_entry_ids ++ e.id ∷ [];
        to_send = plan.to_send ++ e ∷ [];
      }
      else plan

  -- The loop over the entries.
  unfoldable pub plan_entries : Tags → List (Entry Url) → Plan Url → Plan Url
  unfolding plan_status plan_star lookup
  plan_entries tags [] plan = plan
  plan_entries tags (e ∷ entries) plan =
      plan_entries tags entries
        (plan_star (lookup starred_stream tags) e (plan_status (lookup read_stream tags) e plan))

  -- The writes of the error group, which are made at once. Each is attempted, and the first that
  -- fails cancels the others that are not done, so that after a failure some of them are made.
  unfoldable pub writes : Plan Url → List Write
  writes plan =
      unless_empty plan.read_entry_ids (set_status plan.read_entry_ids status_read)
      ++ unless_empty plan.unread_entry_ids (set_status plan.unread_entry_ids status_unread)
      ++ unless_empty plan.unstarred_entry_ids (set_bookmarked plan.unstarred_entry_ids false)
      ++ unless_empty plan.starred_entry_ids (set_bookmarked plan.starred_entry_ids true)

  abbrev pub refused : Reply → Outcome Url
  refused reply = record { reply = reply; attempted = []; sent = [] }

  unfoldable pub carry_out : (Write → Bool) → Plan Url → Outcome Url
  unfolding writes
  carry_out fails plan =
      if any fails (writes plan)
      then record { reply = server_error; attempted = writes plan; sent = [] }
      else record { reply = ok; attempted = writes plan; sent = plan.to_send }

  module _ (find : EntryQueryBuilder → Option (List (Entry Url))) (fails : Write → Bool) where
    -- From the accepted tags on.
    unfoldable pub edit_items : ℤ → Tags → List String → Outcome Url
    unfolding carry_out plan_entries entries_query
    edit_items user_id tags items = elim (parse_item_ids items) [
      | inl err ↦ refused bad_request
      | inr item_ids ↦ elim (find (entries_query user_id item_ids)) [
        | none ↦ refused server_error
        | some entries ↦ carry_out fails (plan_entries tags entries no_plan)
      ]
    ]

    unfoldable pub edit_streams : ℤ → List Stream → List Stream → List String → Outcome Url
    unfolding edit_items
    edit_streams user_id added removed items =
        if length added == 0 && length removed == 0
        then refused server_error
        else elim (check_and_simplify_tags added removed) [
          | inl err ↦ refused server_error
          | inr tags ↦ edit_items user_id tags items
        ]

    -- editTagHandler, from whether the form parses, the tags to add and to remove, and the items.
    unfoldable pub edit_tag : Bool → ℤ → List String → List String → List String → Outcome Url
    unfolding edit_streams
    edit_tag form_parses user_id add remove items =
        if form_parses
        then elim (get_streams add user_id) [
          | inl err ↦ refused server_error
          | inr added ↦ elim (get_streams remove user_id) [
            | inl err ↦ refused server_error
            | inr removed ↦ edit_streams user_id added removed items
          ]
        ]
        else refused server_error
