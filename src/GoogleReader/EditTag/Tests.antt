-- ===== src/GoogleReader/EditTag/Tests.antt =====
-- A request that edits tags.
use miniflux.Base.{
  String, ◌≡◌, refl, inr, Bool, true, false, not, ◌&&◌, Option, some, List, [], ◌∷◌, arith, ◌==◌,
  nat_eq, string_eq, keep, lookup,
}
use miniflux.Base.Int.{pos}
use miniflux.Base.Text.{has_prefix, cut_prefix, byte_length}
use miniflux.Base.Numbers.{parse_int, parse_digits, scan_digits, decimal_value}
use miniflux.Model.Entry.{Entry, status_removed}
use miniflux.Model.Samples.{blank_entry}
use miniflux.Storage.EntryQuery.{EntryQueryBuilder}
use miniflux.Storage.Entries.{update}
use miniflux.GoogleReader.Reply.{ok}
use miniflux.GoogleReader.Streams.{read_stream, starred_stream}
use miniflux.GoogleReader.Tags.{stream_type_eq, Tags}
use miniflux.GoogleReader.Items.{parse_item_id, parse_item_ids}
use miniflux.GoogleReader.EditTag.{
  Write, set_status, set_bookmarked, writes, plan_entries, plan_status, plan_star, carry_out,
  edit_items,
}
use miniflux.GoogleReader.EditTag.Planned.{turns_starred}
use miniflux.GoogleReader.EditTag.Effect.{apply_all, retag}
use miniflux.GoogleReader.EditTag.Requested.{edit_items-update}

-- An unread entry, a read one with a star, and a removed one.
abbrev rows : List (Entry String)
rows =
    record blank_entry { id = 4 }
    ∷ record blank_entry { id = 5; status = "read"; starred = true }
    ∷ record blank_entry { id = 6; status = "removed" }
    ∷ []

abbrev mine : Entry String → Bool
mine e = e.user_id == 1 && not (e.status == status_removed)

abbrev find : EntryQueryBuilder → Option (List (Entry String))
find query = some (keep mine rows)

abbrev fails : Write → Bool
fails w = false

abbrev star_and_read : Tags
star_and_read = (read_stream, true) ∷ (starred_stream, true) ∷ []

both_ids : parse_item_ids ("4" ∷ "5" ∷ []) ≡ inr (pos 4 ∷ pos 5 ∷ [])
unfolding parse_item_ids parse_item_id has_prefix cut_prefix byte_length parse_int parse_digits
    scan_digits decimal_value
both_ids = refl

starred_one : edit_items find fails (pos 1) star_and_read ("4" ∷ "5" ∷ []) ≡ record {
  reply = ok;
  attempted = set_status (4 ∷ []) "read" ∷ set_bookmarked (4 ∷ []) true ∷ [];
  sent = record blank_entry { id = 4 } ∷ [];
}
unfolding edit_items carry_out plan_entries plan_status plan_star writes lookup
starred_one = rw (edit_items, both_ids) refl

is_mine : (e : Entry String) → mine e ≡ true → (e.user_id == 1) ≡ true
is_mine e h = ground arith

is_there : (e : Entry String) → mine e ≡ true → (e.status == status_removed) ≡ false
is_there e h = ground arith

edit_items-update_example :
    let run = edit_items find fails (pos 1) star_and_read ("4" ∷ "5" ∷ []) in
    let asked = lookup starred_stream star_and_read in
    (run.reply ≡ ok)
    × (run.sent ≡ keep (turns_starred asked) (keep mine rows))
    × (apply_all 9 1 run.attempted rows
        ≡ update mine (retag 9 1 (lookup read_stream star_and_read) asked) rows)
edit_items-update_example =
    edit_items-update 9 1 mine is_mine is_there find fails (pos 1) star_and_read ("4" ∷ "5" ∷ [])
      (pos 4 ∷ pos 5 ∷ []) rows (λ w. refl) (refl, (refl, (refl, tt))) both_ids refl
