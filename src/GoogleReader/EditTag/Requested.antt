-- ===== src/GoogleReader/EditTag/Requested.antt =====
-- The entries that `editTagHandler` finds become what the tags ask.
use miniflux.Base.{
  ℕ, String, ◌≡◌, refl, ap, ◌∙◌, inr, Bool, true, false, Option, some, List, [], ◌∷◌, ◌++◌, ◌==◌,
  nat_eq, string_eq, any, keep, lookup,
}
use miniflux.Base.Int.{ℤ}
use miniflux.Model.Entry.{Entry, status_unread, status_read, status_removed}
use miniflux.Storage.EntryQuery.{EntryQueryBuilder}
use miniflux.Storage.Entries
use miniflux.Storage.Entries.{update, the_rows, set_starred}
use miniflux.Storage.Entries.Laws.{DistinctIds}
use miniflux.GoogleReader.Streams.{read_stream, starred_stream}
use miniflux.GoogleReader.Reply.{ok}
use miniflux.GoogleReader.Tags.{stream_type_eq, Tags}
use miniflux.GoogleReader.Items.{parse_item_ids}
use miniflux.GoogleReader.EditTag.{
  Write, set_status, set_bookmarked, Plan, no_plan, unless_empty, writes, plan_entries, carry_out,
  entries_query, edit_items,
}
use miniflux.GoogleReader.EditTag.Planned.{
  turns_read, turns_unread, turns_starred, turns_unstarred, filtered, plan_entries-filtered,
}
use miniflux.GoogleReader.EditTag.Effect.{
  apply_all, retag, status_rows, apply_all-append, status_write, star_write,
}
use miniflux.GoogleReader.EditTag.Halves.{each_row, kept_ids}

-- The four writes one after the other.
writes_effect :
    {Url : Type 0} (now user_id : ℕ) (plan : Plan Url) (rows : List (Entry Url))
    → apply_all now user_id (writes plan) rows
      ≡ update (the_rows user_id plan.starred_entry_ids) (set_starred now true) (
          update (the_rows user_id plan.unstarred_entry_ids) (set_starred now false) (
            update
              (status_rows now user_id plan.unread_entry_ids)
              (Entries.set_status now status_unread)
              (update
                (status_rows now user_id plan.read_entry_ids)
                (Entries.set_status now status_read)
                rows)))
unfolding writes
writes_effect now user_id plan rows =
    let first = unless_empty plan.read_entry_ids (set_status plan.read_entry_ids status_read) in
    let second =
      unless_empty plan.unread_entry_ids (set_status plan.unread_entry_ids status_unread) in
    let third =
      unless_empty plan.unstarred_entry_ids (set_bookmarked plan.unstarred_entry_ids false) in
    let fourth = unless_empty plan.starred_entry_ids (set_bookmarked plan.starred_entry_ids true) in
    apply_all-append now user_id (first ++ second ++ third) fourth rows
    ∙ star_write now user_id plan.starred_entry_ids true
        (apply_all now user_id (first ++ second ++ third) rows)
    ∙ ap (update (the_rows user_id plan.starred_entry_ids) (set_starred now true)) (
        apply_all-append now user_id (first ++ second) third rows
        ∙ star_write now user_id plan.unstarred_entry_ids false
            (apply_all now user_id (first ++ second) rows)
        ∙ ap (update (the_rows user_id plan.unstarred_entry_ids) (set_starred now false)) (
            apply_all-append now user_id first second rows
            ∙ status_write now user_id plan.unread_entry_ids status_unread
                (apply_all now user_id first rows)
            ∙ ap
                (update (status_rows now user_id plan.unread_entry_ids)
                  (Entries.set_status now status_unread))
                (status_write now user_id plan.read_entry_ids status_read rows)))

module _ {Url : Type 0} (now user_id : ℕ) (sel : Entry Url → Bool)
    (user : (e : Entry Url) → sel e ≡ true → (e.user_id == user_id) ≡ true)
    (present : (e : Entry Url) → sel e ≡ true → (e.status == status_removed) ≡ false) where
  plan_effect :
      (read starred : Option Bool) (rows : List (Entry Url))
      → DistinctIds rows
      → apply_all now user_id (writes (filtered read starred (keep sel rows))) rows
        ≡ update sel (retag now user_id read starred) rows
  plan_effect read starred rows distinct =
      let found = keep sel rows in
      let plan = filtered read starred found in
      let kept = λ (turns : Entry Url → Bool).
        kept_ids now user_id sel read starred [] [] [] [] user present turns rows distinct in
      writes_effect now user_id plan rows
      ∙ each_row now user_id sel read starred plan.read_entry_ids plan.unread_entry_ids
          plan.unstarred_entry_ids plan.starred_entry_ids user present rows (kept (turns_read read))
          (kept (turns_unread read)) (kept (turns_unstarred starred)) (kept (turns_starred starred))

  any_never :
      (fails : Write → Bool)
      → ((w : Write) → fails w ≡ false)
      → (ws : List Write) → any fails ws ≡ false
  any_never fails never [] = refl
  any_never fails never (w ∷ ws) = rw (never w, any_never fails never ws) refl

  carry_out-done :
      (fails : Write → Bool) (plan : Plan Url)
      → ((w : Write) → fails w ≡ false)
      → carry_out fails plan ≡ record { reply = ok; attempted = writes plan; sent = plan.to_send }
  unfolding carry_out
  carry_out-done fails plan never = rw (any_never fails never (writes plan)) refl

  -- Where no write fails, no two rows have an id in common and the query finds rows of the user
  -- that are not removed, the request is answered with OK and its writes change just these rows: the
  -- status and the star of each become what the accepted tags ask, and every other row stays as it
  -- is. The entries that are sent to the integrations are those that get their star.
  pub edit_items-update :
      (find : EntryQueryBuilder → Option (List (Entry Url))) (fails : Write → Bool) (user : ℤ)
      (tags : Tags) (items : List String) (ids : List ℤ) (rows : List (Entry Url))
      → ((w : Write) → fails w ≡ false)
      → DistinctIds rows
      → parse_item_ids items ≡ inr ids
      → find (entries_query user ids) ≡ some (keep sel rows)
      → (let run = edit_items find fails user tags items in
          let asked = lookup starred_stream tags in
          (run.reply ≡ ok)
          × (run.sent ≡ keep (turns_starred asked) (keep sel rows))
          × (apply_all now user_id run.attempted rows
              ≡ update sel (retag now user_id (lookup read_stream tags) asked) rows))
  unfolding edit_items
  edit_items-update find fails user tags items ids rows never distinct parsed found =
      rw
        (
          edit_items,
          parsed,
          found,
          carry_out-done fails (plan_entries tags (keep sel rows) no_plan) never,
          plan_entries-filtered tags (keep sel rows),
        )
        (
          refl,
          refl,
          plan_effect (lookup read_stream tags) (lookup starred_stream tags) rows distinct,
        )
