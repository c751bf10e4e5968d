-- ===== src/GoogleReader/EditTag/Effect.antt =====
-- What the writes of `editTagHandler` leave in the table of entries. One instant stands for the times
-- of all the writes.
use miniflux.Base.{
  ℕ, String, ◌≡◌, refl, sym, Bool, true, false, not, ◌&&◌, Option, none, some, List, [], ◌∷◌, ◌++◌,
  arith, if◌then◌else◌, ◌==◌, nat_eq, string_eq,
}
use miniflux.Model.Entry.{Entry, status_unread, status_read, status_removed}
use miniflux.Storage.Entries
use miniflux.Storage.Entries.{
  update, affects, has_id, the_rows, set_starred, set_entries_status, set_entries_bookmarked_state,
}
use miniflux.Storage.Entries.Laws.{untouched}
use miniflux.GoogleReader.Tags.{stream_type_eq}
use miniflux.GoogleReader.EditTag.{Write, set_status, set_bookmarked, unless_empty}
use miniflux.GoogleReader.EditTag.Planned.{turns_read, turns_unread, turns_starred, turns_unstarred}

module _ {Url : Type 0} (now user_id : ℕ) where
  -- One write.
  abbrev pub apply : Write → List (Entry Url) → List (Entry Url)
  apply (set_status ids status) rows = set_entries_status now user_id ids status rows
  apply (set_bookmarked ids starred) rows =
      elim (set_entries_bookmarked_state now user_id ids starred rows) [
        | none ↦ rows
        | some rows' ↦ rows'
      ]

  abbrev pub apply_all : List Write → List (Entry Url) → List (Entry Url)
  apply_all [] rows = rows
  apply_all (w ∷ ws) rows = apply_all ws (apply w rows)

  -- An entry after its status, or its star, is what the wish says.
  abbrev pub retag_status : Option Bool → Entry Url → Entry Url
  retag_status read e =
      if turns_read read e
      then Entries.set_status now status_read e
      else if turns_unread read e
      then Entries.set_status now status_unread e
      else e

  abbrev pub retag_star : Option Bool → Entry Url → Entry Url
  retag_star starred e =
      if turns_unstarred starred e
      then set_starred now false e
      else if turns_starred starred e
      then set_starred now true e
      else e

  abbrev pub retag : Option Bool → Option Bool → Entry Url → Entry Url
  retag read starred e = retag_star starred (retag_status read e)

  pub apply_all-append :
      (ws vs : List Write) (rows : List (Entry Url))
      → apply_all (ws ++ vs) rows ≡ apply_all vs (apply_all ws rows)
  apply_all-append [] vs rows = refl
  apply_all-append (w ∷ ws) vs rows = apply_all-append ws vs (apply w rows)

  -- The rows that a write of a status chooses.
  abbrev pub status_rows : List ℕ → Entry Url → Bool
  status_rows ids e = e.user_id == user_id && has_id ids e && not (e.status == status_removed)

  chooses_none :
      (chosen : Entry Url → Bool) (set : Entry Url → Entry Url)
      → ((e : Entry Url) → chosen e ≡ false)
      → (rows : List (Entry Url)) → update chosen set rows ≡ rows
  chooses_none chosen set nobody [] = refl
  chooses_none chosen set nobody (e ∷ rows) =
      rw (nobody e, chooses_none chosen set nobody rows) refl

  pub status_write :
      (ids : List ℕ) (status : String) (rows : List (Entry Url))
      → apply_all (unless_empty ids (set_status ids status)) rows
        ≡ update (status_rows ids) (Entries.set_status now status) rows
  unfolding set_entries_status
  status_write [] status rows =
      sym (chooses_none (status_rows []) (Entries.set_status now status) (λ e. ground arith) rows)
  status_write (id ∷ ids) status rows = refl

  or_same :
      (b : Bool) (rows rows' : List (Entry Url))
      → (b ≡ false → rows' ≡ rows)
      → (elim (if b then some rows' else none) as (λ r. List (Entry Url)) [
        | none ↦ rows
        | some r ↦ r
      ])
        ≡ rows'
  or_same true rows rows' h = refl
  or_same false rows rows' h = sym (h refl)

  pub star_write :
      (ids : List ℕ) (starred : Bool) (rows : List (Entry Url))
      → apply_all (unless_empty ids (set_bookmarked ids starred)) rows
        ≡ update (the_rows user_id ids) (set_starred now starred) rows
  unfolding set_entries_bookmarked_state
  star_write [] starred rows =
      sym (chooses_none (the_rows user_id []) (set_starred now starred) (λ e. ground arith) rows)
  star_write (id ∷ ids) starred rows =
      or_same (affects (the_rows user_id (id ∷ ids)) rows) rows _
        (untouched (the_rows user_id (id ∷ ids)) (set_starred now starred) rows)
