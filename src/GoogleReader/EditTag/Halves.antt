-- ===== src/GoogleReader/EditTag/Halves.antt =====
-- The four writes of `editTagHandler` at one entry.
use miniflux.Base.{
  ℕ, String, ◌≡◌, refl, ap, ◌∙◌, Bool, true, false, not, ◌&&◌, Option, none, some, List, [], ◌∷◌,
  arith, if◌then◌else◌, ◌==◌, nat_eq, string_eq, keep, All,
}
use miniflux.Model.Entry.{Entry, status_unread, status_read, status_removed}
use miniflux.Storage.Entries
use miniflux.Storage.Entries.{
  update, affects, has_id, the_rows, set_starred, set_entries_status, set_entries_bookmarked_state,
}
use miniflux.Storage.Entries.Laws.{ids_of, DistinctIds, keep-keep, has_id-kept}
use miniflux.GoogleReader.Tags.{stream_type_eq}
use miniflux.GoogleReader.EditTag.Planned.{turns_read, turns_unread, turns_starred, turns_unstarred}
use miniflux.GoogleReader.EditTag.Effect.{retag, retag_status, retag_star, status_rows}
use miniflux.Storage.Entries.Laws.{both}

chosen_status :
    (s t u h p : Bool)
    → (s ≡ true → u ≡ true)
    → (s ≡ true → p ≡ false)
    → h ≡ (s && t)
    → (u && h && not p) ≡ (s && t)
chosen_status s t u h p user present known = ground arith

chosen_star : (s t u h : Bool) → (s ≡ true → u ≡ true) → h ≡ (s && t) → (u && h) ≡ (s && t)
chosen_star s t u h user known = ground arith

module _ {Url : Type 0} (now user_id : ℕ) where
  abbrev one : (Entry Url → Bool) → (Entry Url → Entry Url) → Entry Url → Entry Url
  one chosen set e = if chosen e then set e else e

  -- Two steps, of which at most one is taken.
  two_steps :
      (s t t' : Bool) (first next : Entry Url → Bool) (set set' : Entry Url → Entry Url)
      (e : Entry Url)
      → first e ≡ (s && t)
      → next e ≡ (s && t')
      → next (set e) ≡ (s && t')
      → (t ≡ true → t' ≡ false)
      → one next set' (one first set e)
        ≡ (if s then (if t then set e else if t' then set' e else e) else e)
  two_steps false t t' first next set set' e f n n' apart = rw (f, n) refl
  two_steps true true t' first next set set' e f n n' apart = rw (f, n', apart refl) refl
  two_steps true false true first next set set' e f n n' apart = rw (f, n) refl
  two_steps true false false first next set set' e f n n' apart = rw (f, n) refl

  never_both_status :
      (read : Option Bool) (e : Entry Url) → turns_read read e ≡ true → turns_unread read e ≡ false
  never_both_status none e h = refl
  never_both_status (some true) e h = refl
  never_both_status (some false) e h = absurd (cc)

  never_both_star :
      (starred : Option Bool) (e : Entry Url)
      → turns_unstarred starred e ≡ true
      → turns_starred starred e ≡ false
  never_both_star none e h = refl
  never_both_star (some true) e h = absurd (cc)
  never_both_star (some false) e h = refl

  status_half :
      (s : Bool) (read : Option Bool) (to_read to_unread : List ℕ) (e : Entry Url)
      → (s ≡ true → (e.user_id == user_id) ≡ true)
      → (s ≡ true → (e.status == status_removed) ≡ false)
      → has_id to_read e ≡ (s && turns_read read e)
      → has_id to_unread e ≡ (s && turns_unread read e)
      → one
          (status_rows now user_id to_unread)
          (Entries.set_status now status_unread)
          (one (status_rows now user_id to_read) (Entries.set_status now status_read) e)
        ≡ (if s then retag_status now user_id read e else e)
  status_half s read to_read to_unread e user present r u =
      two_steps s (turns_read read e) (turns_unread read e) (status_rows now user_id to_read)
        (status_rows now user_id to_unread) (Entries.set_status now status_read)
        (Entries.set_status now status_unread) e (chosen_status s _ _ _ _ user present r)
        (chosen_status s _ _ _ _ user present u) (chosen_status s _ _ _ false user (λ h. refl) u)
        (never_both_status read e)

  star_half :
      (s : Bool) (starred : Option Bool) (to_unstar to_star : List ℕ) (e : Entry Url)
      → (s ≡ true → (e.user_id == user_id) ≡ true)
      → has_id to_unstar e ≡ (s && turns_unstarred starred e)
      → has_id to_star e ≡ (s && turns_starred starred e)
      → one
          (the_rows user_id to_star)
          (set_starred now true)
          (one (the_rows user_id to_unstar) (set_starred now false) e)
        ≡ (if s then retag_star now user_id starred e else e)
  star_half s starred to_unstar to_star e user n t =
      two_steps s (turns_unstarred starred e) (turns_starred starred e) (the_rows user_id to_unstar)
        (the_rows user_id to_star) (set_starred now false) (set_starred now true) e
        (chosen_star s _ _ _ user n) (chosen_star s _ _ _ user t) (chosen_star s _ _ _ user t)
        (never_both_star starred e)

  -- What holds of an entry whatever its status holds after its status is set.
  either_of :
      (P : Entry Url → Type 0) (t t' : Bool) {e f g : Entry Url}
      → P e
      → P f
      → P g
      → P (if t then f else if t' then g else e)
  either_of P true t' h r u = r
  either_of P false true h r u = u
  either_of P false false h r u = h

  any_status :
      (P : Entry Url → Type 0) (s : Bool) (read : Option Bool) (e : Entry Url)
      → P e
      → P (Entries.set_status now status_read e)
      → P (Entries.set_status now status_unread e)
      → P (if s then retag_status now user_id read e else e)
  any_status P false read e h r u = h
  any_status P true read e h r u = either_of P (turns_read read e) (turns_unread read e) h r u

  -- The star does not depend on the status.
  unstar_status :
      (status : String) (starred : Option Bool) (e : Entry Url)
      → turns_unstarred starred e ≡ turns_unstarred starred (Entries.set_status now status e)
  unstar_status status none e = refl
  unstar_status status (some b) e = refl

  star_status :
      (status : String) (starred : Option Bool) (e : Entry Url)
      → turns_starred starred e ≡ turns_starred starred (Entries.set_status now status e)
  star_status status none e = refl
  star_status status (some b) e = refl

  if_twice :
      (s : Bool) (starred : Option Bool) (e f : Entry Url)
      → (if s then retag_star now user_id starred (if s then f else e) else (if s then f else e))
        ≡ (if s then retag_star now user_id starred f else e)
  if_twice true starred e f = refl
  if_twice false starred e f = refl

  module _ (sel : Entry Url → Bool) (read starred : Option Bool)
      (to_read to_unread to_unstar to_star : List ℕ)
      (user : (e : Entry Url) → sel e ≡ true → (e.user_id == user_id) ≡ true)
      (present : (e : Entry Url) → sel e ≡ true → (e.status == status_removed) ≡ false) where
    first_two : Entry Url → Entry Url
    first_two e =
        one (status_rows now user_id to_unread) (Entries.set_status now status_unread)
          (one (status_rows now user_id to_read) (Entries.set_status now status_read) e)

    all_four :
        (e : Entry Url)
        → has_id to_read e ≡ (sel e && turns_read read e)
        → has_id to_unread e ≡ (sel e && turns_unread read e)
        → has_id to_unstar e ≡ (sel e && turns_unstarred starred e)
        → has_id to_star e ≡ (sel e && turns_starred starred e)
        → one
            (the_rows user_id to_star)
            (set_starred now true)
            (one (the_rows user_id to_unstar) (set_starred now false) (first_two e))
          ≡ (if sel e then retag now user_id read starred e else e)
    unfolding first_two
    all_four e r u n t =
        let star =
          λ (f : Entry Url) (of_user : sel e ≡ true → (f.user_id == user_id) ≡ true)
              (n' : has_id to_unstar f ≡ (sel e && turns_unstarred starred f))
              (t' : has_id to_star f ≡ (sel e && turns_starred starred f)).
            star_half (sel e) starred to_unstar to_star f of_user n' t' in
        ap
          (λ f.
            one (the_rows user_id to_star) (set_starred now true)
              (one (the_rows user_id to_unstar) (set_starred now false) f))
          (status_half (sel e) read to_read to_unread e (user e) (present e) r u)
        ∙ any_status
            (λ f.
              one (the_rows user_id to_star) (set_starred now true)
                (one (the_rows user_id to_unstar) (set_starred now false) f)
              ≡ (if sel e then retag_star now user_id starred f else f))
            (sel e) read e (star e (user e) n t)
            (star (Entries.set_status now status_read e) (user e)
              (n ∙ ap (λ b. sel e && b) (unstar_status status_read starred e))
              (t ∙ ap (λ b. sel e && b) (star_status status_read starred e)))
            (star (Entries.set_status now status_unread e) (user e)
              (n ∙ ap (λ b. sel e && b) (unstar_status status_unread starred e))
              (t ∙ ap (λ b. sel e && b) (star_status status_unread starred e)))
        ∙ if_twice (sel e) starred e (retag_status now user_id read e)

    pub each_row :
        (rows : List (Entry Url))
        → All (λ e. has_id to_read e ≡ (sel e && turns_read read e)) rows
        → All (λ e. has_id to_unread e ≡ (sel e && turns_unread read e)) rows
        → All (λ e. has_id to_unstar e ≡ (sel e && turns_unstarred starred e)) rows
        → All (λ e. has_id to_star e ≡ (sel e && turns_starred starred e)) rows
        → update (the_rows user_id to_star) (set_starred now true) (
            update (the_rows user_id to_unstar) (set_starred now false) (
              update (status_rows now user_id to_unread) (Entries.set_status now status_unread) (
                update
                  (status_rows now user_id to_read)
                  (Entries.set_status now status_read)
                  rows)))
          ≡ update sel (retag now user_id read starred) rows
    unfolding first_two
    each_row [] r u n t = refl
    each_row (e ∷ rows) (r, rs) (u, us) (n, ns) (t, ts) =
        (λ i. all_four e r u n t i ∷ each_row rows rs us ns ts i)

    pub kept_ids :
        (turns : Entry Url → Bool) (rows : List (Entry Url))
        → DistinctIds rows
        → All (λ e. has_id (ids_of (keep turns (keep sel rows))) e ≡ (sel e && turns e)) rows
    kept_ids turns rows distinct =
        rw (keep-keep sel turns rows) (has_id-kept (both sel turns) rows distinct)
