-- ===== src/GoogleReader/EditTag/Planned.antt =====
-- The loop of `editTagHandler` against its description by filters.
use mathlib.Core.List.{append_assoc, append-nil}
use miniflux.Base.{
  String, ◌≡◌, refl, sym, ap, Bool, true, false, not, ◌&&◌, Option, none, some, List, [], ◌∷◌, ◌++◌,
  arith, if◌then◌else◌, ◌==◌, nat_eq, string_eq, eq_of_beq, keep, lookup,
}
use miniflux.Model.Entry.{Entry, status_unread, status_read}
use miniflux.Storage.Entries.Laws.{ids_of}
use miniflux.GoogleReader.Streams.{read_stream, starred_stream}
use miniflux.GoogleReader.Tags.{stream_type_eq, Tags}
use miniflux.GoogleReader.EditTag.{Plan, no_plan, plan_status, plan_star, plan_entries}

statuses_apart : (s : String) → (s == status_read) ≡ true → (s == status_unread) ≡ false
statuses_apart s h = rw (eq_of_beq s status_read h) refl

module _ {Url : Type 0} where
  -- The entries whose status or star a wish changes.
  abbrev pub turns_read : Option Bool → Entry Url → Bool
  turns_read none e = false
  turns_read (some mark_read) e = mark_read && e.status == status_unread

  abbrev pub turns_unread : Option Bool → Entry Url → Bool
  turns_unread none e = false
  turns_unread (some mark_read) e = not mark_read && e.status == status_read

  abbrev pub turns_starred : Option Bool → Entry Url → Bool
  turns_starred none e = false
  turns_starred (some mark_starred) e = mark_starred && not e.starred

  abbrev pub turns_unstarred : Option Bool → Entry Url → Bool
  turns_unstarred none e = false
  turns_unstarred (some mark_starred) e = not mark_starred && e.starred

  module _ (read starred : Option Bool) (entries : List (Entry Url)) where
    -- The plan for the wishes.
    abbrev pub filtered : Plan Url
    filtered = record {
      read_entry_ids = ids_of (keep (turns_read read) entries);
      unread_entry_ids = ids_of (keep (turns_unread read) entries);
      starred_entry_ids = ids_of (keep (turns_starred starred) entries);
      unstarred_entry_ids = ids_of (keep (turns_unstarred starred) entries);
      to_send = keep (turns_starred starred) entries;
    }

  -- One plan after another.
  abbrev together : Plan Url → Plan Url → Plan Url
  together p q = record {
    read_entry_ids = p.read_entry_ids ++ q.read_entry_ids;
    unread_entry_ids = p.unread_entry_ids ++ q.unread_entry_ids;
    starred_entry_ids = p.starred_entry_ids ++ q.starred_entry_ids;
    unstarred_entry_ids = p.unstarred_entry_ids ++ q.unstarred_entry_ids;
    to_send = p.to_send ++ q.to_send;
  }

  together_assoc : (p q r : Plan Url) → together (together p q) r ≡ together p (together q r)
  together_assoc p q r =
      rw
        (
          append_assoc p.read_entry_ids q.read_entry_ids r.read_entry_ids,
          append_assoc p.unread_entry_ids q.unread_entry_ids r.unread_entry_ids,
          append_assoc p.starred_entry_ids q.starred_entry_ids r.starred_entry_ids,
          append_assoc p.unstarred_entry_ids q.unstarred_entry_ids r.unstarred_entry_ids,
          append_assoc p.to_send q.to_send r.to_send,
        )
        refl

  together_nothing : (p : Plan Url) → together p no_plan ≡ p
  together_nothing p =
      rw
        (
          append-nil p.read_entry_ids,
          append-nil p.unread_entry_ids,
          append-nil p.starred_entry_ids,
          append-nil p.unstarred_entry_ids,
          append-nil p.to_send,
        )
        refl

  status_step :
      (read : Option Bool) (e : Entry Url) (plan : Plan Url)
      → plan_status read e plan ≡ together plan (filtered read none (e ∷ []))
  unfolding plan_status
  status_step none e plan = sym (together_nothing plan)
  status_step (some true) e plan = ground (
    arith,
    append-nil plan.read_entry_ids,
    append-nil plan.unread_entry_ids,
    append-nil plan.starred_entry_ids,
    append-nil plan.unstarred_entry_ids,
    append-nil plan.to_send,
    statuses_apart e.status,
  )
  status_step (some false) e plan = ground (
    arith,
    append-nil plan.read_entry_ids,
    append-nil plan.unread_entry_ids,
    append-nil plan.starred_entry_ids,
    append-nil plan.unstarred_entry_ids,
    append-nil plan.to_send,
    statuses_apart e.status,
  )

  star_step :
      (starred : Option Bool) (e : Entry Url) (plan : Plan Url)
      → plan_star starred e plan ≡ together plan (filtered none starred (e ∷ []))
  unfolding plan_star
  star_step none e plan = sym (together_nothing plan)
  star_step (some true) e plan = ground (
    arith,
    append-nil plan.read_entry_ids,
    append-nil plan.unread_entry_ids,
    append-nil plan.starred_entry_ids,
    append-nil plan.unstarred_entry_ids,
    append-nil plan.to_send,
  )
  star_step (some false) e plan = ground (
    arith,
    append-nil plan.read_entry_ids,
    append-nil plan.unread_entry_ids,
    append-nil plan.starred_entry_ids,
    append-nil plan.unstarred_entry_ids,
    append-nil plan.to_send,
  )

  one_step :
      (read starred : Option Bool) (e : Entry Url)
      → together (filtered read none (e ∷ [])) (filtered none starred (e ∷ []))
        ≡ filtered read starred (e ∷ [])
  one_step read starred e =
      rw
        (
          append-nil (ids_of (if turns_read read e then e ∷ [] else [])),
          append-nil (ids_of (if turns_unread read e then e ∷ [] else [])),
        )
        refl

  status_then_star :
      (read starred : Option Bool) (e : Entry Url) (plan : Plan Url)
      → plan_star starred e (plan_status read e plan)
        ≡ together plan (filtered read starred (e ∷ []))
  unfolding plan_star plan_status
  status_then_star read starred e plan =
      rw
        (
          status_step read e plan,
          star_step starred e (together plan (filtered read none (e ∷ []))),
          together_assoc plan (filtered read none (e ∷ [])) (filtered none starred (e ∷ [])),
        )
        (ap (together plan) (one_step read starred e))

  entries-cons :
      (b : Bool) (e : Entry Url) (rest : List (Entry Url))
      → (if b then e ∷ [] else []) ++ rest ≡ (if b then e ∷ rest else rest)
  entries-cons true e rest = refl
  entries-cons false e rest = refl

  ids-cons :
      (b : Bool) (e : Entry Url) (rest : List (Entry Url))
      → ids_of (if b then e ∷ [] else []) ++ ids_of rest ≡ ids_of (if b then e ∷ rest else rest)
  ids-cons true e rest = refl
  ids-cons false e rest = refl

  filtered-cons :
      (read starred : Option Bool) (e : Entry Url) (entries : List (Entry Url))
      → together (filtered read starred (e ∷ [])) (filtered read starred entries)
        ≡ filtered read starred (e ∷ entries)
  filtered-cons read starred e entries =
      let ids = λ (p : Entry Url → Bool). ids-cons (p e) e (keep p entries) in
      rw
        (
          ids (turns_read read),
          ids (turns_unread read),
          ids (turns_starred starred),
          ids (turns_unstarred starred),
          entries-cons (turns_starred starred e) e (keep (turns_starred starred) entries),
        )
        refl

  plan_from :
      (tags : Tags) (entries : List (Entry Url)) (plan : Plan Url)
      → plan_entries tags entries plan
        ≡ together plan (filtered (lookup read_stream tags) (lookup starred_stream tags) entries)
  unfolding plan_entries
  plan_from tags [] plan = sym (together_nothing plan)
  plan_from tags (e ∷ entries) plan =
      let read = lookup read_stream tags in
      let starred = lookup starred_stream tags in
      rw
        (
          status_then_star read starred e plan,
          plan_from tags entries (together plan (filtered read starred (e ∷ []))),
          together_assoc plan (filtered read starred (e ∷ [])) (filtered read starred entries),
        )
        (ap (together plan) (filtered-cons read starred e entries))

  -- The loop sorts the entries by what the tags change, in order: into the ids of the unread ones
  -- to be read, of the read ones to be unread, of those without a star to be starred, and of the
  -- starred ones to lose the star. The entries that are starred are the ones to send on.
  pub plan_entries-filtered :
      (tags : Tags) (entries : List (Entry Url))
      → plan_entries tags entries no_plan
        ≡ filtered (lookup read_stream tags) (lookup starred_stream tags) entries
  plan_entries-filtered tags entries = plan_from tags entries no_plan
