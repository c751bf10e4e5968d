-- ===== src/Storage/Entries/Laws.antt =====
-- Updates of a table whose rows have distinct ids.
use miniflux.Base.{
  ℕ, ◌≡◌, refl, Bool, true, false, ◌&&◌, List, [], ◌∷◌, arith, if◌then◌else◌, nat_beq_iff, ◌==◌,
  nat_eq, string_eq, beq_refl, keep, All,
}
use miniflux.Base.Int.{ℤ}
use miniflux.Model.Entry.{Entry, status_read}
use miniflux.Storage.Entries.{
  update, affects, set_status, has_id, unread_in_feed, mark_feed_as_read,
}

module _ {Url : Type 0} where
  abbrev pub ids_of : List (Entry Url) → List ℕ
  ids_of [] = []
  ids_of (e ∷ rows) = e.id ∷ ids_of rows

  -- No two rows have an id in common.
  abbrev pub DistinctIds : List (Entry Url) → Type 0
  DistinctIds [] = Unit
  DistinctIds (e ∷ rows) = (has_id (ids_of rows) e ≡ false) × DistinctIds rows

  abbrev pub both : (Entry Url → Bool) → (Entry Url → Bool) → Entry Url → Bool
  both p q e = p e && q e

  pub keep-keep :
      (p q : Entry Url → Bool) (rows : List (Entry Url))
      → keep q (keep p rows) ≡ keep (both p q) rows
  keep-keep p q [] = refl
  keep-keep p q (e ∷ rows) = ground (arith, keep-keep p q rows)

  -- An id that no row has, no row that is kept has.
  has_id-keep :
      (p : Entry Url → Bool) (e : Entry Url) (rows : List (Entry Url))
      → has_id (ids_of rows) e ≡ false
      → has_id (ids_of (keep p rows)) e ≡ false
  has_id-keep p e [] h = refl
  has_id-keep p e (f ∷ rows) h = ground (arith, has_id-keep p e rows)

  apart :
      (e : Entry Url) (rows : List (Entry Url))
      → has_id (ids_of rows) e ≡ false
      → All (λ f. (e.id == f.id) ≡ false) rows
  apart e [] h = tt
  apart e (f ∷ rows) h = (ground (arith, nat_beq_iff e.id f.id), apart e rows (ground arith))

  -- The id of another row makes no difference.
  unaffected :
      (p : Entry Url → Bool) (e : Entry Url) (ids : List ℕ) (rows : List (Entry Url))
      → All (λ f. (e.id == f.id) ≡ false) rows
      → All (λ f. has_id ids f ≡ p f) rows
      → All (λ f. has_id (e.id ∷ ids) f ≡ p f) rows
  unaffected p e ids [] h k = tt
  unaffected p e ids (f ∷ rows) (other, h) (first, k) =
      (rw other first, unaffected p e ids rows h k)

  with_head :
      (p : Entry Url → Bool) (e : Entry Url) (kept : Bool) (back rows : List (Entry Url))
      → All (λ f. (e.id == f.id) ≡ false) rows
      → All (λ f. has_id (ids_of back) f ≡ p f) rows
      → All (λ f. has_id (ids_of (if kept then e ∷ back else back)) f ≡ p f) rows
  with_head p e true back rows h k = unaffected p e (ids_of back) rows h k
  with_head p e false back rows h k = k

  -- Where ids are distinct, the ids of the rows kept are those of the rows that pass.
  pub has_id-kept :
      (p : Entry Url → Bool) (rows : List (Entry Url))
      → DistinctIds rows
      → All (λ e. has_id (ids_of (keep p rows)) e ≡ p e) rows
  has_id-kept p [] h = tt
  has_id-kept p (e ∷ rows) (new, distinct) = (
    ground (arith, has_id-keep p e rows new, beq_refl e.id),
    with_head p e (p e) (keep p rows) rows (apart e rows new) (has_id-kept p rows distinct),
  )

  -- An update that undoes its own condition finds nothing more to do.
  again :
      (chosen : Entry Url → Bool) (set : Entry Url → Entry Url)
      → ((e : Entry Url) → chosen (set e) ≡ false)
      → (rows : List (Entry Url)) → affects chosen (update chosen set rows) ≡ false
  again chosen set undoes [] = refl
  again chosen set undoes (e ∷ rows) = ground (arith, undoes e, again chosen set undoes rows)

  pub untouched :
      (chosen : Entry Url → Bool) (set : Entry Url → Entry Url) (rows : List (Entry Url))
      → affects chosen rows ≡ false
      → update chosen set rows ≡ rows
  untouched chosen set [] h = refl
  untouched chosen set (e ∷ rows) h = ground (arith, untouched chosen set rows)

  -- A feed that was marked as read has nothing left to mark: the same call, at any later time,
  -- changes no row and answers that no row was affected.
  pub mark_feed_as_read-again :
      (now later user_id before : ℕ) (feed_id : ℤ) (rows : List (Entry Url))
      → mark_feed_as_read later user_id feed_id before
          (mark_feed_as_read now user_id feed_id before rows).0
        ≡ ((mark_feed_as_read now user_id feed_id before rows).0, false)
  unfolding mark_feed_as_read
  mark_feed_as_read-again now later user_id before feed_id rows =
      let chosen : Entry Url → Bool = unread_in_feed user_id feed_id before in
      let nothing = again chosen (set_status now status_read) (λ e. ground arith) rows in
      rw (nothing, untouched chosen (set_status later status_read) _ nothing) refl
