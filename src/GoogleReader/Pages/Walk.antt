-- ===== src/GoogleReader/Pages/Walk.antt =====
-- A client that follows the continuations sees every item once.
use miniflux.Base.{
  ℕ, zero, suc, String, ◌≡◌, inl, inr, Option, none, some, List, ◌++◌, if◌then◌else◌, nat_eq,
  string_eq, length,
}
use miniflux.Base.Int.{ℤ, pos, pos_part, eqb_ℤ}
use miniflux.Storage.EntryQuery.{EntryQueryBuilder}
use miniflux.GoogleReader.Pages.{
  RequestModifiers, StreamIdResponse, page_query, make_stream_id_resp,
}
use miniflux.GoogleReader.Pages.Cut.{take, drop}
use miniflux.GoogleReader.Pages.Offset.{at_offset, page_at}

module _ (sanitize : List String → String) (rm : RequestModifiers) (b : EntryQueryBuilder)
    (fresh : b.offset ≡ pos 0) where
  -- `matching` are the ids that a query matches, in its order: what the database cuts at the limit
  -- and the offset, and counts.
  module _ (ids : EntryQueryBuilder → Option (List ℤ)) (count : EntryQueryBuilder → Option ℤ)
      (matching : EntryQueryBuilder → List ℤ)
      (ids_law : (q : EntryQueryBuilder)
        → ids q ≡ some (take q.limit (drop (pos_part q.offset) (matching q))))
      (count_law : (q : EntryQueryBuilder) → count q ≡ some (pos (length (matching q))))
      (offset_law : (o : ℕ) (q : EntryQueryBuilder) → matching (at_offset o q) ≡ matching q) where
    abbrev pub items : List ℤ
    items = matching (page_query sanitize (page_at rm 0) b)

    abbrev size : ℕ
    size = (page_query sanitize (page_at rm 0) b).limit

    -- What a client collects: it asks from an offset on, until there is no continuation.
    follow : StreamIdResponse → Option (List String) → Option (List String)
    follow page rest =
        if eqb_ℤ page.continuation (pos 0)
        then some page.item_refs
        else elim rest [ none ↦ none | some more ↦ some (page.item_refs ++ more) ]

    pub walk : ℕ → ℤ → Option (List String)
    walk zero o = none
    walk (suc rounds) o =
        elim (make_stream_id_resp sanitize ids count b (record rm { offset = o })) [
          | inl err ↦ none
          | inr page ↦ follow page (walk rounds page.continuation)
        ]
