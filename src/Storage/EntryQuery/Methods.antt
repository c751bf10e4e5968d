-- ===== src/Storage/EntryQuery/Methods.antt =====
-- internal/storage/entry_query_builder.go: the methods that narrow, sort and cut a query.
use miniflux.Base.{
  ℕ, String, Bool, true, ◌&&◌, List, [], ◌∷◌, ◌++◌, if◌then◌else◌, ◌==◌, nat_eq, string_eq,
}
use miniflux.Base.Int.{ℤ, pos, pos_part, ltb_ℤ, leb_ℤ, eqb_ℤ}
use miniflux.Base.Text.{append}
use miniflux.Storage.EntryQuery.{
  max_entries_limit, Arg, int, text, ints, texts, date, EntryQueryBuilder, add_arg,
  append_condition, append_plain, equal_fold,
}

-- appendCondition where the position is not used.
unfoldable pub where_arg : String → Arg → String → EntryQueryBuilder → EntryQueryBuilder
where_arg front arg back b = (append_condition front arg back b).0

unfoldable pub with_content : Bool → EntryQueryBuilder → EntryQueryBuilder
with_content v b = record b { fetch_content = v }

unfoldable pub with_author : String → EntryQueryBuilder → EntryQueryBuilder
with_author name = where_arg "e.author = $" (text name) ""

unfoldable pub rank : String → String
unfolding append
rank arg_pos =
    append "ts_rank(e.document_vectors, websearch_to_tsquery($"
      (append arg_pos ")) - extract(epoch from now() - e.published_at)::float * 0.0000001 DESC")

unfoldable pub with_search_query : String → EntryQueryBuilder → EntryQueryBuilder
unfolding rank
with_search_query query b =
    if query == ""
    then b
    else (let (b', arg_pos) =
          append_condition "e.document_vectors @@ websearch_to_tsquery($" (text query) ")" b in
        record b' { sort_expressions = b'.sort_expressions ++ rank arg_pos ∷ [] })

unfoldable pub with_starred : Bool → EntryQueryBuilder → EntryQueryBuilder
with_starred starred = append_plain (if starred then "e.starred is true" else "e.starred is false")

unfoldable pub before_changed_date : ℕ → EntryQueryBuilder → EntryQueryBuilder
before_changed_date at = where_arg "e.changed_at < $" (date at) ""

unfoldable pub after_changed_date : ℕ → EntryQueryBuilder → EntryQueryBuilder
after_changed_date at = where_arg "e.changed_at > $" (date at) ""

unfoldable pub before_published_date : ℕ → EntryQueryBuilder → EntryQueryBuilder
before_published_date at = where_arg "e.published_at < $" (date at) ""

unfoldable pub after_published_date : ℕ → EntryQueryBuilder → EntryQueryBuilder
after_published_date at = where_arg "e.published_at > $" (date at) ""

-- An int64 is 0.
abbrev pub is_zero : ℤ → Bool
is_zero n = eqb_ℤ n (pos 0)

unfoldable pub before_entry_id : ℤ → EntryQueryBuilder → EntryQueryBuilder
before_entry_id entry_id b =
    if is_zero entry_id then b else where_arg "e.id < $" (int entry_id) "" b

unfoldable pub after_entry_id : ℤ → EntryQueryBuilder → EntryQueryBuilder
after_entry_id entry_id b = if is_zero entry_id then b else where_arg "e.id > $" (int entry_id) "" b

unfoldable pub with_entry_id : ℤ → EntryQueryBuilder → EntryQueryBuilder
with_entry_id entry_id b = if is_zero entry_id then b else where_arg "e.id = $" (int entry_id) "" b

unfoldable pub with_entry_ids : List ℤ → EntryQueryBuilder → EntryQueryBuilder
with_entry_ids [] b = b
with_entry_ids (id ∷ []) b = with_entry_id id b
with_entry_ids (id ∷ next ∷ rest) b = where_arg "e.id = ANY($" (ints (id ∷ next ∷ rest)) ")" b

unfoldable pub with_feed_id : ℤ → EntryQueryBuilder → EntryQueryBuilder
with_feed_id feed_id b =
    if ltb_ℤ (pos 0) feed_id then where_arg "e.feed_id = $" (int feed_id) "" b else b

unfoldable pub with_category_id : ℤ → EntryQueryBuilder → EntryQueryBuilder
with_category_id category_id b =
    if ltb_ℤ (pos 0) category_id then where_arg "f.category_id = $" (int category_id) "" b else b

unfoldable pub with_status : String → EntryQueryBuilder → EntryQueryBuilder
with_status status b = if status == "" then b else where_arg "e.status = $" (text status) "" b

unfoldable pub with_statuses : List String → EntryQueryBuilder → EntryQueryBuilder
with_statuses [] b = b
with_statuses (status ∷ []) b = with_status status b
with_statuses (status ∷ next ∷ rest) b =
    where_arg "e.status = ANY($" (texts (status ∷ next ∷ rest)) ")" b

unfoldable pub with_tags : List String → EntryQueryBuilder → EntryQueryBuilder
with_tags [] b = b
with_tags (tag ∷ tags) b =
    where_arg "LOWER(e.tags::text)::text[] @> LOWER($" (texts (tag ∷ tags))
      "::text[]::text)::text[]" b

unfoldable pub without_status : String → EntryQueryBuilder → EntryQueryBuilder
without_status status b = if status == "" then b else where_arg "e.status <> $" (text status) "" b

unfoldable pub with_limit : ℤ → EntryQueryBuilder → EntryQueryBuilder
with_limit limit b =
    if ltb_ℤ (pos 0) limit && leb_ℤ limit (pos max_entries_limit)
    then record b { limit = pos_part limit }
    else b

unfoldable pub with_offset : ℤ → EntryQueryBuilder → EntryQueryBuilder
with_offset offset b = if ltb_ℤ (pos 0) offset then record b { offset = offset } else b

unfoldable pub high_condition : String → String
unfolding append
high_condition arg_pos =
    append "row_number > COALESCE((SELECT row_number FROM t WHERE id = $" (append arg_pos "), 0)")

unfoldable pub with_offset_id : ℤ → EntryQueryBuilder → EntryQueryBuilder
unfolding high_condition
with_offset_id id b =
    if is_zero id
    then b
    else (let (b', arg_pos) = add_arg (int id) b in
        record b' {
          high_conds = b'.high_conds ++ high_condition arg_pos ∷ [];
          numbered_rows = true;
        })

unfoldable pub with_globally_visible : EntryQueryBuilder → EntryQueryBuilder
with_globally_visible b =
    append_plain "f.hide_globally IS FALSE" (append_plain "c.hide_globally IS FALSE" b)

-- `sanitize` quotes the parts of a name.
module _ (sanitize : List String → String) where
  unfoldable pub sort_by : String → String → EntryQueryBuilder → EntryQueryBuilder
  unfolding append
  sort_by column direction b = record b {
    sort_expressions =
        b.sort_expressions ++ append (sanitize ("e" ∷ column ∷ [])) (append " " direction) ∷ [];
  }

  unfoldable pub with_sorting : String → String → EntryQueryBuilder → EntryQueryBuilder
  unfolding sort_by
  with_sorting column direction b =
      if equal_fold "ASC" direction
      then sort_by column "ASC" b
      else if equal_fold "DESC" direction
      then sort_by column "DESC" b
      else b
