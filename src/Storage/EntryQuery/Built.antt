-- ===== src/Storage/EntryQuery/Built.antt =====
-- A query that is put together by its methods asks for what the methods were told.
use miniflux.Base.{◌≤◌, ◌<◌, String, List, [], ◌∷◌, ◌++◌, nat_eq, string_eq}
use miniflux.Storage.EntryQuery.{max_entries_limit, EntryQueryBuilder}
use miniflux.Storage.EntryQuery.Methods.{
  with_content, with_author, with_search_query, with_starred, before_changed_date,
  after_changed_date, before_published_date, after_published_date, before_entry_id, after_entry_id,
  with_entry_id, with_entry_ids, with_feed_id, with_category_id, with_status, with_statuses,
  with_tags, without_status, with_limit, with_offset, with_offset_id, with_globally_visible,
  with_sorting,
}
use miniflux.Storage.EntryQuery.Placeholders.{
  Condition, Call, content, author, search, status, other_status, starred, before_changed,
  after_changed, before_published, after_published, before_id, after_id, entry_id, feed_id,
  category_id, limit, offset, offset_id, entry_ids, statuses, tags, globally_visible, sorting,
  conditions_of, ShowsAll,
}

-- The builder's conditions show these, and its limit is one that the database takes.
abbrev pub Asks : EntryQueryBuilder → List Condition → Type 0
Asks b cs = ShowsAll b.args cs b.conditions × (0 < b.limit) × (b.limit ≤ max_entries_limit)

-- The conditions of calls, in order.
abbrev pub wanted : List Call → List Condition
wanted [] = []
wanted (c ∷ calls) = conditions_of c ++ wanted calls

module _ (sanitize : List String → String) where
  -- The call of a method.
  unfoldable pub call : Call → EntryQueryBuilder → EntryQueryBuilder
  call (content v) = with_content v
  call (author name) = with_author name
  call (search query) = with_search_query query
  call (status s) = with_status s
  call (other_status s) = without_status s
  call (starred v) = with_starred v
  call (before_changed at) = before_changed_date at
  call (after_changed at) = after_changed_date at
  call (before_published at) = before_published_date at
  call (after_published at) = after_published_date at
  call (before_id id) = before_entry_id id
  call (after_id id) = after_entry_id id
  call (entry_id id) = with_entry_id id
  call (feed_id id) = with_feed_id id
  call (category_id id) = with_category_id id
  call (limit n) = with_limit n
  call (offset n) = with_offset n
  call (offset_id id) = with_offset_id id
  call (entry_ids ids) = with_entry_ids ids
  call (statuses ss) = with_statuses ss
  call (tags ts) = with_tags ts
  call globally_visible = with_globally_visible
  call (sorting column direction) = with_sorting sanitize column direction

  -- The calls of a query, in order.
  unfoldable pub build : List Call → EntryQueryBuilder → EntryQueryBuilder
  unfolding call
  build [] b = b
  build (c ∷ calls) b = build calls (call c b)
