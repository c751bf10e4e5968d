-- ===== src/GoogleReader/Pages.antt =====
-- internal/googlereader/request_modifier.go, and of handler.go `makeStreamIDResp` and the handlers that
-- call it: the ids of a stream's items, page by page. `ids` and `count` are the queries of the
-- database, `none` where one fails; instants are seconds. The logger is left out.
pub mod Cut
pub mod Offset
pub mod Walk
mod Tests
use miniflux.Base.{
  ℕ, zero, suc, ◌+◌, ◌-◌, ◌*◌, ◌/◌, ◌%◌, ◌^◌, ◌≤◌, ◌<◌, min, max, String, ◌≡◌, refl, sym, ap, ◌∙◌,
  ◌≢◌, ◌↔◌, ◌⊎◌, inl, inr, Bool, true, false, not, ◌&&◌, ◌||◌, Option, none, some, List, [], ◌∷◌,
  ◌++◌, map, reverse, arith, eq_iff, ltb, leb, nat_beq, if◌then◌else◌, ltb→lt, lt→ltb, leb→le,
  nat_beq_iff, tests, Eq, ◌==◌, nat_eq, string_eq, Bool-cases, Option-cases, beq_refl, eq_of_beq,
  ne_of_beq, beq_of_ne, length, get_elem?, length-append, All-mem, Memᴰ, any, keep, All, All-append,
  All-map, lookup, insert, lookup-insert, lookup-insert_self, length-insert_new,
}
use miniflux.Base.Int.{
  ℤ, pos, negsuc, pos_part, neg_part, sub_ℕ, ◌+ℤ◌, ◌-ℤ◌, quot, rem, ◌≤ℤ◌, ◌<ℤ◌, ltb_ℤ, leb_ℤ, eqb_ℤ,
  +ℤ_parts, -ℤ_parts, eq_of_parts, int_laws,
}
use miniflux.Base.Text.{trim_space}
use miniflux.Base.Results.{◌>>=◌}
use miniflux.Base.Numbers.{format_int, parse_int, decimal}
use miniflux.Model.Entry.{status_unread, status_read, status_removed}
use miniflux.Storage.EntryQuery.{EntryQueryBuilder, new_entry_query_builder}
use miniflux.Storage.EntryQuery.Methods.{
  with_status, without_status, with_starred, with_feed_id, with_limit, with_offset, with_sorting,
  after_published_date, before_published_date,
}
use miniflux.GoogleReader.Streams.{
  StreamType, read_stream, starred_stream, reading_list_stream, feed_stream, Stream, StreamError,
  get_streams,
}

pub record RequestModifiers : Type 0 where
  pub exclude_targets : List Stream
  pub filter_targets : List Stream
  pub streams : List Stream
  pub count : ℤ
  pub offset : ℤ
  pub sort_direction : String
  pub start_time : ℤ
  pub stop_time : ℤ
  pub user_id : ℤ

-- url.Values: the values of a parameter.
abbrev pub Values : Type 0
Values = String → List String

-- Values.Get
abbrev pub get : Values → String → String
get values name = elim (values name) [ [] ↦ "" | value ∷ rest ↦ value ]

-- request.QueryStringParamList
abbrev pub nonempty : List String → List String
nonempty [] = []
nonempty (value ∷ values) =
    if trim_space value == "" then nonempty values else trim_space value ∷ nonempty values

unfoldable pub query_string_param_list : Values → String → List String
query_string_param_list values name = nonempty (values name)

-- request.QueryInt64Param, and request.QueryIntParam where an int has 64 bits.
unfoldable pub query_int64_param : Values → String → ℤ → ℤ
query_int64_param values name default =
    if get values name == "" then default else elim (parse_int decimal (get values name)) [
      | none ↦ default
      | some n ↦ if ltb_ℤ n (pos 0) then default else n
    ]

abbrev pub direction : String → String → String
direction order default = if order == "d" then "desc" else if order == "o" then "asc" else default

-- parseStreamFilterFromRequest, from the query, the user's id and the user's direction.
unfoldable pub parse_stream_filter : Values → ℤ → String → StreamError ⊎ RequestModifiers
unfolding query_string_param_list query_int64_param
parse_stream_filter query user_id entry_direction =
    get_streams (query_string_param_list query "s") user_id >>= λ streams.
    get_streams (query_string_param_list query "xt") user_id >>= λ excluded.
    get_streams (query_string_param_list query "it") user_id >>= λ filtered. inr (record {
      exclude_targets = excluded;
      filter_targets = filtered;
      streams = streams;
      count = query_int64_param query "n" (pos 0);
      offset = query_int64_param query "c" (pos 0);
      sort_direction = direction (get query "r") entry_direction;
      start_time = query_int64_param query "ot" (pos 0);
      stop_time = query_int64_param query "nt" (pos 0);
      user_id = user_id;
    })

-- streamIDResponse: the ids of the items, and the offset of the next page or 0.
pub record StreamIdResponse : Type 0 where
  pub item_refs : List String
  pub continuation : ℤ

-- The errors that the handlers wrap for the reply.
pub data StreamFailure : Type 0 where
  bad_output : StreamFailure
  bad_streams : StreamError → StreamFailure
  not_one_stream : StreamFailure
  unknown_type : StreamType → StreamFailure
  bad_feed_id : String → StreamFailure
  database : StreamFailure

-- time.Unix in nanoseconds, of a positive number.
abbrev pub unix : ℤ → ℕ
unix seconds = pos_part seconds * 1000000000

abbrev pub when_positive :
    ℤ → (ℕ → EntryQueryBuilder → EntryQueryBuilder) → EntryQueryBuilder → EntryQueryBuilder
when_positive seconds narrow b = if ltb_ℤ (pos 0) seconds then narrow (unix seconds) b else b

-- The case ReadStream of the two loops over the excluded streams.
abbrev pub is_read : Stream → Bool
is_read s = elim s.type [ read_stream ↦ true | _ ↦ false ]

abbrev pub only_unread : List Stream → EntryQueryBuilder → EntryQueryBuilder
only_unread [] b = b
only_unread (s ∷ streams) b =
    only_unread streams (if is_read s then with_status status_unread b else b)

abbrev pub stream_page : ℤ → List ℤ → ℤ → StreamIdResponse
stream_page offset entry_ids total =
    let next = pos (length entry_ids) +ℤ offset in
    record {
      item_refs = map (format_int decimal) entry_ids;
      continuation = if ltb_ℤ next total then next else pos 0;
    }

-- What `g.Wait` and the rest make of the two queries.
abbrev pub respond : ℤ → Option (List ℤ) → Option ℤ → StreamFailure ⊎ StreamIdResponse
respond offset none total = inl database
respond offset (some entry_ids) none = inl database
respond offset (some entry_ids) (some total) = inr (stream_page offset entry_ids total)

module _ (sanitize : List String → String) where
  -- The query of `makeStreamIDResp`.
  unfoldable pub page_query : RequestModifiers → EntryQueryBuilder → EntryQueryBuilder
  page_query rm b = when_positive rm.stop_time before_published_date (
      when_positive rm.start_time after_published_date (
        with_sorting sanitize "published_at" rm.sort_direction
          (with_offset rm.offset (with_limit rm.count b))))

module _ (sanitize : List String → String) (ids : EntryQueryBuilder → Option (List ℤ))
    (count : EntryQueryBuilder → Option ℤ) where
  -- makeStreamIDResp
  unfoldable pub make_stream_id_resp :
      EntryQueryBuilder → RequestModifiers → StreamFailure ⊎ StreamIdResponse
  make_stream_id_resp b rm =
      respond rm.offset (ids (page_query sanitize rm b)) (count (page_query sanitize rm b))

  unfoldable pub reading_list : RequestModifiers → StreamFailure ⊎ StreamIdResponse
  unfolding make_stream_id_resp new_entry_query_builder without_status with_status
  reading_list rm =
      make_stream_id_resp
        (without_status status_removed
          (only_unread rm.exclude_targets (new_entry_query_builder rm.user_id)))
        rm

  unfoldable pub starred_items : RequestModifiers → StreamFailure ⊎ StreamIdResponse
  unfolding make_stream_id_resp new_entry_query_builder without_status with_starred
  starred_items rm =
      make_stream_id_resp
        (with_starred true (without_status status_removed (new_entry_query_builder rm.user_id))) rm

  unfoldable pub read_items : RequestModifiers → StreamFailure ⊎ StreamIdResponse
  unfolding make_stream_id_resp new_entry_query_builder without_status with_status
  read_items rm =
      make_stream_id_resp
        (with_status status_read
          (without_status status_removed (new_entry_query_builder rm.user_id)))
        rm

  -- handleFeedStreamHandler, of the stream `s`.
  unfoldable pub feed_items : Stream → RequestModifiers → StreamFailure ⊎ StreamIdResponse
  unfolding make_stream_id_resp new_entry_query_builder without_status with_feed_id
  feed_items s rm = elim (parse_int decimal s.id) [
    | none ↦ inl (bad_feed_id s.id)
    | some id ↦
        (let b =
            without_status status_removed (with_feed_id id (new_entry_query_builder rm.user_id)) in
          make_stream_id_resp
            (if any is_read rm.exclude_targets then without_status status_read b else b) rm)
  ]

  -- The switch of `streamItemIDsHandler`.
  unfoldable pub items_of : Stream → RequestModifiers → StreamFailure ⊎ StreamIdResponse
  unfolding reading_list starred_items read_items feed_items
  items_of s rm = elim s.type [
    | reading_list_stream ↦ reading_list rm
    | starred_stream ↦ starred_items rm
    | read_stream ↦ read_items rm
    | feed_stream ↦ feed_items s rm
    | _ ↦ inl (unknown_type s.type)
  ]

  abbrev pub one_stream : RequestModifiers → List Stream → StreamFailure ⊎ StreamIdResponse
  one_stream rm [] = inl not_one_stream
  one_stream rm (s ∷ []) = items_of s rm
  one_stream rm (s ∷ t ∷ streams) = inl not_one_stream

  -- streamItemIDsHandler, for a GET request.
  unfoldable pub stream_item_ids : Values → ℤ → String → StreamFailure ⊎ StreamIdResponse
  unfolding parse_stream_filter items_of
  stream_item_ids query user_id entry_direction =
      if get query "output" == "json"
      then elim (parse_stream_filter query user_id entry_direction) [
        | inl err ↦ inl (bad_streams err)
        | inr rm ↦ one_stream rm rm.streams
      ]
      else inl bad_output
