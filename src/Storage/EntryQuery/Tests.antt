-- ===== src/Storage/EntryQuery/Tests.antt =====
-- Queries at concrete inputs.
use miniflux.Base.{String, ◌≡◌, refl, List, [], ◌∷◌, nat_eq, string_eq}
use miniflux.Base.Int.{pos}
use miniflux.Base.Text.{append}
use miniflux.Base.Numbers.{format_uint, digits, hex_digit}
use miniflux.Storage.EntryQuery.{
  new_entry_query_builder, add_arg, append_condition, equal_fold, join, build_condition,
  build_sorting, build_limit_offset,
}
use miniflux.Storage.EntryQuery.Methods.{
  where_arg, with_entry_id, with_entry_ids, with_status, with_limit, with_offset, sort_by,
  with_sorting,
}

-- A list of the id 0 narrows nothing.
id_zero :
    with_entry_ids (pos 0 ∷ []) (new_entry_query_builder (pos 7)) ≡ new_entry_query_builder (pos 7)
unfolding with_entry_ids with_entry_id
id_zero = refl

abbrev last_names : List String → String
last_names [] = ""
last_names (name ∷ []) = name
last_names (name ∷ other ∷ rest) = last_names (other ∷ rest)

unread_page :
    (build_condition (with_status "unread" (new_entry_query_builder (pos 7)))
      ≡ "e.user_id = $1 AND e.status = $2")
    × (build_sorting
          (with_sorting last_names "published_at" "desc" (new_entry_query_builder (pos 7)))
        ≡ " ORDER BY published_at DESC")
    × (build_limit_offset
          (with_offset (pos 30) (with_limit (pos 2000) (new_entry_query_builder (pos 7))))
        ≡ " LIMIT 1000 OFFSET 30")
unfolding build_condition build_sorting build_limit_offset with_status with_sorting sort_by
    equal_fold with_offset with_limit where_arg append_condition add_arg new_entry_query_builder
    join append format_uint digits hex_digit
unread_page = (refl, refl, refl)
