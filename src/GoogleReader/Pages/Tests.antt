-- ===== src/GoogleReader/Pages/Tests.antt =====
-- The pages of a stream.
use miniflux.Base.{String, ◌≡◌, refl, Option, some, List, [], ◌∷◌, nat_eq, string_eq, length}
use miniflux.Base.Int.{ℤ, pos, pos_part, ◌-ℤ◌}
use miniflux.Base.Numbers.{parse_int, parse_digits, scan_digits, decimal_value}
use miniflux.Storage.EntryQuery.{EntryQueryBuilder}
use miniflux.GoogleReader.Pages.{RequestModifiers, query_int64_param}
use miniflux.GoogleReader.Pages.Cut.{take, drop}

-- A negative number is the default.
negative : query_int64_param (λ name. "-5" ∷ []) "n" (pos 0) ≡ pos 0
unfolding query_int64_param parse_int parse_digits scan_digits decimal_value ◌-ℤ◌
negative = refl

abbrev plain : List String → String
plain parts = ""

abbrev matching : EntryQueryBuilder → List ℤ
matching q = pos 3 ∷ pos 2 ∷ pos 1 ∷ []

abbrev ids : EntryQueryBuilder → Option (List ℤ)
ids q = some (take q.limit (drop (pos_part q.offset) (matching q)))

abbrev count : EntryQueryBuilder → Option ℤ
count q = some (pos (length (matching q)))

abbrev by_two : RequestModifiers
by_two = record {
  exclude_targets = [];
  filter_targets = [];
  streams = [];
  count = pos 2;
  offset = pos 0;
  sort_direction = "desc";
  start_time = pos 0;
  stop_time = pos 0;
  user_id = pos 7;
}
