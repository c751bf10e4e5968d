-- ===== src/Storage/EntryQuery.antt =====
-- internal/storage/entry_query_builder.go: the conditions of a query and the arguments that their
-- placeholders name. `sanitize` is pgx.Identifier.Sanitize; the database is not modelled. Instants
-- are nanoseconds.
pub mod Methods
pub mod Placeholders
pub mod Built
mod Tests
use Prim.Native.Char.{code}
use Prim.Native.String.{[], ◌∷◌}
use miniflux.Base.{
  ℕ, zero, suc, ◌+◌, ◌-◌, ◌*◌, ◌/◌, ◌%◌, ◌^◌, ◌≤◌, ◌<◌, min, max, String, ◌≡◌, refl, sym, ap, ◌∙◌,
  ◌≢◌, ◌↔◌, ◌⊎◌, inl, inr, Bool, true, false, not, ◌&&◌, ◌||◌, Option, none, some, List, [], ◌∷◌,
  ◌++◌, map, reverse, arith, eq_iff, ltb, leb, nat_beq, if◌then◌else◌, ltb→lt, lt→ltb, leb→le,
  nat_beq_iff, tests, Eq, ◌==◌, nat_eq, string_eq, Bool-cases, Option-cases, beq_refl, eq_of_beq,
  ne_of_beq, beq_of_ne, length, get_elem?, length-append, All-mem, Memᴰ, any, keep, All, All-append,
  All-map, lookup, insert, lookup-insert, lookup-insert_self, length-insert_new,
}
use miniflux.Base.Int.{
  ℤ, pos, negsuc, pos_part, neg_part, sub_ℕ, ◌+ℤ◌, ◌-ℤ◌, quot, rem, ◌≤ℤ◌, ◌<ℤ◌, ltb_ℤ, leb_ℤ, eqb_ℤ,
  +ℤ_parts, -ℤ_parts, eq_of_parts, int_laws,
}
use miniflux.Base.Text.{append}
use miniflux.Base.Numbers.{format_uint, decimal}

abbrev pub max_entries_limit : ℕ
max_entries_limit = 1000

-- A value of the slice of arguments.
pub data Arg : Type 0 where
  int : ℤ → Arg
  text : String → Arg
  ints : List ℤ → Arg
  texts : List String → Arg
  date : ℕ → Arg

pub record EntryQueryBuilder : Type 0 where
  pub args : List Arg
  pub conditions : List String
  pub sort_expressions : List String
  pub limit : ℕ
  pub offset : ℤ
  pub fetch_content : Bool
  pub numbered_rows : Bool
  pub high_conds : List String

-- NewEntryQueryBuilder
unfoldable pub new_entry_query_builder : ℤ → EntryQueryBuilder
new_entry_query_builder user_id = record {
  args = int user_id ∷ [];
  conditions = "e.user_id = $1" ∷ [];
  sort_expressions = [];
  limit = max_entries_limit;
  offset = pos 0;
  fetch_content = false;
  numbered_rows = false;
  high_conds = [];
}

-- An argument more, and the text of its position.
unfoldable pub add_arg : Arg → EntryQueryBuilder → EntryQueryBuilder × String
add_arg arg b =
    let args = b.args ++ arg ∷ [] in (record b { args = args }, format_uint decimal (length args))

-- appendCondition with an argument: the builder, and the position.
unfoldable pub append_condition :
    String → Arg → String → EntryQueryBuilder → EntryQueryBuilder × String
unfolding add_arg
append_condition front arg back b =
    let (b', arg_pos) = add_arg arg b in
    (record b' { conditions = b'.conditions ++ append front (append arg_pos back) ∷ [] }, arg_pos)

-- appendCondition where the argument is nil.
unfoldable pub append_plain : String → EntryQueryBuilder → EntryQueryBuilder
append_plain condition b = record b { conditions = b.conditions ++ condition ∷ [] }

-- strings.EqualFold with a text of the letters A to Z, upper case.
equal_fold_code : ℕ → ℕ → Bool
equal_fold_code upper c =
    upper == c || upper + 32 == c || (upper == b'S' && c == 0x17f) || (upper == b'K' && c == 0x212a)

unfoldable pub equal_fold : String → String → Bool
unfolding equal_fold_code
equal_fold [] [] = true
equal_fold [] (c ∷ s) = false
equal_fold (u ∷ upper) [] = false
equal_fold (u ∷ upper) (c ∷ s) = equal_fold_code (code u) (code c) && equal_fold upper s

-- strings.Join
unfoldable pub join : String → List String → String
unfolding append
join separator [] = ""
join separator (s ∷ []) = s
join separator (s ∷ t ∷ rest) = append s (append separator (join separator (t ∷ rest)))

-- buildCondition
unfoldable pub build_condition : EntryQueryBuilder → String
unfolding join
build_condition b = join " AND " b.conditions

-- buildSorting
unfoldable pub build_sorting : EntryQueryBuilder → String
unfolding join append
build_sorting b =
    if length b.sort_expressions == 0
    then ""
    else append " ORDER BY " (join ", " b.sort_expressions)

-- buildLimitOffset
unfoldable pub build_limit_offset : EntryQueryBuilder → String
unfolding append
build_limit_offset b =
    append (if ltb 0 b.limit then append " LIMIT " (format_uint decimal b.limit) else "") (
      if ltb_ℤ (pos 0) b.offset
      then append " OFFSET " (format_uint decimal (pos_part b.offset))
      else "")
