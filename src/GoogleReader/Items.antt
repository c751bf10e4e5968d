-- ===== src/GoogleReader/Items.antt =====
-- internal/googlereader/item.go: the ids of items. `read_hex` is fmt.Sscanf with the verb %016x, which
-- reads at most 16 characters after white space and leaves the rest.
pub mod RoundTrip
mod Tests
use Prim.Native.Char.{Char, code}
use Prim.Native.String.{[], ◌∷◌}
use miniflux.Base.{
  ℕ, zero, suc, ◌+◌, ◌-◌, ◌*◌, ◌/◌, ◌%◌, ◌^◌, ◌≤◌, ◌<◌, min, max, String, ◌≡◌, refl, sym, ap, ◌∙◌,
  ◌≢◌, ◌↔◌, ◌⊎◌, inl, inr, Bool, true, false, not, ◌&&◌, ◌||◌, Option, none, some, List, [], ◌∷◌,
  ◌++◌, map, reverse, arith, eq_iff, ltb, leb, nat_beq, if◌then◌else◌, ltb→lt, lt→ltb, leb→le,
  nat_beq_iff, tests, Eq, ◌==◌, nat_eq, string_eq, Bool-cases, Option-cases, beq_refl, eq_of_beq,
  ne_of_beq, beq_of_ne, length, get_elem?, length-append, All-mem, Memᴰ, any, keep, All, All-append,
  All-map, lookup, insert, lookup-insert, lookup-insert_self, length-insert_new,
}
use miniflux.Base.Int.{
  ℤ, pos, negsuc, pos_part, neg_part, sub_ℕ, ◌+ℤ◌, ◌-ℤ◌, quot, rem, ◌≤ℤ◌, ◌<ℤ◌, ltb_ℤ, leb_ℤ, eqb_ℤ,
  +ℤ_parts, -ℤ_parts, eq_of_parts, int_laws,
}
use miniflux.Base.Text.{append, trim_prefix, has_prefix, is_space, byte_length}
use miniflux.Base.Results.{◌>>=◌}
use miniflux.Base.Numbers.{
  Radix, format_uint, parse_digits, parse_int, with_sign, decimal, hexadecimal, hexadecimal_value,
}

abbrev pub item_id_prefix : String
item_id_prefix = "tag:google.com,2005:reader/item/"

abbrev pub zeros : ℕ → String → String
zeros zero text = text
zeros (suc n) text = "0" ∷ zeros n text

-- The characters of a text.
abbrev pub count : String → ℕ
count [] = 0
count (c ∷ text) = suc (count text)

-- The verb %016x.
unfoldable pub format_hex : ℤ → String
format_hex (pos n) = let digits = format_uint hexadecimal n in zeros (16 - count digits) digits
format_hex (negsuc n) =
    let digits = format_uint hexadecimal (suc n) in "-" ∷ zeros (15 - count digits) digits

-- convertEntryIDToLongFormItemID
unfoldable pub convert_entry_id_to_long_form_item_id : ℤ → String
convert_entry_id_to_long_form_item_id entry_id = append item_id_prefix (format_hex entry_id)

-- The hexadecimal digits that stand first, as many as there is room for.
unfoldable pub take_hex : ℕ → String → String
take_hex zero text = []
take_hex (suc n) [] = []
take_hex (suc n) (c ∷ text) = elim (hexadecimal_value (code c)) [
  | none ↦ []
  | some d ↦ c ∷ take_hex n text
]

-- Sscanf passes white space; a new line is an error.
unfoldable pub skip_space : String → Option String
unfolding is_space
skip_space [] = some []
skip_space (c ∷ text) =
    if code c == 10 then none else if is_space (code c) then skip_space text else some (c ∷ text)

unfoldable pub scan_hex : String → Option ℤ
scan_hex [] = none
scan_hex (c ∷ text) =
    if code c == b'-'
    then with_sign true (parse_digits hexadecimal (take_hex 15 text))
    else if code c == b'+'
    then with_sign false (parse_digits hexadecimal (take_hex 15 text))
    else with_sign false (parse_digits hexadecimal (take_hex 16 (c ∷ text)))

unfoldable pub read_hex : String → Option ℤ
read_hex text = elim (skip_space text) [ none ↦ none | some rest ↦ scan_hex rest ]

pub data ItemError : Type 0 where
  bad_hexadecimal : String → ItemError
  zero_id : String → ItemError
  bad_decimal : String → ItemError
  no_items : ItemError

-- The first form, after its prefix.
abbrev pub long_form : String → Option ℤ → ItemError ⊎ ℤ
long_form value none = inl (bad_hexadecimal value)
long_form value (some n) = if eqb_ℤ n (pos 0) then inl (zero_id value) else inr n

abbrev pub decimal_form : String → ItemError ⊎ ℤ
decimal_form value = elim (parse_int decimal value) [
  | none ↦ inl (bad_decimal value)
  | some n ↦ inr n
]

-- parseItemID
unfoldable pub parse_item_id : String → ItemError ⊎ ℤ
parse_item_id value =
    if has_prefix item_id_prefix value
    then long_form value (read_hex (trim_prefix item_id_prefix value))
    else if byte_length value == 16
    then elim (read_hex value) [ none ↦ decimal_form value | some n ↦ inr n ]
    else decimal_form value

abbrev pub parse_all : List String → ItemError ⊎ List ℤ
parse_all [] = inr []
parse_all (item ∷ items) = parse_item_id item >>= λ id. parse_all items >>= λ ids. inr (id ∷ ids)

-- parseItemIDsFromRequest, from the values of the form's parameter.
unfoldable pub parse_item_ids : List String → ItemError ⊎ List ℤ
parse_item_ids [] = inl no_items
parse_item_ids (item ∷ items) = parse_all (item ∷ items)
