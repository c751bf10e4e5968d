-- ===== src/GoogleReader/Items/Tests.antt =====
-- The ids of items at concrete inputs.
use miniflux.Base.{◌^◌, ◌≡◌, refl, inl, inr, [], arith, nat_eq, string_eq}
use miniflux.Base.Int.{pos}
use miniflux.Base.Text.{append, cut_prefix, trim_prefix, has_prefix, byte_length, is_space}
use miniflux.Base.Numbers.{
  digits, hex_digit, scan_digits, format_uint, parse_digits, hexadecimal_value,
}
use miniflux.GoogleReader.Items.{
  format_hex, convert_entry_id_to_long_form_item_id, take_hex, skip_space, scan_hex, read_hex,
  parse_item_id, parse_item_ids, no_items,
}
use miniflux.GoogleReader.Items.RoundTrip.{parse_item_id-convert}

long_form :
    convert_entry_id_to_long_form_item_id (pos 344691561)
    ≡ "tag:google.com,2005:reader/item/00000000148b9369"
unfolding convert_entry_id_to_long_form_item_id append format_hex format_uint digits hex_digit
long_form = refl

unpadded : parse_item_id "tag:google.com,2005:reader/item/2f2" ≡ inr (pos 754)
unfolding parse_item_id trim_prefix has_prefix cut_prefix read_hex scan_hex skip_space take_hex
    parse_digits scan_digits hexadecimal_value is_space
unpadded = refl

padded : parse_item_id "000000000000048c" ≡ inr (pos 1164)
unfolding parse_item_id trim_prefix has_prefix cut_prefix byte_length read_hex scan_hex skip_space
    take_hex parse_digits scan_digits hexadecimal_value is_space
padded = refl

-- A decimal id of 16 digits is read as hexadecimal.
sixteen_digits : parse_item_id "1000000000000000" ≡ inr (pos (16 ^ 15))
unfolding parse_item_id trim_prefix has_prefix cut_prefix byte_length read_hex scan_hex skip_space
    take_hex parse_digits scan_digits hexadecimal_value is_space
sixteen_digits = refl

nobody : parse_item_ids [] ≡ inl no_items
unfolding parse_item_ids
nobody = refl

parse_item_id-convert_example :
    parse_item_id (convert_entry_id_to_long_form_item_id (pos 754)) ≡ inr (pos 754)
parse_item_id-convert_example = parse_item_id-convert 754 (cc) (omega arith)
