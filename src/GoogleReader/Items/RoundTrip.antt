-- ===== src/GoogleReader/Items/RoundTrip.antt =====
-- An item's id is read back from the long form.
use Prim.Native.Char.{Char, code}
use Prim.Native.String.{[], ◌∷◌}
use native.Mathlib.Decide.{dec_lt}
use miniflux.Base.{
  ℕ, zero, suc, ◌+◌, ◌-◌, ◌*◌, ◌/◌, ◌%◌, ◌^◌, ◌≤◌, ◌<◌, String, ◌≡◌, refl, sym, ◌≢◌, inr, false,
  some, [], ◌∷◌, arith, ◌==◌, nat_eq, string_eq, beq_of_ne,
}
use miniflux.Base.Int.{pos}
use miniflux.Base.Text.{cut_prefix, has_prefix, is_space, byte_length}
use miniflux.Base.Text.Prefixes.{has_prefix_self, trim_prefix_self}
use miniflux.Base.Numbers.{
  format_int, decimal_value, digits, scan_digits, format_uint, parse_digits, with_sign, decimal,
  hexadecimal, hexadecimal_value, hex_digit,
}
use miniflux.Base.Numbers.RoundTrip.{
  format_uint-Starts, parse_int-format_int, Starts, in_either, digits_step, digits_closed,
  digits_positive, parse-scan, parse-digits,
}
use miniflux.GoogleReader.Items.{
  decimal_form, item_id_prefix, zeros, count, format_hex, convert_entry_id_to_long_form_item_id,
  take_hex, skip_space, scan_hex, read_hex, parse_item_id,
}

-- Every character is a hexadecimal digit.
abbrev IsHex : String → Type 0
IsHex [] = Unit
IsHex (c ∷ text) = ((d : ℕ) × (hexadecimal_value (code c) ≡ some d)) × IsHex text

abbrev power : ℕ → ℕ
power zero = 1
power (suc k) = 16 * power k

count-digits :
    (k n : ℕ) (text : String) → n < power k → count (digits hexadecimal n text) ≤ k + count text
count-digits zero n text h = rw (digits_step hexadecimal n text) (
    in_either hexadecimal (λ t. count t ≤ 0 + count text) (dec_lt 0 n) _ _
      (λ positive. absurd (omega arith)) (λ none_left. omega arith))
count-digits (suc k) n text h = rw (digits_step hexadecimal n text) (
    in_either hexadecimal (λ t. count t ≤ suc k + count text) (dec_lt 0 n) _ _
      (λ positive.
        let rest = count-digits k (n / 16) (hex_digit (n % 16) ∷ text) (omega arith) in omega arith)
      (λ none_left. omega arith))

digits-IsHex : (n : ℕ) → IsHex (digits hexadecimal n [])
digits-IsHex n =
    digits_closed hexadecimal IsHex (λ m text h. ((m % 16, hexadecimal.value_digit m), h)) n [] tt

zeros-IsHex : (k : ℕ) (text : String) → IsHex text → IsHex (zeros k text)
unfolding hexadecimal_value
zeros-IsHex zero text h = h
zeros-IsHex (suc k) text h = ((0, refl), zeros-IsHex k text h)

count-zeros : (k : ℕ) (text : String) → count (zeros k text) ≡ k + count text
count-zeros zero text = omega arith
count-zeros (suc k) text = omega (arith, count-zeros k text)

scan-zeros :
    (k : ℕ) (text : String)
    → scan_digits hexadecimal (zeros k text) 0 ≡ scan_digits hexadecimal text 0
unfolding scan_digits hexadecimal_value
scan-zeros zero text = refl
scan-zeros (suc k) text = scan-zeros k text

take_hex_all : (k : ℕ) (text : String) → IsHex text → count text ≤ k → take_hex k text ≡ text
unfolding take_hex
take_hex_all zero [] h fits = refl
take_hex_all zero (c ∷ text) h fits = absurd (omega arith)
take_hex_all (suc k) [] h fits = refl
take_hex_all (suc k) (c ∷ text) ((d, digit), h) fits =
    rw (take_hex, digit, take_hex_all k text h (omega arith)) refl

-- A digit is neither white space nor a sign.
plain :
    (c : Char) (d : ℕ)
    → hexadecimal_value (code c) ≡ some d
    → ((code c == 10) ≡ false)
      × (is_space (code c) ≡ false)
      × ((code c == b'-') ≡ false)
      × ((code c == b'+') ≡ false)
unfolding hexadecimal_value is_space
plain c d h = ground arith

format_uint_positive : (n : ℕ) → n ≢ 0 → format_uint hexadecimal n ≡ digits hexadecimal n []
unfolding format_uint
format_uint_positive n h = rw (beq_of_ne n 0 h) refl

skip_digit :
    (c : Char) (text : String) (d : ℕ)
    → hexadecimal_value (code c) ≡ some d
    → skip_space (c ∷ text) ≡ some (c ∷ text)
unfolding skip_space
skip_digit c text d h =
    let (no_line, no_space, minus, plus) = plain c d h in rw (no_line, no_space) refl

scan_digit :
    (c : Char) (text : String) (d : ℕ)
    → hexadecimal_value (code c) ≡ some d
    → scan_hex (c ∷ text) ≡ with_sign false (parse_digits hexadecimal (take_hex 16 (c ∷ text)))
unfolding scan_hex
scan_digit c text d h = let (no_line, no_space, minus, plus) = plain c d h in rw (minus, plus) refl

read_hex_lem :
    (text : String)
    → Starts hexadecimal text
    → IsHex text
    → count text ≤ 16
    → read_hex text ≡ with_sign false (scan_digits hexadecimal text 0)
unfolding read_hex
read_hex_lem [] h hex fits = absurd h
read_hex_lem (c ∷ text) (d, h) hex fits =
    rw
      (
        read_hex,
        skip_digit c text d h,
        scan_digit c text d h,
        take_hex_all 16 (c ∷ text) hex fits,
        parse-scan hexadecimal (c ∷ text) (d, h),
      )
      refl

zeros-Starts : (k : ℕ) (text : String) → Starts hexadecimal text → Starts hexadecimal (zeros k text)
unfolding hexadecimal_value
zeros-Starts zero text h = h
zeros-Starts (suc k) text h = (0, refl)

read_hex-format_hex : (n : ℕ) → n ≢ 0 → n < 2 ^ 63 → read_hex (format_hex (pos n)) ≡ some (pos n)
unfolding format_hex
read_hex-format_hex n nonzero fits =
    let printed = digits hexadecimal n [] in
    let short = count-digits 16 n [] (omega arith) in
    let size = count-zeros (16 - count printed) printed in
    rw (format_uint_positive n nonzero) (
      rw
        (
          read_hex_lem (zeros (16 - count printed) printed)
              (zeros-Starts (16 - count printed) printed (digits_positive hexadecimal n nonzero))
              (zeros-IsHex (16 - count printed) printed (digits-IsHex n)) (omega arith),
          scan-zeros (16 - count printed) printed,
          sym (parse-scan hexadecimal printed (digits_positive hexadecimal n nonzero)),
          parse-digits hexadecimal n nonzero,
        )
        (ground arith))

-- The id of an item in the long form, as the contents of a stream show it, is read back by
-- `parseItemID`. The ids are positive int64s.
pub parse_item_id-convert :
    (n : ℕ)
    → n ≢ 0
    → n < 2 ^ 63
    → parse_item_id (convert_entry_id_to_long_form_item_id (pos n)) ≡ inr (pos n)
unfolding parse_item_id convert_entry_id_to_long_form_item_id
parse_item_id-convert n nonzero fits =
    rw
      (
        has_prefix_self item_id_prefix (format_hex (pos n)),
        trim_prefix_self item_id_prefix (format_hex (pos n)),
        read_hex-format_hex n nonzero fits,
      )
      (ground arith)

format_int-Starts : (n : ℕ) → Starts decimal (format_int decimal (pos n))
unfolding format_int
format_int-Starts n = format_uint-Starts n

no_prefix : (text : String) → Starts decimal text → has_prefix item_id_prefix text ≡ false
unfolding has_prefix cut_prefix decimal_value
no_prefix [] h = absurd h
no_prefix (c ∷ text) (d, h) = ground arith

-- The id of an item in decimal, as the list of a stream's items shows it, is read back by
-- `parseItemID`, unless it has 16 digits: those are read as hexadecimal.
pub parse_item_id-format_int :
    (n : ℕ)
    → n < 2 ^ 63
    → byte_length (format_int decimal (pos n)) ≢ 16
    → parse_item_id (format_int decimal (pos n)) ≡ inr (pos n)
unfolding parse_item_id
parse_item_id-format_int n fits other =
    rw
      (
        no_prefix (format_int decimal (pos n)) (format_int-Starts n),
        beq_of_ne (byte_length (format_int decimal (pos n))) 16 other,
        decimal_form,
        parse_int-format_int (pos n) fits,
      )
      refl
