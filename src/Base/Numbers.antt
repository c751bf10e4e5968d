-- ===== src/Base/Numbers.antt =====
-- strconv.FormatInt, strconv.ParseInt and the verbs %d and %x of fmt, in a radix.
pub mod RoundTrip
use Prim.Native.Char.{Char, code}
use Prim.Native.String.{[], ◌∷◌}
use mathlib.Core.Logic.{dite}
use mathlib.Core.WellFounded.{Acc, WellFounded}
use native.Mathlib.Decide.{dec_lt}
use miniflux.Base.{
  ℕ, zero, suc, ◌+◌, ◌-◌, ◌*◌, ◌/◌, ◌%◌, ◌^◌, ◌≤◌, ◌<◌, min, max, String, ◌≡◌, refl, sym, ap, ◌∙◌,
  ◌≢◌, ◌↔◌, ◌⊎◌, inl, inr, Bool, true, false, not, ◌&&◌, ◌||◌, Option, none, some, List, [], ◌∷◌,
  ◌++◌, map, reverse, arith, eq_iff, ltb, leb, nat_beq, if◌then◌else◌, ltb→lt, lt→ltb, leb→le,
  nat_beq_iff, tests, Eq, ◌==◌, nat_eq, string_eq, Bool-cases, Option-cases, beq_refl, eq_of_beq,
  ne_of_beq, beq_of_ne, length, get_elem?, length-append, All-mem, Memᴰ, any, keep, All, All-append,
  All-map, lookup, insert, lookup-insert, lookup-insert_self, length-insert_new,
}
use miniflux.Base.Int.{
  ℤ, pos, negsuc, pos_part, neg_part, sub_ℕ, ◌+ℤ◌, ◌-ℤ◌, quot, rem, ◌≤ℤ◌, ◌<ℤ◌, ltb_ℤ, leb_ℤ, eqb_ℤ,
  +ℤ_parts, -ℤ_parts, eq_of_parts, int_laws,
}
use miniflux.Base.Text.{append}

-- The digits of a radix; `value` is that of a code point.
pub record Radix : Type 0 where
  pub radix : ℕ
  pub digit : ℕ → Char
  pub value : ℕ → Option ℕ
  pub value_digit : (n : ℕ) → value (code (digit (n % radix))) ≡ some (n % radix)
  pub div_mod : (n : ℕ) → n / radix * radix + n % radix ≡ n
  pub shrinks : (n : ℕ) → 0 < n → n / radix < n

-- The lower-case digits.
pick : String → ℕ → Char
pick [] n = "0"
pick (c ∷ text) zero = c
pick (c ∷ text) (suc n) = pick text n

unfoldable pub hex_digit : ℕ → Char
unfolding pick
hex_digit n = pick "0123456789abcdef" n

unfoldable pub decimal_value : ℕ → Option ℕ
decimal_value c = if ltb c b'0' || ltb b'9' c then none else some (c - b'0')

unfoldable pub hexadecimal_value : ℕ → Option ℕ
hexadecimal_value c =
    if leb b'0' c && leb c b'9'
    then some (c - b'0')
    else if leb b'a' c && leb c b'f'
    then some (c - b'a' + 10)
    else if leb b'A' c && leb c b'F'
    then some (c - b'A' + 10)
    else none

pub acc_under : (bound n : ℕ) → n < bound → Acc ◌<◌ n
acc_under zero n h = absurd (omega arith)
acc_under (suc bound) n h = Acc.intro n λ m less. acc_under bound m (omega arith)

pub below : WellFounded ◌<◌
unfolding acc_under
below = record { apply = λ n. acc_under (suc n) n (omega arith) }

-- An int64 of a sign and a magnitude.
abbrev pub in_int64 : Bool → ℕ → Option ℤ
in_int64 negative n =
    if negative
    then (if leb n (2 ^ 63) then some (pos 0 -ℤ pos n) else none)
    else if ltb n (2 ^ 63)
    then some (pos n)
    else none

abbrev pub with_sign : Bool → Option ℕ → Option ℤ
with_sign negative none = none
with_sign negative (some n) = in_int64 negative n

module _ (R : Radix) where
  open R use {radix, digit as digit_of, value}

  -- The digits of a number before a text.
  pub put : (n : ℕ) → Acc ◌<◌ n → String → String
  put n (Acc.intro _ smaller) text =
      dite (dec_lt 0 n)
        (λ h. put (n / radix) (smaller (n / radix) (R.shrinks n h)) (digit_of (n % radix) ∷ text))
        (λ _. text)

  unfoldable pub digits : ℕ → String → String
  unfolding put below dec_lt
  digits n text = put n (below.apply n) text

  -- FormatUint
  unfoldable pub format_uint : ℕ → String
  format_uint n = if n == 0 then "0" else digits n []

  -- The number that digits spell, after those of `acc`; with no bound.
  unfoldable pub scan_digits : String → ℕ → Option ℕ
  scan_digits [] acc = some acc
  scan_digits (c ∷ text) acc = elim (value (code c)) [
    | none ↦ none
    | some d ↦ scan_digits text (acc * radix + d)
  ]

  unfoldable pub parse_digits : String → Option ℕ
  unfolding scan_digits
  parse_digits [] = none
  parse_digits (c ∷ text) = scan_digits (c ∷ text) 0

  -- ParseInt into 64 bits.
  unfoldable pub parse_int : String → Option ℤ
  unfolding parse_digits
  parse_int [] = none
  parse_int (c ∷ text) =
      if code c == b'-'
      then with_sign true (parse_digits text)
      else if code c == b'+'
      then with_sign false (parse_digits text)
      else with_sign false (parse_digits (c ∷ text))

  -- FormatInt
  unfoldable pub format_int : ℤ → String
  unfolding format_uint
  format_int (pos n) = format_uint n
  format_int (negsuc n) = "-" ∷ format_uint (suc n)

reads : (ℕ → Option ℕ) → ℕ → Bool
reads value n = elim (value (code (hex_digit n))) [ none ↦ false | some m ↦ m == n ]

all_below : (ℕ → Bool) → ℕ → Bool
all_below p zero = true
all_below p (suc n) = p n && all_below p n

all_below_lem : (p : ℕ → Bool) (k n : ℕ) → all_below p k ≡ true → n < k → p n ≡ true
unfolding all_below
all_below_lem p zero n h less = absurd (omega arith)
all_below_lem p (suc k) n h less = ground (arith, all_below_lem p k n)

reads_lem :
    (value : ℕ → Option ℕ) (n : ℕ) → reads value n ≡ true → value (code (hex_digit n)) ≡ some n
unfolding reads
reads_lem value n h = ground arith

pub decimal_digits : (n : ℕ) → n < 10 → decimal_value (code (hex_digit n)) ≡ some n
unfolding all_below reads decimal_value hex_digit
decimal_digits n h = reads_lem decimal_value n (all_below_lem (reads decimal_value) 10 n refl h)

pub hexadecimal_digits : (n : ℕ) → n < 16 → hexadecimal_value (code (hex_digit n)) ≡ some n
unfolding all_below reads hexadecimal_value hex_digit
hexadecimal_digits n h =
    reads_lem hexadecimal_value n (all_below_lem (reads hexadecimal_value) 16 n refl h)

abbrev pub decimal : Radix
decimal = record {
  radix = 10;
  digit = hex_digit;
  value = decimal_value;
  value_digit = λ n. decimal_digits (n % 10) (omega arith);
  div_mod = λ n. omega arith;
  shrinks = λ n h. omega arith;
}

abbrev pub hexadecimal : Radix
hexadecimal = record {
  radix = 16;
  digit = hex_digit;
  value = hexadecimal_value;
  value_digit = λ n. hexadecimal_digits (n % 16) (omega arith);
  div_mod = λ n. omega arith;
  shrinks = λ n h. omega arith;
}

format_12 : format_uint decimal 12 ≡ "12"
unfolding format_uint digits hex_digit
format_12 = refl

parse_12 : parse_int decimal "-12" ≡ some (negsuc 11)
unfolding parse_int decimal_value ◌-ℤ◌
parse_12 = refl
