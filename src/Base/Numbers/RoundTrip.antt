-- ===== src/Base/Numbers/RoundTrip.antt =====
-- A number that is printed is read back.
use Prim.Native.Char.{Char, code}
use Prim.Native.String.{[], ◌∷◌}
use mathlib.Core.Logic.{ite, dite}
use mathlib.Core.WellFounded
use mathlib.Core.WellFounded.{Acc, Acc-prop}
use native.Mathlib.Decide.{dec_lt}
use miniflux.Base.{
  ℕ, suc, ◌/◌, ◌%◌, ◌^◌, ◌≤◌, ◌<◌, String, ◌≡◌, refl, ◌≢◌, inl, inr, false, some, [], ◌∷◌, arith,
  ◌==◌, nat_eq, string_eq, Bool-cases, eq_of_beq, ne_of_beq,
}
use miniflux.Base.Int.{ℤ, pos, negsuc, ◌-ℤ◌}
use miniflux.Base.Numbers.{
  Radix, decimal_value, below, put, digits, format_uint, scan_digits, parse_digits, with_sign,
  parse_int, format_int, decimal,
}

module _ (R : Radix) where
  open R use {radix, digit as digit_of, value}

  put_step :
      (n : ℕ) (w : Acc ◌<◌ n) (w' : Acc ◌<◌ (n / radix)) (text : String)
      → put R n w text ≡ ite (dec_lt 0 n) (put R (n / radix) w' (digit_of (n % radix) ∷ text)) text
  unfolding put
  put_step n (Acc.intro _ smaller) w' text = λ i.
      dite (dec_lt 0 n)
        (λ h.
          put R (n / radix) (Acc-prop (smaller (n / radix) (R.shrinks n h)) w' i)
            (digit_of (n % radix) ∷ text))
        (λ _. text)

  -- One round of the division.
  pub digits_step :
      (n : ℕ) (text : String)
      → digits R n text ≡ ite (dec_lt 0 n) (digits R (n / radix) (digit_of (n % radix) ∷ text)) text
  unfolding digits
  digits_step n text = put_step n (below.apply n) (below.apply (n / radix)) text

  -- Reading the last digit.
  scan_last :
      (n : ℕ) (text : String)
      → scan_digits R (digit_of (n % radix) ∷ text) (n / radix) ≡ scan_digits R text n
  unfolding scan_digits
  scan_last n text = rw (scan_digits, R.value_digit n, R.div_mod n) refl

  pub scan_digits-digits :
      (n : ℕ) (text : String) → scan_digits R (digits R n text) 0 ≡ scan_digits R text n
  scan_digits-digits n =
      WellFounded.induction below
        {C = λ m. (text : String) → scan_digits R (digits R m text) 0 ≡ scan_digits R text m} n
        λ m ih text.
          grind (arith, digits_step m text, scan_last m text, R.shrinks m, ih (m / radix))

  -- A digit stands first.
  abbrev pub Starts : String → Type 0
  Starts [] = ⊥
  Starts (c ∷ text) = (d : ℕ) × (value (code c) ≡ some d)

  starts : (n : ℕ) (text : String) → Starts (digit_of (n % radix) ∷ text)
  starts n text = (n % radix, R.value_digit n)

  pub in_either {ℓ} :
      (Q : String → Type ℓ) {P : Type 0} (w : Dec P) (front back : String)
      → (P → Q front)
      → (¬ P → Q back)
      → Q (ite w front back)
  in_either Q (yes h) front back f b = f h
  in_either Q (no h) front back f b = b h

  -- What holds of a text and is kept by one more digit holds of the digits before it.
  pub digits_closed {ℓ} :
      (P : String → Type ℓ)
      → ((m : ℕ) (text : String) → P text → P (digit_of (m % radix) ∷ text))
      → (n : ℕ) (text : String) → P text
      → P (digits R n text)
  digits_closed P keeps n =
      WellFounded.induction below {C = λ m. (text : String) → P text → P (digits R m text)} n
        λ m ih text h. rw (digits_step m text) (
          in_either P (dec_lt 0 m) _ _
            (λ positive. ih (m / radix) (R.shrinks m positive) _ (keeps m text h)) (λ zero. h))

  pub digits-Starts : (n : ℕ) (text : String) → Starts text → Starts (digits R n text)
  digits-Starts n =
      WellFounded.induction below
        {C = λ m. (text : String) → Starts text → Starts (digits R m text)} n
        λ m ih text h. rw (digits_step m text) (
          in_either Starts (dec_lt 0 m) _ _
            (λ positive. ih (m / radix) (R.shrinks m positive) _ (starts m text)) (λ zero. h))

  pub digits_positive : (n : ℕ) → n ≢ 0 → Starts (digits R n [])
  digits_positive n h = rw (digits_step n []) (
      in_either Starts (dec_lt 0 n) _ _ (λ positive. digits-Starts (n / radix) _ (starts n []))
        (λ zero. absurd (omega arith)))

  pub parse-scan : (text : String) → Starts text → parse_digits R text ≡ scan_digits R text 0
  unfolding parse_digits
  parse-scan [] h = absurd h
  parse-scan (c ∷ text) h = refl

  pub parse-digits : (n : ℕ) → n ≢ 0 → parse_digits R (digits R n []) ≡ some n
  unfolding scan_digits
  parse-digits n h = rw (parse-scan _ (digits_positive n h), scan_digits-digits n []) refl

pub format_uint-Starts : (n : ℕ) → Starts decimal (format_uint decimal n)
unfolding format_uint decimal_value
format_uint-Starts n = elim (Bool-cases (n == 0)) [
  | inl h ↦ rw h (0, refl)
  | inr h ↦ rw h (digits_positive decimal n (ne_of_beq n 0 h))
]

-- Every natural number is read back from its decimal print.
pub parse-format_uint : (n : ℕ) → parse_digits decimal (format_uint decimal n) ≡ some n
unfolding format_uint parse_digits scan_digits decimal_value
parse-format_uint n = elim (Bool-cases (n == 0)) [
  | inl h ↦ rw (h, eq_of_beq n 0 h) refl
  | inr h ↦ rw h (parse-digits decimal n (ne_of_beq n 0 h))
]

-- A decimal digit is no sign.
pub unsigned :
    (c : Char) (d : ℕ)
    → decimal_value (code c) ≡ some d
    → ((code c == b'-') ≡ false) × ((code c == b'+') ≡ false)
unfolding decimal_value
unsigned c d h = ground arith

parse_int_unsigned :
    (text : String)
    → Starts decimal text
    → parse_int decimal text ≡ with_sign false (parse_digits decimal text)
unfolding parse_int
parse_int_unsigned [] h = absurd h
parse_int_unsigned (c ∷ text) (d, h) = let (minus, plus) = unsigned c d h in rw (minus, plus) refl

-- The range of an int64.
abbrev pub InInt64 : ℤ → Type 0
InInt64 (pos n) = n < 2 ^ 63
InInt64 (negsuc n) = suc n ≤ 2 ^ 63

-- Every int64 is read back from its decimal print.
pub parse_int-format_int : (z : ℤ) → InInt64 z → parse_int decimal (format_int decimal z) ≡ some z
unfolding parse_int format_int ◌-ℤ◌
parse_int-format_int (pos n) h =
    rw (parse_int_unsigned _ (format_uint-Starts n), parse-format_uint n) (ground arith)
parse_int-format_int (negsuc n) h = rw (parse-format_uint (suc n)) (ground arith)
