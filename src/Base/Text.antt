-- ===== src/Base/Text.antt =====
-- The functions of Go's `strings` package that the program calls, over code points.
pub mod Prefixes
use Prim.Native.Nat.{ℕ, ◌+◌}
use Prim.Native.Char.{Char, code}
use Prim.Native.String.{String, [], ◌∷◌}
use mathlib.Core.Bool.{Bool, true, false, ◌||◌, ◌&&◌}
use mathlib.Core.Option.{Option, none, some}
use mathlib.Core.List.{List, [], ◌∷◌}
use miniflux.Base.Tests.{ltb, leb, nat_beq, if◌then◌else◌}

-- `unicode.IsSpace`: the White_Space property.
unfoldable pub is_space : ℕ → Bool
is_space c =
    (leb 9 c && leb c 13)
    || nat_beq c 32
    || nat_beq c 0x85
    || nat_beq c 0xa0
    || nat_beq c 0x1680
    || (leb 0x2000 c && leb c 0x200a)
    || nat_beq c 0x2028
    || nat_beq c 0x2029
    || nat_beq c 0x202f
    || nat_beq c 0x205f
    || nat_beq c 0x3000

unfoldable pub trim_left : String → String
unfolding is_space
trim_left [] = []
trim_left (c ∷ s) = if is_space (code c) then trim_left s else c ∷ s

-- Drops the white space at the end.
unfoldable pub trim_right : String → String
unfolding is_space
trim_right [] = []
trim_right (c ∷ s) = elim (trim_right s) [
  | [] ↦ if is_space (code c) then [] else c ∷ []
  | d ∷ r ↦ c ∷ d ∷ r
]

-- `strings.TrimSpace`
unfoldable pub trim_space : String → String
unfolding trim_left trim_right
trim_space s = trim_right (trim_left s)

-- `strings.Cut` at a separator of one character: `none` where it is not found.
unfoldable pub cut : ℕ → String → Option (String × String)
cut sep [] = none
cut sep (c ∷ s) =
    if nat_beq (code c) sep
    then some ([], s)
    else elim (cut sep s) [ none ↦ none | some (before, after) ↦ some (c ∷ before, after) ]

-- `strings.CutPrefix`: `none` where the text does not begin so.
unfoldable pub cut_prefix : String → String → Option String
cut_prefix [] s = some s
cut_prefix (p ∷ ps) [] = none
cut_prefix (p ∷ ps) (c ∷ s) = if nat_beq (code p) (code c) then cut_prefix ps s else none

-- `strings.TrimPrefix`
unfoldable pub trim_prefix : String → String → String
unfolding cut_prefix
trim_prefix p s = elim (cut_prefix p s) [ none ↦ s | some rest ↦ rest ]

-- `strings.HasPrefix`
unfoldable pub has_prefix : String → String → Bool
unfolding cut_prefix
has_prefix p s = elim (cut_prefix p s) [ none ↦ false | some rest ↦ true ]

-- Adds a character to the first part of a split.
abbrev pub grow : Char → List String → List String
grow c [] = (c ∷ []) ∷ []
grow c (part ∷ parts) = (c ∷ part) ∷ parts

-- `strings.Split` at a separator of one character.
unfoldable pub split : ℕ → String → List String
split sep [] = [] ∷ []
split sep (c ∷ s) = if nat_beq (code c) sep then [] ∷ split sep s else grow c (split sep s)

-- `strings.CutSuffix` at a suffix of one character: `none` where the text does not end so.
unfoldable pub cut_suffix : ℕ → String → Option String
cut_suffix suffix [] = none
cut_suffix suffix (c ∷ []) = if nat_beq (code c) suffix then some [] else none
cut_suffix suffix (c ∷ d ∷ s) = elim (cut_suffix suffix (d ∷ s)) [
  | none ↦ none
  | some rest ↦ some (c ∷ rest)
]

-- The bytes of a text in UTF-8, Go's `len`.
abbrev pub char_bytes : ℕ → ℕ
char_bytes c = if ltb c 0x80 then 1 else if ltb c 0x800 then 2 else if ltb c 0x10000 then 3 else 4

unfoldable pub byte_length : String → ℕ
byte_length [] = 0
byte_length (c ∷ s) = char_bytes (code c) + byte_length s

-- `strings.ContainsFunc`
unfoldable pub contains : (ℕ → Bool) → String → Bool
contains p [] = false
contains p (c ∷ s) = p (code c) || contains p s

-- Go's `+` on texts.
unfoldable pub append : String → String → String
append [] t = t
append (c ∷ s) t = c ∷ append s t
