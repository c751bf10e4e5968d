-- ===== src/Locale/Plural.antt =====
-- internal/locale/plural.go, getPluralForm, and the choice of a translation in Printer.Plural
-- (printer.go). `n` is an int, so Go's `%` has its sign.
use miniflux.Base.{
  ℕ, ◌<◌, String, Bool, not, ◌&&◌, ◌||◌, Option, none, some, List, [], ◌∷◌, arith, if◌then◌else◌,
  ◌==◌, nat_eq, string_eq, get_elem?, any, All,
}
use miniflux.Base.Int.{ℤ, pos, rem, ltb_ℤ, leb_ℤ, eqb_ℤ}

abbrev pub is_lang : List String → String → Bool
is_lang names s = any (λ name. name == s) names

-- `a <= n%m && n%m <= b`
abbrev pub rem_within : ℕ → ℕ → ℕ → ℤ → Bool
rem_within m a b n = leb_ℤ (pos a) (rem n m) && leb_ℤ (rem n m) (pos b)

-- `n%10 >= 2 && n%10 <= 4 && (n%100 < 10 || n%100 >= 20)`
abbrev pub is_few : ℤ → Bool
is_few n = rem_within 10 2 4 n && (ltb_ℤ (rem n 100) (pos 10) || leb_ℤ (pos 20) (rem n 100))

abbrev pub plural_arabic : ℤ → ℕ
plural_arabic n =
    if eqb_ℤ n (pos 0)
    then 0
    else if eqb_ℤ n (pos 1)
    then 1
    else if eqb_ℤ n (pos 2)
    then 2
    else if rem_within 100 3 10 n
    then 3
    else if leb_ℤ (pos 11) (rem n 100)
    then 4
    else 5

abbrev pub plural_czech : ℤ → ℕ
plural_czech n = if eqb_ℤ n (pos 1) then 0 else if leb_ℤ (pos 2) n && leb_ℤ n (pos 4) then 1 else 2

abbrev pub plural_galician : ℤ → ℕ
plural_galician n = if not (eqb_ℤ n (pos 1)) then 1 else 0

abbrev pub plural_polish : ℤ → ℕ
plural_polish n = if eqb_ℤ n (pos 1) then 0 else if is_few n then 1 else 2

abbrev pub plural_romanian : ℤ → ℕ
plural_romanian n =
    if eqb_ℤ n (pos 1)
    then 0
    else if eqb_ℤ n (pos 0) || (ltb_ℤ (pos 0) (rem n 100) && ltb_ℤ (rem n 100) (pos 20))
    then 1
    else 2

abbrev pub plural_slavic : ℤ → ℕ
plural_slavic n =
    if eqb_ℤ (rem n 10) (pos 1) && not (eqb_ℤ (rem n 100) (pos 11))
    then 0
    else if is_few n
    then 1
    else 2

abbrev pub plural_default : ℤ → ℕ
plural_default n = if ltb_ℤ (pos 1) n then 1 else 0

-- getPluralForm
unfoldable pub get_plural_form : String → ℤ → ℕ
get_plural_form lang n =
    if is_lang ("ar_SA" ∷ []) lang
    then plural_arabic n
    else if is_lang ("cs_CZ" ∷ []) lang
    then plural_czech n
    else if is_lang ("gl_ES" ∷ []) lang
    then plural_galician n
    else if is_lang ("id_ID" ∷ "ja_JP" ∷ "ko_KR" ∷ []) lang
    then 0
    else if is_lang ("pl_PL" ∷ []) lang
    then plural_polish n
    else if is_lang ("ro_RO" ∷ []) lang
    then plural_romanian n
    else if is_lang ("ru_RU" ∷ "uk_UA" ∷ "sr_RS" ∷ []) lang
    then plural_slavic n
    else if is_lang ("zh_CN" ∷ "zh_TW" ∷ "nan_Latn_pehoeji" ∷ []) lang
    then 0
    else plural_default n

-- The choice of Printer.Plural: the translation, or the key. `choices` are the plurals of the
-- dictionary under the key, `none` where it has none or there is no dictionary. The formatting of
-- the arguments is left out.
unfoldable pub plural : String → String → Option (List String) → ℤ → String
unfolding get_plural_form
plural lang key none n = key
plural lang key (some choices) n = elim (get_elem? choices (get_plural_form lang n)) [
  | none ↦ key
  | some text ↦ text
]

-- The languages of the catalogue, each with the number of plurals in translations/*.json.
abbrev pub catalogue : List (String × ℕ)
catalogue =
    ("ar_SA", 6)
    ∷ ("de_DE", 2)
    ∷ ("el_EL", 2)
    ∷ ("en_US", 2)
    ∷ ("es_ES", 2)
    ∷ ("fi_FI", 2)
    ∷ ("fr_FR", 2)
    ∷ ("gl_ES", 2)
    ∷ ("hi_IN", 2)
    ∷ ("id_ID", 1)
    ∷ ("it_IT", 2)
    ∷ ("ja_JP", 1)
    ∷ ("ko_KR", 1)
    ∷ ("nan_Latn_pehoeji", 1)
    ∷ ("nl_NL", 2)
    ∷ ("pl_PL", 3)
    ∷ ("pt_BR", 2)
    ∷ ("ro_RO", 3)
    ∷ ("ru_RU", 3)
    ∷ ("tr_TR", 2)
    ∷ ("uk_UA", 3)
    ∷ ("zh_CN", 1)
    ∷ ("zh_TW", 1)
    ∷ []

arabic-lt : (n : ℤ) → plural_arabic n < 6
arabic-lt n = ground arith

galician-lt : (n : ℤ) → plural_galician n < 2
galician-lt n = ground arith

polish-lt : (n : ℤ) → plural_polish n < 3
polish-lt n = ground arith

romanian-lt : (n : ℤ) → plural_romanian n < 3
romanian-lt n = ground arith

slavic-lt : (n : ℤ) → plural_slavic n < 3
slavic-lt n = ground arith

default-lt : (n : ℤ) → plural_default n < 2
default-lt n = ground arith

-- For every language of the catalogue and every number, negative ones included, the plural form is
-- the index of one of the plurals that the translations of the language have.
pub get_plural_form-lt : All (λ p. (n : ℤ) → get_plural_form p.0 n < p.1) catalogue
unfolding get_plural_form
get_plural_form-lt = (
  arabic-lt,
  (
    default-lt,
    (
      default-lt,
      (
        default-lt,
        (
          default-lt,
          (
            default-lt,
            (
              default-lt,
              (
                galician-lt,
                (
                  default-lt,
                  (
                    λ n. omega arith,
                    (
                      default-lt,
                      (
                        λ n. omega arith,
                        (
                          λ n. omega arith,
                          (
                            λ n. omega arith,
                            (
                              default-lt,
                              (
                                polish-lt,
                                (
                                  default-lt,
                                  (
                                    romanian-lt,
                                    (
                                      slavic-lt,
                                      (
                                        default-lt,
                                        (slavic-lt, (λ n. omega arith, (λ n. omega arith, tt))),
                                      ),
                                    ),
                                  ),
                                ),
                              ),
                            ),
                          ),
                        ),
                      ),
                    ),
                  ),
                ),
              ),
            ),
          ),
        ),
      ),
    ),
  ),
)
