-- ===== src/Reader/Filter/Dates.antt =====
-- internal/reader/filter/filter.go: matchDatePattern and parseDuration, and what the filter takes of
-- the standard library.
use miniflux.Base.{
  suc, ◌*◌, String, Bool, false, ◌&&◌, Option, none, some, List, if◌then◌else◌, ◌==◌, nat_eq,
  string_eq,
}
use miniflux.Base.Int.{ℤ, pos, negsuc, sub_ℕ, wrap64, ◌+ℤ◌, ◌-ℤ◌, ltb_ℤ}
use miniflux.Base.Text.{cut, cut_suffix}

-- What the filter takes of Go's standard library: regexp.Compile and MatchString,
-- strings.ToLower, time.Parse with "2006-01-02", strconv.Atoi, time.ParseDuration and
-- slices.BinarySearch. Instants and durations are nanoseconds.
pub record Library : Type 1 where
  pub Regexp : Type 0
  pub compile : String → Option Regexp
  pub match_string : Regexp → String → Bool
  pub to_lower : String → String
  pub parse_date : String → Option ℤ
  pub atoi : String → Option ℤ
  pub parse_go_duration : String → Option ℤ
  pub binary_search : List String → String → Bool

-- time.Duration(days) * 24 * time.Hour
unfoldable pub days : ℤ → ℤ
days (pos n) = wrap64 (pos (n * 86400000000000))
days (negsuc n) = wrap64 (sub_ℕ 0 (suc n * 86400000000000))

module _ (lib : Library) where
  unfoldable pub parse_duration : String → Option ℤ
  unfolding days
  parse_duration s = elim (cut_suffix 0x64 s) [
    | some number ↦ elim (lib.atoi number) [ none ↦ none | some n ↦ some (days n) ]
    | none ↦ lib.parse_go_duration s
  ]

  -- matchDatePattern at the instant `now`
  unfoldable pub match_date_pattern : ℤ → String → ℤ → Bool
  unfolding parse_duration
  match_date_pattern now pattern date =
      if pattern == "future" then ltb_ℤ now date else elim (cut 0x3a pattern) [
        | none ↦ false
        | some (rule_type, input) ↦
            let kind = lib.to_lower rule_type in
            if kind == "before"
            then elim (lib.parse_date input) [ none ↦ false | some target ↦ ltb_ℤ date target ]
            else if kind == "after"
            then elim (lib.parse_date input) [ none ↦ false | some target ↦ ltb_ℤ target date ]
            else if kind == "between"
            then elim (cut 0x2c input) [
              | none ↦ false
              | some (d1, d2) ↦ elim (lib.parse_date d1) [
                | none ↦ false
                | some start ↦ elim (lib.parse_date d2) [
                  | none ↦ false
                  | some end ↦ ltb_ℤ start date && ltb_ℤ date end
                ]
              ]
            ]
            else if kind == "max-age"
            then elim (parse_duration input) [
              | none ↦ false
              | some duration ↦ ltb_ℤ date (now +ℤ wrap64 (pos 0 -ℤ duration))
            ]
            else false
      ]
