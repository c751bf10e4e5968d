-- ===== src/Validator/Settings.antt =====
-- A change of settings that passes the checks leaves a user with valid settings.
use miniflux.Base.{
  ◌⊎◌, inr, ℕ, String, ◌≡◌, refl, sym, true, false, Option, none, some, List, [], ◌∷◌, arith,
  nat_eq, string_eq, All,
}
use miniflux.Base.Int.{ℤ, pos, ◌<ℤ◌}
use mathlib.Core.Option.{none-ne-some}
use miniflux.Model.Category.{over}
use miniflux.Model.User.{User, UserModificationRequest, patch_user}
use miniflux.Reader.Filter.Rules.{Library, is_one_of}
use miniflux.Validator.Checks.{
  given, first_error, one_of, validate_direction, validate_rules, invalid_block_rule,
  invalid_keep_rule, backend_error, is_valid_domain_list,
}
use miniflux.Validator.User.{
  World, themes, home_pages, available_languages, entry_orders, categories_orders, display_modes,
  gestures, validate_theme, validate_language, validate_entry_direction,
  validate_entry_sorting_order, validate_entries_per_page, validate_categories_sorting_order,
  validate_display_mode, validate_gesture_nav, validate_reading_speed, validate_default_home_page,
  validate_media_playback_rate, validate_timezone, check_domains, modification_checks,
  validate_user_modification,
}

-- The name of a time zone that the storage lists.
abbrev pub IsKnownZone : Option (List String) → String → Type 0
IsKnownZone none s = ⊥
IsKnownZone (some names) s = is_one_of names s ≡ true

-- No hosts, or domains.
abbrev pub IsHosts : {Rate : Type 0} → World Rate → Library → String → Type 0
IsHosts w lib s = (s ≡ "") ⊎ (is_valid_domain_list lib.to_lower w.matches_domain s ≡ true)

-- The settings of a user that the checks are about; the name and the password, which are checked too,
-- are none of them.
pub record HasValidSettings {Rate : Type 0} (w : World Rate) (lib : Library) (u : User Rate)
    : Type 0 where
  pub theme : is_one_of themes u.theme ≡ true
  pub language : is_one_of available_languages u.language ≡ true
  pub entry_direction : is_one_of ("asc" ∷ "desc" ∷ []) u.entry_direction ≡ true
  pub entry_order : is_one_of entry_orders u.entry_order ≡ true
  pub entries_per_page : pos 0 <ℤ u.entries_per_page
  pub categories_sorting_order : is_one_of categories_orders u.categories_sorting_order ≡ true
  pub display_mode : is_one_of display_modes u.display_mode ≡ true
  pub gesture_nav : is_one_of gestures u.gesture_nav ≡ true
  pub default_reading_speed : pos 0 <ℤ u.default_reading_speed
  pub cjk_reading_speed : pos 0 <ℤ u.cjk_reading_speed
  pub default_home_page : is_one_of home_pages u.default_home_page ≡ true
  pub media_playback_rate : w.rate_out_of_range u.media_playback_rate ≡ false
  pub timezone : IsKnownZone w.timezones u.timezone
  pub block_rules : validate_rules lib invalid_block_rule u.block_filter_entry_rules ≡ none
  pub keep_rules : validate_rules lib invalid_keep_rule u.keep_filter_entry_rules ≡ none
  pub font_hosts : IsHosts w lib u.external_font_hosts

pub first_error-none {κ} :
    {E : Type κ} (checks : List (Option E)) → first_error checks ≡ none → All (λ o. o ≡ none) checks
first_error-none [] h = tt
first_error-none (none ∷ rest) h = (refl, first_error-none rest h)
first_error-none (some err ∷ rest) h = absurd (none-ne-some err (sym h))

-- A field that is given and passes its check, or is left alone.
pub over-keeps {ℓ κ ν} :
    {A : Type ℓ} {E : Type κ} (P : A → Type ν) (check : A → Option E)
    → ((a : A) → check a ≡ none → P a)
    → (given_value : Option A) (old : A) → given check given_value ≡ none
    → P old
    → P (over given_value old)
over-keeps P check sound none old h p = p
over-keeps P check sound (some a) old h p = sound a h

one_of-none :
    (key : String) (names : List String) (s : String)
    → one_of key names s ≡ none
    → is_one_of names s ≡ true
one_of-none key names s h = ground arith

theme_sound : (s : String) → validate_theme s ≡ none → is_one_of themes s ≡ true
unfolding validate_theme
theme_sound s h = one_of-none "error.invalid_theme" themes s h

language_sound : (s : String) → validate_language s ≡ none → is_one_of available_languages s ≡ true
unfolding validate_language
language_sound s h = one_of-none "error.invalid_language" available_languages s h

entry_order_sound :
    (s : String) → validate_entry_sorting_order s ≡ none → is_one_of entry_orders s ≡ true
unfolding validate_entry_sorting_order
entry_order_sound s h = one_of-none "error.invalid_entry_order" entry_orders s h

categories_order_sound :
    (s : String) → validate_categories_sorting_order s ≡ none → is_one_of categories_orders s ≡ true
unfolding validate_categories_sorting_order
categories_order_sound s h =
    one_of-none "error.invalid_categories_sorting_order" categories_orders s h

display_mode_sound :
    (s : String) → validate_display_mode s ≡ none → is_one_of display_modes s ≡ true
unfolding validate_display_mode
display_mode_sound s h = one_of-none "error.invalid_display_mode" display_modes s h

gesture_nav_sound : (s : String) → validate_gesture_nav s ≡ none → is_one_of gestures s ≡ true
unfolding validate_gesture_nav
gesture_nav_sound s h = one_of-none "error.invalid_gesture_nav" gestures s h

home_page_sound : (s : String) → validate_default_home_page s ≡ none → is_one_of home_pages s ≡ true
unfolding validate_default_home_page
home_page_sound s h = one_of-none "error.invalid_default_home_page" home_pages s h

listed :
    (names : Option (List String)) (s : String)
    → elim names [
      | none ↦ some backend_error
      | some zones ↦ one_of "error.invalid_timezone" zones s
    ]
      ≡ none
    → IsKnownZone names s
listed none s h = cc
listed (some zones) s h = one_of-none "error.invalid_timezone" zones s h

module _ {Rate : Type 0} (w : World Rate) where
  entries_per_page-sound : (n : ℤ) → validate_entries_per_page n ≡ none → pos 0 <ℤ n
  unfolding validate_entries_per_page
  entries_per_page-sound n h = ground arith

  reading_speed-sound : (n : ℤ) → validate_reading_speed n ≡ none → pos 0 <ℤ n
  unfolding validate_reading_speed
  reading_speed-sound n h = ground arith

  entry_direction_sound :
      (s : String) → validate_entry_direction w s ≡ none → is_one_of ("asc" ∷ "desc" ∷ []) s ≡ true
  unfolding validate_direction
  entry_direction_sound s h = ground arith

  rate_sound : (a : Rate) → validate_media_playback_rate w a ≡ none → w.rate_out_of_range a ≡ false
  unfolding validate_media_playback_rate
  rate_sound a h = ground arith

  timezone_sound : (s : String) → validate_timezone w s ≡ none → IsKnownZone w.timezones s
  unfolding validate_timezone
  timezone_sound s h = listed w.timezones s h

  domains_sound : (lib : Library) (s : String) → check_domains w lib s ≡ none → IsHosts w lib s
  domains_sound lib s h = inr (ground arith)

  -- Where ValidateUserModification finds no error, the patch of a user with valid settings has
  -- valid settings.
  pub patch_user-HasValidSettings :
      (lib : Library) (user_id : ℕ) (r : UserModificationRequest Rate) (u : User Rate)
      → validate_user_modification w lib user_id r ≡ none
      → HasValidSettings w lib u
      → HasValidSettings w lib (patch_user r u)
  unfolding modification_checks validate_user_modification patch_user
  patch_user-HasValidSettings lib user_id r u h valid =
      let c = first_error-none (modification_checks w lib user_id r) h in
      let from_theme = c.1.1 in
      let from_direction = from_theme.1.1.1 in
      let from_categories = from_direction.1.1.1 in
      let from_speed = from_categories.1.1.1 in
      let from_home = from_speed.1.1 in
      record {
        theme = over-keeps _ validate_theme theme_sound r.theme u.theme from_theme.0 valid.theme;
        language =
            over-keeps _ validate_language language_sound r.language u.language from_theme.1.0
              valid.language;
        entry_direction =
            over-keeps _ (validate_entry_direction w) entry_direction_sound r.entry_direction
              u.entry_direction from_direction.0 valid.entry_direction;
        entry_order =
            over-keeps _ validate_entry_sorting_order entry_order_sound r.entry_order u.entry_order
              from_direction.1.0 valid.entry_order;
        entries_per_page =
            over-keeps _ validate_entries_per_page entries_per_page-sound r.entries_per_page
              u.entries_per_page from_direction.1.1.0 valid.entries_per_page;
        categories_sorting_order =
            over-keeps _ validate_categories_sorting_order categories_order_sound
              r.categories_sorting_order u.categories_sorting_order from_categories.0
              valid.categories_sorting_order;
        display_mode =
            over-keeps _ validate_display_mode display_mode_sound r.display_mode u.display_mode
              from_categories.1.0 valid.display_mode;
        gesture_nav =
            over-keeps _ validate_gesture_nav gesture_nav_sound r.gesture_nav u.gesture_nav
              from_categories.1.1.0 valid.gesture_nav;
        default_reading_speed =
            over-keeps _ validate_reading_speed reading_speed-sound r.default_reading_speed
              u.default_reading_speed from_speed.0 valid.default_reading_speed;
        cjk_reading_speed =
            over-keeps _ validate_reading_speed reading_speed-sound r.cjk_reading_speed
              u.cjk_reading_speed from_speed.1.0 valid.cjk_reading_speed;
        default_home_page =
            over-keeps _ validate_default_home_page home_page_sound r.default_home_page
              u.default_home_page from_home.0 valid.default_home_page;
        media_playback_rate =
            over-keeps _ (validate_media_playback_rate w) rate_sound r.media_playback_rate
              u.media_playback_rate from_home.1.0 valid.media_playback_rate;
        timezone =
            over-keeps _ (validate_timezone w) timezone_sound r.timezone u.timezone from_theme.1.1.0
              valid.timezone;
        block_rules =
            over-keeps (λ s. validate_rules lib invalid_block_rule s ≡ none)
              (validate_rules lib invalid_block_rule) (λ s ok. ok) r.block_filter_entry_rules
              u.block_filter_entry_rules from_home.1.1.0 valid.block_rules;
        keep_rules =
            over-keeps (λ s. validate_rules lib invalid_keep_rule s ≡ none)
              (validate_rules lib invalid_keep_rule) (λ s ok. ok) r.keep_filter_entry_rules
              u.keep_filter_entry_rules from_home.1.1.1.0 valid.keep_rules;
        font_hosts =
            over-keeps _ (check_domains w lib) (domains_sound lib) r.external_font_hosts
              u.external_font_hosts from_home.1.1.1.1.0 valid.font_hosts;
      }
