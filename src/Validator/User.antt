-- ===== src/Validator/User.antt =====
-- internal/validator/user.go: the checks of a new user and of a change of settings.
use miniflux.Base.{
  ℕ, String, Bool, not, ◌&&◌, ◌||◌, Option, none, some, List, [], ◌∷◌, ltb, nat_beq, if◌then◌else◌,
  ◌==◌, nat_eq, string_eq,
}
use miniflux.Base.Int.{ℤ, pos, ltb_ℤ, leb_ℤ}
use miniflux.Base.Text.{byte_length, contains}
use miniflux.Model.User.{UserCreationRequest, UserModificationRequest}
use miniflux.Reader.Filter.Rules.{Library}
use miniflux.Validator.Checks.{
  LocalizedError, message, invalid_block_rule, invalid_keep_rule, backend_error, given, first_error,
  one_of, validate_direction, is_valid_domain_list, validate_rules,
}

-- What the checks ask of the storage, of the packages unicode and regexp, and of a float64: whether
-- it is below 0.25 or above 4. `timezones` is `none` where the database fails.
pub record World (Rate : Type 0) : Type 0 where
  pub user_exists : String → Bool
  pub another_user_exists : ℕ → String → Bool
  pub timezones : Option (List String)
  pub is_letter : ℕ → Bool
  pub is_number : ℕ → Bool
  pub matches_domain : String → Bool
  pub rate_out_of_range : Rate → Bool

-- model/theme.go, model/home_page.go, locale.AvailableLanguages: the keys
abbrev pub themes : List String
themes =
    "light_serif" ∷ "light_sans_serif" ∷ "dark_serif" ∷ "dark_sans_serif" ∷ "system_serif"
    ∷ "system_sans_serif" ∷ []

abbrev pub home_pages : List String
home_pages = "unread" ∷ "starred" ∷ "history" ∷ "feeds" ∷ "categories" ∷ []

abbrev pub available_languages : List String
available_languages =
    "ar_SA" ∷ "de_DE" ∷ "el_EL" ∷ "en_US" ∷ "es_ES" ∷ "fi_FI" ∷ "fr_FR" ∷ "gl_ES" ∷ "hi_IN"
    ∷ "id_ID" ∷ "it_IT" ∷ "ja_JP" ∷ "ko_KR" ∷ "nan_Latn_pehoeji" ∷ "nl_NL" ∷ "pl_PL" ∷ "pt_BR"
    ∷ "ro_RO" ∷ "ru_RU" ∷ "tr_TR" ∷ "uk_UA" ∷ "zh_CN" ∷ "zh_TW" ∷ []

abbrev pub entry_orders : List String
entry_orders = "published_at" ∷ "created_at" ∷ []

abbrev pub categories_orders : List String
categories_orders = "alphabetical" ∷ "unread_count" ∷ []

abbrev pub display_modes : List String
display_modes = "fullscreen" ∷ "standalone" ∷ "minimal-ui" ∷ "browser" ∷ []

abbrev pub gestures : List String
gestures = "none" ∷ "tap" ∷ "swipe" ∷ []

-- validateReadingSpeed
unfoldable pub validate_reading_speed : ℤ → Option LocalizedError
validate_reading_speed n =
    if leb_ℤ n (pos 0) then some (message "error.settings_reading_speed_is_positive") else none

-- validatePassword
unfoldable pub validate_password : String → Option LocalizedError
unfolding byte_length
validate_password s =
    if ltb (byte_length s) 6 then some (message "error.password_min_length") else none

-- validateEntriesPerPage
unfoldable pub validate_entries_per_page : ℤ → Option LocalizedError
validate_entries_per_page n =
    if ltb_ℤ n (pos 1) then some (message "error.entries_per_page_invalid") else none

-- validateTheme, validateLanguage, validateEntrySortingOrder, validateCategoriesSortingOrder,
-- validateDisplayMode, validateGestureNav, validateDefaultHomePage
unfoldable pub validate_theme : String → Option LocalizedError
validate_theme s = one_of "error.invalid_theme" themes s

unfoldable pub validate_language : String → Option LocalizedError
validate_language s = one_of "error.invalid_language" available_languages s

unfoldable pub validate_entry_sorting_order : String → Option LocalizedError
validate_entry_sorting_order s = one_of "error.invalid_entry_order" entry_orders s

unfoldable pub validate_categories_sorting_order : String → Option LocalizedError
validate_categories_sorting_order s =
    one_of "error.invalid_categories_sorting_order" categories_orders s

unfoldable pub validate_display_mode : String → Option LocalizedError
validate_display_mode s = one_of "error.invalid_display_mode" display_modes s

unfoldable pub validate_gesture_nav : String → Option LocalizedError
validate_gesture_nav s = one_of "error.invalid_gesture_nav" gestures s

unfoldable pub validate_default_home_page : String → Option LocalizedError
validate_default_home_page s = one_of "error.invalid_default_home_page" home_pages s

module _ {Rate : Type 0} (w : World Rate) where
  -- validateUsername
  unfoldable pub validate_username : String → Option LocalizedError
  unfolding contains
  validate_username s =
      let is_bad : ℕ → Bool = λ c.
        not (w.is_letter c || w.is_number c)
        && not (nat_beq c 0x5f || nat_beq c 0x2d || nat_beq c 0x40 || nat_beq c 0x2e) in
      if contains is_bad s then some (message "error.invalid_username") else none

  -- validateTimezone
  unfoldable pub validate_timezone : String → Option LocalizedError
  validate_timezone s = elim w.timezones [
    | none ↦ some backend_error
    | some names ↦ one_of "error.invalid_timezone" names s
  ]

  -- validateMediaPlaybackRate
  unfoldable pub validate_media_playback_rate : Rate → Option LocalizedError
  validate_media_playback_rate r =
      if w.rate_out_of_range r
      then some (message "error.settings_media_playback_rate_range")
      else none

  -- ValidateUserCreationWithPassword
  unfoldable pub validate_user_creation_with_password : UserCreationRequest → Option LocalizedError
  unfolding validate_username validate_password
  validate_user_creation_with_password r =
      if r.username == ""
      then some (message "error.user_mandatory_fields")
      else if w.user_exists r.username
      then some (message "error.user_already_exists")
      else first_error (validate_username r.username ∷ validate_password r.password ∷ [])

  -- The checks of the name in ValidateUserModification.
  unfoldable pub validate_new_name : ℕ → String → Option LocalizedError
  validate_new_name user_id s =
      if s == ""
      then some (message "error.user_mandatory_fields")
      else if w.another_user_exists user_id s
      then some (message "error.user_already_exists")
      else none

  -- `if err := ValidateDirection(…); err != nil`
  abbrev pub validate_entry_direction : String → Option LocalizedError
  validate_entry_direction s = elim (validate_direction s) [
    | none ↦ none
    | some err ↦ some (message "error.invalid_entry_direction")
  ]

  abbrev pub check_domains : Library → String → Option LocalizedError
  check_domains lib s =
      if is_valid_domain_list lib.to_lower w.matches_domain s
      then none
      else some (message "error.settings_invalid_domain_list")

  -- The checks of ValidateUserModification, in their order.
  unfoldable pub modification_checks :
      Library → ℕ → UserModificationRequest Rate → List (Option LocalizedError)
  unfolding validate_new_name validate_password validate_theme validate_language validate_timezone
      validate_direction validate_entry_sorting_order validate_entries_per_page
      validate_categories_sorting_order validate_display_mode validate_gesture_nav
      validate_reading_speed validate_default_home_page validate_media_playback_rate validate_rules
      is_valid_domain_list
  modification_checks lib user_id r =
      given (validate_new_name user_id) r.username
      ∷ given validate_password r.password
      ∷ given validate_theme r.theme
      ∷ given validate_language r.language
      ∷ given validate_timezone r.timezone
      ∷ given validate_entry_direction r.entry_direction
      ∷ given validate_entry_sorting_order r.entry_order
      ∷ given validate_entries_per_page r.entries_per_page
      ∷ given validate_categories_sorting_order r.categories_sorting_order
      ∷ given validate_display_mode r.display_mode
      ∷ given validate_gesture_nav r.gesture_nav
      ∷ given validate_reading_speed r.default_reading_speed
      ∷ given validate_reading_speed r.cjk_reading_speed
      ∷ given validate_default_home_page r.default_home_page
      ∷ given validate_media_playback_rate r.media_playback_rate
      ∷ given (validate_rules lib invalid_block_rule) r.block_filter_entry_rules
      ∷ given (validate_rules lib invalid_keep_rule) r.keep_filter_entry_rules
      ∷ given (check_domains lib) r.external_font_hosts
      ∷ []

  -- ValidateUserModification
  unfoldable pub validate_user_modification :
      Library → ℕ → UserModificationRequest Rate → Option LocalizedError
  unfolding modification_checks
  validate_user_modification lib user_id r = first_error (modification_checks lib user_id r)
