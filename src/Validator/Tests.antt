-- ===== src/Validator/Tests.antt =====
-- Runs of the checks, and their theorems at inputs.
use miniflux.Base.{
  inl, ℕ, String, ◌≡◌, refl, ◌≢◌, true, false, ◌&&◌, none, some, [], ◌∷◌, arith, ltb, leb, ◌==◌,
  nat_eq, string_eq, any,
}
use miniflux.Base.Int.{pos}
use miniflux.Base.Text.{has_prefix, byte_length, split, trim_space, cut, cut_suffix}
use miniflux.Model.Feed.{Feed}
use miniflux.Model.User.{User, UserModificationRequest, patch_user}
use miniflux.Model.Samples.{blank_feed, blank_user}
use miniflux.Reader.Filter.Rules.{Library, new_combined_filter}
use miniflux.Reader.Filter.Entries.{done, delete_entries}
use miniflux.Validator.Checks.{validate_rules, is_valid_domain_list, is_valid_domain}
use miniflux.Validator.User.{
  World, validate_password, validate_user_modification, modification_checks, validate_theme,
}
use miniflux.Validator.Settings.{HasValidSettings, patch_user-HasValidSettings}
use miniflux.Validator.Rules.{validated-delete_entries}

abbrev prefixes : Library
prefixes = record {
  Regexp = String;
  compile = λ s. some s;
  match_string = has_prefix;
  to_lower = λ s. s;
  parse_date = λ s. none;
  atoi = λ s. none;
  parse_go_duration = λ s. none;
  binary_search = λ authors a. any (λ b. b == a) authors;
}

abbrev world : World ℕ
world = record {
  user_exists = λ s. false;
  another_user_exists = λ i s. s == "taken";
  timezones = some ("UTC" ∷ []);
  is_letter = λ c. leb 97 c && leb c 122;
  is_number = λ c. leb 48 c && leb c 57;
  matches_domain = λ s. true;
  rate_out_of_range = λ r. ltb 4 r;
}

abbrev settled : User ℕ
settled = record blank_user {
  timezone = "UTC";
  theme = "dark_serif";
  language = "en_US";
  entry_direction = "asc";
  entry_order = "created_at";
  categories_sorting_order = "alphabetical";
  display_mode = "browser";
  gesture_nav = "tap";
  default_home_page = "unread";
}

abbrev no_change : UserModificationRequest ℕ
no_change = record {
  username = none;
  password = none;
  theme = none;
  language = none;
  timezone = none;
  entry_direction = none;
  entry_order = none;
  stylesheet = none;
  custom_js = none;
  external_font_hosts = none;
  entries_per_page = none;
  is_admin = none;
  keyboard_shortcuts = none;
  show_reading_time = none;
  entry_swipe = none;
  gesture_nav = none;
  display_mode = none;
  default_reading_speed = none;
  cjk_reading_speed = none;
  default_home_page = none;
  categories_sorting_order = none;
  mark_read_on_view = none;
  mark_read_on_media_player_completion = none;
  media_playback_rate = none;
  block_filter_entry_rules = none;
  keep_filter_entry_rules = none;
  always_open_external_links = none;
  open_external_link_same_tab = none;
}

abbrev new_theme : UserModificationRequest ℕ
new_theme = record no_change { theme = some "light_serif"; entries_per_page = some (pos 30) }

short_password : validate_password "12345" ≢ none
unfolding validate_password byte_length
short_password e = cc

patch_user-HasValidSettings_example : HasValidSettings world prefixes (patch_user new_theme settled)
unfolding validate_user_modification modification_checks validate_theme validate_rules
    is_valid_domain_list is_valid_domain byte_length split trim_space
patch_user-HasValidSettings_example =
    patch_user-HasValidSettings world prefixes 1 new_theme settled refl (record {
      theme = refl;
      language = refl;
      entry_direction = refl;
      entry_order = refl;
      entries_per_page = omega arith;
      categories_sorting_order = refl;
      display_mode = refl;
      gesture_nav = refl;
      default_reading_speed = omega arith;
      cjk_reading_speed = omega arith;
      default_home_page = refl;
      media_playback_rate = refl;
      timezone = refl;
      block_rules = refl;
      keep_rules = refl;
      font_hosts = inl refl;
    })

abbrev reader : User ℕ
reader = record blank_user { block_filter_entry_rules = "title=bad\nurl=http:" }

validated-delete_entries_example :
    (f' : Feed String) × (delete_entries prefixes 100 0 false false reader blank_feed ≡ done f')
unfolding validate_rules new_combined_filter trim_space split cut_suffix cut
validated-delete_entries_example =
    validated-delete_entries prefixes 100 0 false false reader blank_feed refl refl refl refl refl
