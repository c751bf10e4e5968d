-- ===== src/Model/User.antt =====
-- internal/model/user.go: a user and the request that changes the settings. The playback rate, a
-- float64, is a value of a type `Rate`; the integrations of UserExtra are left out.
use miniflux.Base.{ℕ, String, Bool, Option, nat_eq, string_eq}
use miniflux.Base.Int.{ℤ}
use miniflux.Model.Category.{over}

pub record UserExtra : Type 0 where
  pub always_open_external_links : Bool
  pub open_external_link_same_tab : Bool

pub record User (Rate : Type 0) : Type 0 where
  pub id : ℕ
  pub username : String
  pub password : String
  pub is_admin : Bool
  pub theme : String
  pub language : String
  pub timezone : String
  pub entry_direction : String
  pub entry_order : String
  pub stylesheet : String
  pub custom_js : String
  pub external_font_hosts : String
  pub google_id : String
  pub open_id_connect_id : String
  pub entries_per_page : ℤ
  pub keyboard_shortcuts : Bool
  pub show_reading_time : Bool
  pub entry_swipe : Bool
  pub gesture_nav : String
  pub last_login_at : Option ℕ
  pub display_mode : String
  pub default_reading_speed : ℤ
  pub cjk_reading_speed : ℤ
  pub default_home_page : String
  pub categories_sorting_order : String
  pub mark_read_on_view : Bool
  pub mark_read_on_media_player_completion : Bool
  pub media_playback_rate : Rate
  pub block_filter_entry_rules : String
  pub keep_filter_entry_rules : String
  pub extra : UserExtra

pub record UserCreationRequest : Type 0 where
  pub username : String
  pub password : String
  pub is_admin : Bool
  pub google_id : String
  pub open_id_connect_id : String

pub record UserModificationRequest (Rate : Type 0) : Type 0 where
  pub username : Option String
  pub password : Option String
  pub theme : Option String
  pub language : Option String
  pub timezone : Option String
  pub entry_direction : Option String
  pub entry_order : Option String
  pub stylesheet : Option String
  pub custom_js : Option String
  pub external_font_hosts : Option String
  pub entries_per_page : Option ℤ
  pub is_admin : Option Bool
  pub keyboard_shortcuts : Option Bool
  pub show_reading_time : Option Bool
  pub entry_swipe : Option Bool
  pub gesture_nav : Option String
  pub display_mode : Option String
  pub default_reading_speed : Option ℤ
  pub cjk_reading_speed : Option ℤ
  pub default_home_page : Option String
  pub categories_sorting_order : Option String
  pub mark_read_on_view : Option Bool
  pub mark_read_on_media_player_completion : Option Bool
  pub media_playback_rate : Option Rate
  pub block_filter_entry_rules : Option String
  pub keep_filter_entry_rules : Option String
  pub always_open_external_links : Option Bool
  pub open_external_link_same_tab : Option Bool

-- UserModificationRequest.Patch
unfoldable pub patch_user : {Rate : Type 0} → UserModificationRequest Rate → User Rate → User Rate
patch_user r u = record u {
  username = over r.username u.username;
  password = over r.password u.password;
  theme = over r.theme u.theme;
  language = over r.language u.language;
  timezone = over r.timezone u.timezone;
  entry_direction = over r.entry_direction u.entry_direction;
  entry_order = over r.entry_order u.entry_order;
  stylesheet = over r.stylesheet u.stylesheet;
  custom_js = over r.custom_js u.custom_js;
  external_font_hosts = over r.external_font_hosts u.external_font_hosts;
  entries_per_page = over r.entries_per_page u.entries_per_page;
  is_admin = over r.is_admin u.is_admin;
  keyboard_shortcuts = over r.keyboard_shortcuts u.keyboard_shortcuts;
  show_reading_time = over r.show_reading_time u.show_reading_time;
  entry_swipe = over r.entry_swipe u.entry_swipe;
  gesture_nav = over r.gesture_nav u.gesture_nav;
  display_mode = over r.display_mode u.display_mode;
  default_reading_speed = over r.default_reading_speed u.default_reading_speed;
  cjk_reading_speed = over r.cjk_reading_speed u.cjk_reading_speed;
  default_home_page = over r.default_home_page u.default_home_page;
  categories_sorting_order = over r.categories_sorting_order u.categories_sorting_order;
  mark_read_on_view = over r.mark_read_on_view u.mark_read_on_view;
  mark_read_on_media_player_completion =
      over r.mark_read_on_media_player_completion u.mark_read_on_media_player_completion;
  media_playback_rate = over r.media_playback_rate u.media_playback_rate;
  block_filter_entry_rules = over r.block_filter_entry_rules u.block_filter_entry_rules;
  keep_filter_entry_rules = over r.keep_filter_entry_rules u.keep_filter_entry_rules;
  extra = record {
    always_open_external_links =
        over r.always_open_external_links u.extra.always_open_external_links;
    open_external_link_same_tab =
        over r.open_external_link_same_tab u.extra.open_external_link_same_tab;
  };
}
