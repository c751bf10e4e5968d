-- ===== src/Model/Samples.antt =====
-- Values for the tests: an entry, a feed and a user with nothing set. URLs are texts there.
use miniflux.Base.{ℕ, String, false, none, [], nat_eq, string_eq}
use miniflux.Base.Int.{pos}
use miniflux.Model.User.{User}
use miniflux.Model.Entry.{Entry}
use miniflux.Model.Feed.{Feed}

abbrev pub blank_entry : Entry String
blank_entry = record {
  id = 0;
  user_id = 1;
  feed_id = 1;
  status = "unread";
  hash = "";
  title = "";
  url = "";
  comments_url = "";
  date = 0;
  created_at = 0;
  changed_at = 0;
  content = "";
  author = "";
  starred = false;
  reading_time = 0;
  tags = [];
  extra = record { language = ""; auto_title = ""; enclosures = [] };
  parsed_url = none;
  imported = false;
  stored = false;
}

-- An unread entry of a feed with a hash and a date.
abbrev pub entry_of : ℕ → String → ℕ → Entry String
entry_of feed h day = record blank_entry { feed_id = feed; hash = h; date = day }

abbrev pub blank_feed : Feed String
blank_feed = record {
  id = 1;
  user_id = 1;
  feed_url = "https://a/feed";
  site_url = "";
  title = "";
  description = "";
  checked_at = 0;
  next_check_at = 0;
  etag_header = "";
  last_modified_header = "";
  parsing_error_msg = "";
  parsing_error_count = 0;
  scraper_rules = "";
  rewrite_rules = "";
  url_rewrite_rules = "";
  user_agent = "";
  cookie = "";
  username = "";
  password = "";
  disabled = false;
  no_media_player = false;
  ignore_http_cache = false;
  allow_self_signed_certificates = false;
  fetch_via_proxy = false;
  hide_globally = false;
  disable_http2 = false;
  pushover_enabled = false;
  ntfy_enabled = false;
  crawler = false;
  apprise_service_urls = "";
  webhook_url = "";
  ntfy_priority = pos 0;
  ntfy_topic = "";
  pushover_priority = pos 0;
  proxy_url = "";
  extra = record {
    block_authors = [];
    block_mark_read = false;
    comments_url_template = "";
    ignore_entry_updates = false;
    block_filter_entry_rules = "";
    keep_filter_entry_rules = "";
  };
  runtime = record { size = 0; hash = 0; language = ""; bad_status = none };
  category = record {
    id = 1;
    title = "";
    user_id = 1;
    hide_globally = false;
    extra = record { block_filter = ""; hide_label = false };
    feed_count = none;
    total_unread = none;
  };
  entries = [];
  ttl = 0;
  icon_url = "";
  unread_count = 0;
  read_count = 0;
  number_of_visible_entries = 0;
  filtered_by_age = 0;
  filtered_by_rules = 0;
  filtered_by_hash = 0;
  filtered_by_stored = 0;
  parsed_feed_url = none;
  parsed_site_url = none;
}

abbrev pub blank_user : User ℕ
blank_user = record {
  id = 1;
  username = "";
  password = "";
  is_admin = false;
  theme = "";
  language = "";
  timezone = "";
  entry_direction = "";
  entry_order = "";
  stylesheet = "";
  custom_js = "";
  external_font_hosts = "";
  google_id = "";
  open_id_connect_id = "";
  entries_per_page = pos 100;
  keyboard_shortcuts = false;
  show_reading_time = false;
  entry_swipe = false;
  gesture_nav = "";
  last_login_at = none;
  display_mode = "";
  default_reading_speed = pos 1;
  cjk_reading_speed = pos 1;
  default_home_page = "";
  categories_sorting_order = "";
  mark_read_on_view = false;
  mark_read_on_media_player_completion = false;
  media_playback_rate = 1;
  block_filter_entry_rules = "";
  keep_filter_entry_rules = "";
  extra = record { always_open_external_links = false; open_external_link_same_tab = false };
}
