-- ===== src/Model/Feed/Patch.antt =====
-- internal/model/feed.go: the request that changes a feed, and FeedModificationRequest.Patch.
use miniflux.Base.{
  ℕ, String, Bool, Option, none, some, List, ltb, if◌then◌else◌, ◌==◌, nat_eq, string_eq,
}
use miniflux.Model.Entry.{over_non_empty}
use miniflux.Model.Category.{over}
use miniflux.Model.Feed.{
  FeedExtra, Feed, with_feed_url_string, with_site_url_string, with_block_authors,
}

pub record FeedModificationRequest : Type 0 where
  pub feed_url : Option String
  pub site_url : Option String
  pub title : Option String
  pub description : Option String
  pub scraper_rules : Option String
  pub rewrite_rules : Option String
  pub url_rewrite_rules : Option String
  pub block_authors : Option (List String)
  pub block_filter_entry_rules : Option String
  pub keep_filter_entry_rules : Option String
  pub crawler : Option Bool
  pub ignore_entry_updates : Option Bool
  pub user_agent : Option String
  pub cookie : Option String
  pub username : Option String
  pub password : Option String
  pub category_id : Option ℕ
  pub disabled : Option Bool
  pub no_media_player : Option Bool
  pub ignore_http_cache : Option Bool
  pub allow_self_signed_certificates : Option Bool
  pub fetch_via_proxy : Option Bool
  pub hide_globally : Option Bool
  pub disable_http2 : Option Bool
  pub proxy_url : Option String
  pub comments_url_template : Option String

-- `if p != nil && *p > 0 { field = *p }`
abbrev pub over_positive : Option ℕ → ℕ → ℕ
over_positive none old = old
over_positive (some v) old = if ltb 0 v then v else old

-- The part of Patch that sets a URL by its method.
abbrev pub over_url :
    {Url : Type 0} → (String → Feed Url → Feed Url) → Option String → Feed Url → Feed Url
over_url set none f = f
over_url set (some s) f = if s == "" then f else set s f

abbrev pub over_block_authors : {Url : Type 0} → Option (List String) → Feed Url → Feed Url
over_block_authors none f = f
over_block_authors (some authors) f = with_block_authors authors f

abbrev pub patch_extra : FeedModificationRequest → FeedExtra → FeedExtra
patch_extra r x = record x {
  comments_url_template = over r.comments_url_template x.comments_url_template;
  ignore_entry_updates = over r.ignore_entry_updates x.ignore_entry_updates;
  block_filter_entry_rules = over r.block_filter_entry_rules x.block_filter_entry_rules;
  keep_filter_entry_rules = over r.keep_filter_entry_rules x.keep_filter_entry_rules;
}

-- The fields that Patch assigns directly.
abbrev pub patch_fields : {Url : Type 0} → FeedModificationRequest → Feed Url → Feed Url
patch_fields r f =
    let category = f.category in
    record f {
      title = over_non_empty r.title f.title;
      description = over_non_empty r.description f.description;
      scraper_rules = over r.scraper_rules f.scraper_rules;
      rewrite_rules = over r.rewrite_rules f.rewrite_rules;
      url_rewrite_rules = over r.url_rewrite_rules f.url_rewrite_rules;
      crawler = over r.crawler f.crawler;
      user_agent = over r.user_agent f.user_agent;
      cookie = over r.cookie f.cookie;
      username = over r.username f.username;
      password = over r.password f.password;
      disabled = over r.disabled f.disabled;
      no_media_player = over r.no_media_player f.no_media_player;
      ignore_http_cache = over r.ignore_http_cache f.ignore_http_cache;
      allow_self_signed_certificates =
          over r.allow_self_signed_certificates f.allow_self_signed_certificates;
      fetch_via_proxy = over r.fetch_via_proxy f.fetch_via_proxy;
      hide_globally = over r.hide_globally f.hide_globally;
      disable_http2 = over r.disable_http2 f.disable_http2;
      proxy_url = over r.proxy_url f.proxy_url;
      extra = patch_extra r f.extra;
      category = record category { id = over_positive r.category_id category.id };
    }

-- FeedModificationRequest.Patch
unfoldable pub patch_feed : {Url : Type 0} → FeedModificationRequest → Feed Url → Feed Url
unfolding with_feed_url_string with_site_url_string
patch_feed r f = patch_fields r (
    over_block_authors r.block_authors
      (over_url with_site_url_string r.site_url (over_url with_feed_url_string r.feed_url f)))
