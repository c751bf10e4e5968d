-- ===== src/Model/Feed.antt =====
-- internal/model/feed.go: a feed and the bookkeeping of its checks; Patch has the request that
-- changes it.
-- Left out: the icon, and the parsed template of the comments URL (text/template). The category
-- pointer is taken as set, as the storage loads it with every feed.
pub mod Patch
pub mod Laws
mod Tests
use miniflux.Base.{
  ℕ, zero, suc, ◌+◌, ◌-◌, ◌*◌, ◌/◌, ◌%◌, ◌≤◌, ◌<◌, min, max, String, ◌≡◌, refl, sym, ap, ◌∙◌, ◌≢◌,
  ◌↔◌, ◌⊎◌, inl, inr, Bool, true, false, not, ◌&&◌, ◌||◌, Option, none, some, List, [], ◌∷◌, ◌++◌,
  map, reverse, arith, eq_iff, ltb, leb, nat_beq, if◌then◌else◌, ltb→lt, lt→ltb, leb→le,
  nat_beq_iff, tests, Eq, ◌==◌, nat_eq, string_eq, Bool-cases, Option-cases, beq_refl, eq_of_beq,
  ne_of_beq, beq_of_ne, length, get_elem?, length-append, All-mem, Memᴰ, any, keep, All, All-append,
  All-map, lookup, insert, lookup-insert, lookup-insert_self, length-insert_new,
}
use miniflux.Base.Int.{
  wrap64, ℤ, pos, negsuc, pos_part, neg_part, sub_ℕ, ◌+ℤ◌, ◌-ℤ◌, quot, rem, ◌≤ℤ◌, ◌<ℤ◌, ltb_ℤ,
  leb_ℤ, eqb_ℤ, +ℤ_parts, -ℤ_parts, eq_of_parts, int_laws,
}
use miniflux.Base.Text.{trim_space}
use miniflux.Base.Sort.{sort, compact}
use miniflux.Model.Entry.{Entry, over_non_empty}
use miniflux.Model.Category.{Category, over}

pub record FeedExtra : Type 0 where
  pub block_authors : List String
  pub block_mark_read : Bool
  pub comments_url_template : String
  pub ignore_entry_updates : Bool
  pub block_filter_entry_rules : String
  pub keep_filter_entry_rules : String

pub record BadStatus : Type 0 where
  pub content_type : String
  pub content : String

pub record FeedRuntime : Type 0 where
  pub size : ℕ
  pub hash : ℕ
  pub language : String
  pub bad_status : Option BadStatus

pub record Feed (Url : Type 0) : Type 0 where
  pub id : ℕ
  pub user_id : ℕ
  pub feed_url : String
  pub site_url : String
  pub title : String
  pub description : String
  pub checked_at : ℕ
  pub next_check_at : ℕ
  pub etag_header : String
  pub last_modified_header : String
  pub parsing_error_msg : String
  pub parsing_error_count : ℕ
  pub scraper_rules : String
  pub rewrite_rules : String
  pub url_rewrite_rules : String
  pub user_agent : String
  pub cookie : String
  pub username : String
  pub password : String
  pub disabled : Bool
  pub no_media_player : Bool
  pub ignore_http_cache : Bool
  pub allow_self_signed_certificates : Bool
  pub fetch_via_proxy : Bool
  pub hide_globally : Bool
  pub disable_http2 : Bool
  pub pushover_enabled : Bool
  pub ntfy_enabled : Bool
  pub crawler : Bool
  pub apprise_service_urls : String
  pub webhook_url : String
  pub ntfy_priority : ℤ
  pub ntfy_topic : String
  pub pushover_priority : ℤ
  pub proxy_url : String
  pub extra : FeedExtra
  pub runtime : FeedRuntime
  pub category : Category
  pub entries : List (Entry Url)
  pub ttl : ℕ
  pub icon_url : String
  pub unread_count : ℕ
  pub read_count : ℕ
  pub number_of_visible_entries : ℕ
  pub filtered_by_age : ℕ
  pub filtered_by_rules : ℕ
  pub filtered_by_hash : ℕ
  pub filtered_by_stored : ℕ
  pub parsed_feed_url : Option Url
  pub parsed_site_url : Option Url

module _ {Url : Type 0} where
  -- Feed.WithFeedURLString, Feed.WithSiteURLString
  unfoldable pub with_feed_url_string : String → Feed Url → Feed Url
  with_feed_url_string s f =
      if f.feed_url == s then f else record f { parsed_feed_url = none; feed_url = s }

  unfoldable pub with_site_url_string : String → Feed Url → Feed Url
  with_site_url_string s f =
      if f.site_url == s then f else record f { parsed_site_url = none; site_url = s }

  -- Feed.WithTranslatedErrorMessage, Feed.ResetErrorCounter
  unfoldable pub with_translated_error_message : String → Feed Url → Feed Url
  with_translated_error_message message f = record f {
    parsing_error_count = f.parsing_error_count + 1;
    parsing_error_msg = message;
  }

  unfoldable pub reset_error_counter : Feed Url → Feed Url
  reset_error_counter f =
      let runtime = f.runtime in
      record f {
        parsing_error_count = 0;
        parsing_error_msg = "";
        runtime = record runtime { bad_status = none };
      }

  -- Feed.CheckedNow at the instant `now`
  unfoldable pub checked_now : ℕ → Feed Url → Feed Url
  checked_now now f = record f {
    checked_at = now;
    site_url = if f.site_url == "" then f.feed_url else f.site_url;
  }

  -- Feed.ScheduleNextCheck under the configured bounds, in minutes: the feed and the interval.
  -- A negative delay acts as 0 does, as the bounds are not negative. The product with time.Minute is
  -- an int64 and wraps.
  unfoldable pub schedule_next_check : ℕ → ℕ → ℕ → ℕ → Feed Url → Feed Url × ℕ
  schedule_next_check min_interval max_interval now refresh_delay f =
      let interval = min max_interval (max min_interval refresh_delay) in
      (
        record f { next_check_at = pos_part (pos now +ℤ wrap64 (pos (60000000000 * interval))) },
        interval,
      )

  -- Feed.ContentChanged; `len` and `sum` are the body's length and its xxhash.
  unfoldable pub content_changed : ℕ → ℕ → Feed Url → Feed Url × Bool
  content_changed len sum f =
      let old = f.runtime in
      (
        record f { runtime = record old { size = len; hash = sum } },
        not (len == old.size) || not (sum == old.hash),
      )

  -- Feed.WithBlockAuthors
  unfoldable pub with_block_authors : List String → Feed Url → Feed Url
  unfolding sort compact
  with_block_authors authors f =
      let extra = f.extra in
      record f { extra = record extra { block_authors = compact (sort authors) } }

  -- Feed.WithBadStatus
  unfoldable pub with_bad_status : String → String → Feed Url → Feed Url
  with_bad_status content content_type f =
      let runtime = f.runtime in
      let status : Option BadStatus =
        if content == ""
        then none
        else some (record { content_type = content_type; content = content }) in
      record f { runtime = record runtime { bad_status = status } }

  -- Feed.IncFilteredByAge, IncFilteredByRules, IncFilteredByHash, IncFilteredByStored
  unfoldable pub inc_filtered_by_age : Feed Url → Feed Url
  inc_filtered_by_age f = record f { filtered_by_age = f.filtered_by_age + 1 }

  unfoldable pub inc_filtered_by_rules : Feed Url → Feed Url
  inc_filtered_by_rules f = record f { filtered_by_rules = f.filtered_by_rules + 1 }

  unfoldable pub inc_filtered_by_hash : Feed Url → Feed Url
  inc_filtered_by_hash f = record f { filtered_by_hash = f.filtered_by_hash + 1 }

  unfoldable pub inc_filtered_by_stored : Feed Url → Feed Url
  inc_filtered_by_stored f = record f { filtered_by_stored = f.filtered_by_stored + 1 }

  -- A cached URL, else the parsed one with the feed that caches it.
  abbrev pub answer_url :
      Feed Url → (Url → Feed Url) → Option Url → Option Url → Option Url × Feed Url
  answer_url f put (some u) parsed = (some u, f)
  answer_url f put none none = (none, f)
  answer_url f put none (some u) = (some u, put u)

  -- Feed.ParsedFeedURL, Feed.ParsedSiteURL: the URL, `none` for an error, and the feed with its
  -- cache. `parse` and `show` are net/url's Parse and String.
  module _ (parse : String → Option Url) (show : Url → String) where
    unfoldable pub with_feed_url : Option Url → Feed Url → Feed Url
    unfolding with_feed_url_string
    with_feed_url none f = with_feed_url_string "" f
    with_feed_url (some u) f = record f { parsed_feed_url = some u; feed_url = show u }

    unfoldable pub with_site_url : Option Url → Feed Url → Feed Url
    unfolding with_site_url_string
    with_site_url none f = with_site_url_string "" f
    with_site_url (some u) f = record f { parsed_site_url = some u; site_url = show u }

    unfoldable pub get_feed_url : Feed Url → Option Url × Feed Url
    get_feed_url f =
        answer_url f (λ u. record f { parsed_feed_url = some u }) f.parsed_feed_url
          (parse f.feed_url)

    unfoldable pub get_site_url : Feed Url → Option Url × Feed Url
    get_site_url f =
        answer_url f (λ u. record f { parsed_site_url = some u }) f.parsed_site_url
          (parse f.site_url)
