-- ===== src/Model/Feed/Tests.antt =====
-- The theorems on feeds, at inputs. URLs are texts here, and every text parses.
use miniflux.Base.{
  ◌+◌, ◌*◌, ◌≤◌, ◌<◌, String, ◌≡◌, refl, ◌⊎◌, inl, inr, true, Option, none, some, [], ◌∷◌, arith,
  nat_eq, string_eq,
}
use miniflux.Model.Feed.{get_feed_url, get_site_url, with_block_authors, Feed, schedule_next_check}
use miniflux.Model.Feed.Patch.{FeedModificationRequest, patch_feed}
use miniflux.Model.Feed.Laws.{
  HasFreshUrls, schedule_next_check-bounds, get_feed_url-parse, patch_feed-HasFreshUrls,
}
use miniflux.Model.Samples.{blank_feed}

abbrev parse : String → Option String
parse s = some s

abbrev cached : Feed String
cached = record blank_feed { parsed_feed_url = some "https://a/feed" }

abbrev request : FeedModificationRequest
request = record {
  feed_url = some "https://b/feed";
  site_url = none;
  title = some "B";
  description = none;
  scraper_rules = none;
  rewrite_rules = none;
  url_rewrite_rules = none;
  block_authors = some ("z" ∷ "a" ∷ "z" ∷ []);
  block_filter_entry_rules = none;
  keep_filter_entry_rules = none;
  crawler = some true;
  user_agent = none;
  cookie = none;
  username = none;
  password = none;
  category_id = some 0;
  disabled = none;
  no_media_player = none;
  ignore_http_cache = none;
  allow_self_signed_certificates = none;
  fetch_via_proxy = none;
  hide_globally = none;
  disable_http2 = none;
  proxy_url = none;
  comments_url_template = none;
  ignore_entry_updates = none;
}

new_url : (patch_feed request cached).parsed_feed_url ≡ none
unfolding patch_feed with_block_authors
new_url = refl

schedule_next_check-bounds_example :
    (let run = schedule_next_check 60 1440 5 30 blank_feed in
      (60 ≤ run.1)
      × (run.1 ≤ 1440)
      × ((run.1 ≡ 30) ⊎ ((run.1 ≡ 60) × (30 < 60)) ⊎ ((run.1 ≡ 1440) × (1440 < 30)))
      × (run.0.next_check_at ≡ 5 + 60000000000 * run.1))
schedule_next_check-bounds_example =
    schedule_next_check-bounds 60 1440 5 30 blank_feed (omega arith) (omega arith)

patch_feed-HasFreshUrls_example : HasFreshUrls parse (patch_feed request cached)
patch_feed-HasFreshUrls_example = patch_feed-HasFreshUrls parse request cached (inr refl, inl refl)

get_feed_url-parse_example :
    ((get_feed_url parse (λ u. u) cached).0 ≡ parse cached.feed_url)
    × ((get_site_url parse (λ u. u) cached).0 ≡ parse cached.site_url)
    × HasFreshUrls parse (get_feed_url parse (λ u. u) cached).1
    × HasFreshUrls parse (get_site_url parse (λ u. u) cached).1
get_feed_url-parse_example = get_feed_url-parse parse (λ u. u) cached (inr refl, inl refl)
