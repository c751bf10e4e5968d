-- ===== src/Validator/FeedTests.antt =====
-- Changes of a feed.
use miniflux.Base.{String, ◌≡◌, refl, true, false, none, some, ◌==◌, nat_eq, string_eq, any}
use miniflux.Base.Int.{pos, eqb_ℤ}
use miniflux.Base.Text.{has_prefix, trim_space}
use miniflux.Model.Feed.Patch.{FeedModificationRequest, patch_feed}
use miniflux.Model.Feed.{Feed}
use miniflux.Model.Samples.{blank_feed}
use miniflux.Reader.Filter.Rules.{Library}
use miniflux.GoogleReader.FeedStore.{no_change}
use miniflux.Validator.Checks.{message, validate_rules}
use miniflux.Validator.Feed.{
  FeedWorld, is_absolute_url, is_valid_proxy_url, validate_feed_modification,
}
use miniflux.Validator.FeedFields.{HasValidFields, patch_feed-HasValidFields}

abbrev prefixes : Library
prefixes = record {
  Regexp = String;
  compile = λ s. some s;
  match_string = has_prefix;
  to_lower = λ s. s;
  parse_date = λ s. none;
  atoi = λ s. none;
  parse_go_duration = λ s. none;
  binary_search = λ authors a. any (λ b. b == a) authors;
}

abbrev one_category : FeedWorld String
one_category = record {
  parse_url = λ s. some s;
  is_abs = λ s. true;
  has_host = λ s. true;
  template_error = λ s. none;
  feed_url_exists = λ s. false;
  another_feed_url_exists = λ id s. false;
  category_id_exists = λ id. some (eqb_ℤ id (pos 1));
}

abbrev titled_feed : Feed String
titled_feed = record blank_feed { title = "News" }

abbrev by_proxy : FeedModificationRequest
by_proxy = record no_change {
  title = some "Daily";
  proxy_url = some "socks5://p";
  category_id = some 1;
}

by_proxy-passes : validate_feed_modification prefixes one_category (pos 1) by_proxy ≡ none
unfolding validate_feed_modification is_valid_proxy_url has_prefix
by_proxy-passes = refl

ftp_refused :
    validate_feed_modification prefixes one_category
      (pos 1)
      (record no_change { site_url = some "ftp://a" })
    ≡ some (message "error.invalid_site_url")
unfolding validate_feed_modification is_absolute_url has_prefix
ftp_refused = refl

titled_feed-HasValidFields : HasValidFields prefixes one_category titled_feed
unfolding validate_rules trim_space
titled_feed-HasValidFields = record {
  title = refl;
  proxy = refl;
  template = refl;
  block = refl;
  keep = refl;
}

patch_feed-HasValidFields_example :
    HasValidFields prefixes one_category (patch_feed by_proxy titled_feed)
patch_feed-HasValidFields_example =
    patch_feed-HasValidFields prefixes one_category (pos 1) by_proxy titled_feed by_proxy-passes
      titled_feed-HasValidFields
