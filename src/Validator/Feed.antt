-- ===== src/Validator/Feed.antt =====
-- internal/validator/feed.go, and IsAbsoluteURL and IsValidProxyURL of internal/urllib/url.go. The
-- packages net/url and text/template and the answers of the storage are parameters.
use miniflux.Base.{
  String, Bool, false, not, ◌&&◌, ◌||◌, Option, none, some, List, [], ◌∷◌, if◌then◌else◌, ◌==◌,
  nat_eq, string_eq,
}
use miniflux.Base.Int.{ℤ, pos, leb_ℤ}
use miniflux.Base.Text.{has_prefix, trim_space}
use miniflux.Model.Feed.Patch.{FeedModificationRequest}
use miniflux.Reader.Filter.Rules.{Library}
use miniflux.Validator.Checks.{
  LocalizedError, message, invalid_block_rule, invalid_keep_rule, given, first_error,
  validate_rules,
}

-- `parse_url` is url.Parse, with the tests IsAbs and Host != ""; `template_error` the error of
-- template.Parse for a text; the rest asks the storage, `category_id_exists` with `none` for an
-- error.
pub record FeedWorld (Url : Type 0) : Type 0 where
  pub parse_url : String → Option Url
  pub is_abs : Url → Bool
  pub has_host : Url → Bool
  pub template_error : String → Option LocalizedError
  pub feed_url_exists : String → Bool
  pub another_feed_url_exists : ℤ → String → Bool
  pub category_id_exists : ℤ → Option Bool

-- FeedCreationRequest, by the fields that are checked.
pub record FeedCreation : Type 0 where
  pub feed_url : String
  pub category_id : ℤ
  pub block_filter_entry_rules : String
  pub keep_filter_entry_rules : String
  pub proxy_url : String

abbrev pub has_http_prefix : String → Bool
has_http_prefix url = has_prefix "https://" url || has_prefix "http://" url

abbrev pub has_socks_prefix : String → Bool
has_socks_prefix url = has_prefix "socks5h://" url || has_prefix "socks5://" url

abbrev pub fails_unless : String → Bool → Option LocalizedError
fails_unless key holds = if holds then none else some (message key)

module _ {Url : Type 0} (lib : Library) (w : FeedWorld Url) where
  abbrev pub parses_to : (Url → Bool) → Option Url → Bool
  parses_to test none = false
  parses_to test (some url) = test url

  -- IsAbsoluteURL
  unfoldable pub is_absolute_url : String → Bool
  is_absolute_url url = has_http_prefix url && parses_to w.is_abs (w.parse_url url)

  -- IsValidProxyURL
  unfoldable pub is_valid_proxy_url : String → Bool
  is_valid_proxy_url url =
      (has_http_prefix url || has_socks_prefix url)
      && parses_to (λ u. w.is_abs u && w.has_host u) (w.parse_url url)

  abbrev pub category_found : Option Bool → Option LocalizedError
  category_found none = some (message "error.feed_category_not_found")
  category_found (some exists) = fails_unless "error.feed_category_not_found" exists

  abbrev pub check_proxy : String → Option LocalizedError
  check_proxy url =
      fails_unless "error.invalid_feed_proxy_url" (url == "" || is_valid_proxy_url url)

  -- ValidateFeedCreation
  unfoldable pub validate_feed_creation : FeedCreation → Option LocalizedError
  unfolding is_absolute_url is_valid_proxy_url validate_rules
  validate_feed_creation r = first_error (
      fails_unless "error.feed_mandatory_fields"
        (not (r.feed_url == "" || leb_ℤ r.category_id (pos 0)))
      ∷ fails_unless "error.invalid_feed_url" (is_absolute_url r.feed_url)
      ∷ fails_unless "error.feed_already_exists" (not (w.feed_url_exists r.feed_url))
      ∷ category_found (w.category_id_exists r.category_id)
      ∷ check_proxy r.proxy_url
      ∷ validate_rules lib invalid_block_rule r.block_filter_entry_rules
      ∷ validate_rules lib invalid_keep_rule r.keep_filter_entry_rules
      ∷ [])

  abbrev pub check_feed_url : ℤ → String → Option LocalizedError
  check_feed_url feed_id url = first_error (
      fails_unless "error.feed_url_not_empty" (not (url == ""))
      ∷ fails_unless "error.invalid_feed_url" (is_absolute_url url)
      ∷ fails_unless "error.feed_already_exists" (not (w.another_feed_url_exists feed_id url))
      ∷ [])

  abbrev pub check_site_url : String → Option LocalizedError
  check_site_url url = first_error (
      fails_unless "error.site_url_not_empty" (not (url == ""))
      ∷ fails_unless "error.invalid_site_url" (is_absolute_url url)
      ∷ [])

  abbrev pub check_title : String → Option LocalizedError
  check_title title = fails_unless "error.feed_title_not_empty" (not (title == ""))

  abbrev pub check_template : String → Option LocalizedError
  check_template s =
      if s == ""
      then none
      else let template = trim_space s in if template == "" then none else w.template_error template

  abbrev pub feed_modification_checks : ℤ → FeedModificationRequest → List (Option LocalizedError)
  feed_modification_checks feed_id r =
      given (check_feed_url feed_id) r.feed_url
      ∷ given check_site_url r.site_url
      ∷ given check_title r.title
      ∷ given (λ id. category_found (w.category_id_exists (pos id))) r.category_id
      ∷ given check_proxy r.proxy_url
      ∷ given check_template r.comments_url_template
      ∷ given (validate_rules lib invalid_block_rule) r.block_filter_entry_rules
      ∷ given (validate_rules lib invalid_keep_rule) r.keep_filter_entry_rules
      ∷ []

  -- ValidateFeedModification
  unfoldable pub validate_feed_modification : ℤ → FeedModificationRequest → Option LocalizedError
  unfolding is_absolute_url is_valid_proxy_url validate_rules
  validate_feed_modification feed_id r = first_error (feed_modification_checks feed_id r)
