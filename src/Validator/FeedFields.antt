-- ===== src/Validator/FeedFields.antt =====
-- A change of a feed that passes the checks leaves a feed with valid fields.
use miniflux.Base.{
  String, ◌≡◌, inl, inr, Bool, true, false, Option, none, some, List, if◌then◌else◌, ◌==◌, nat_eq,
  string_eq, Bool-cases, keep,
}
use miniflux.Base.Int.{ℤ}
use miniflux.Model.Entry.{over_non_empty}
use miniflux.Model.Feed.{Feed, with_feed_url_string, with_site_url_string, with_block_authors}
use miniflux.Model.Feed.Patch.{
  FeedModificationRequest, over_url, over_block_authors, patch_fields, patch_feed,
}
use miniflux.Reader.Filter.Rules.{Library}
use miniflux.Validator.Checks.{invalid_block_rule, invalid_keep_rule, validate_rules}
use miniflux.Validator.Settings.{first_error-none, over-keeps}
use miniflux.Validator.Feed.{
  FeedWorld, check_proxy, check_template, feed_modification_checks, validate_feed_modification,
}

module _ {Url : Type 0} (lib : Library) (w : FeedWorld Url) where
  -- The fields of a feed pass the checks of its title, proxy, template and rules.
  pub record HasValidFields (f : Feed Url) : Type 0 where
    pub title : (f.title == "") ≡ false
    pub proxy : check_proxy lib w f.proxy_url ≡ none
    pub template : check_template lib w f.extra.comments_url_template ≡ none
    pub block : validate_rules lib invalid_block_rule f.extra.block_filter_entry_rules ≡ none
    pub keep : validate_rules lib invalid_keep_rule f.extra.keep_filter_entry_rules ≡ none

  chosen-HasValidFields :
      (b : Bool) (f g : Feed Url)
      → HasValidFields f
      → HasValidFields g
      → HasValidFields (if b then f else g)
  chosen-HasValidFields true f g h k = h
  chosen-HasValidFields false f g h k = k

  with_feed_url_string-HasValidFields :
      (s : String) (f : Feed Url) → HasValidFields f → HasValidFields (with_feed_url_string s f)
  unfolding with_feed_url_string
  with_feed_url_string-HasValidFields s f h =
      chosen-HasValidFields (f.feed_url == s) f (record f { parsed_feed_url = none; feed_url = s })
        h
        (record {
          title = h.title;
          proxy = h.proxy;
          template = h.template;
          block = h.block;
          keep = h.keep;
        })

  with_site_url_string-HasValidFields :
      (s : String) (f : Feed Url) → HasValidFields f → HasValidFields (with_site_url_string s f)
  unfolding with_site_url_string
  with_site_url_string-HasValidFields s f h =
      chosen-HasValidFields (f.site_url == s) f (record f { parsed_site_url = none; site_url = s })
        h
        (record {
          title = h.title;
          proxy = h.proxy;
          template = h.template;
          block = h.block;
          keep = h.keep;
        })

  over_url-HasValidFields :
      (set : String → Feed Url → Feed Url) (o : Option String) (f : Feed Url)
      → ((s : String) → HasValidFields (set s f))
      → HasValidFields f
      → HasValidFields (over_url set o f)
  over_url-HasValidFields set none f changed h = h
  over_url-HasValidFields set (some s) f changed h =
      chosen-HasValidFields (s == "") f (set s f) h (changed s)

  over_block_authors-HasValidFields :
      (o : Option (List String)) (f : Feed Url)
      → HasValidFields f
      → HasValidFields (over_block_authors o f)
  unfolding with_block_authors
  over_block_authors-HasValidFields none f h = h
  over_block_authors-HasValidFields (some authors) f h = record {
    title = h.title;
    proxy = h.proxy;
    template = h.template;
    block = h.block;
    keep = h.keep;
  }

  title_over :
      (o : Option String) (old : String)
      → (old == "") ≡ false
      → (over_non_empty o old == "") ≡ false
  title_over none old h = h
  title_over (some title) old h = elim (Bool-cases (title == "")) [
    | inl empty ↦ rw empty h
    | inr full ↦ rw full full
  ]

  patch_fields-HasValidFields :
      (feed_id : ℤ) (r : FeedModificationRequest) (f : Feed Url)
      → validate_feed_modification lib w feed_id r ≡ none
      → HasValidFields f
      → HasValidFields (patch_fields r f)
  unfolding validate_feed_modification
  patch_fields-HasValidFields feed_id r f passed h =
      let (urls, (site, (title, (category, (proxy, (template, (block, (keep, rest)))))))) =
        first_error-none (feed_modification_checks lib w feed_id r) passed in
      record {
        title = title_over r.title f.title h.title;
        proxy =
            over-keeps (λ s. check_proxy lib w s ≡ none) (check_proxy lib w) (λ s ok. ok)
              r.proxy_url f.proxy_url proxy h.proxy;
        template =
            over-keeps (λ s. check_template lib w s ≡ none) (check_template lib w) (λ s ok. ok)
              r.comments_url_template f.extra.comments_url_template template h.template;
        block =
            over-keeps (λ s. validate_rules lib invalid_block_rule s ≡ none)
              (validate_rules lib invalid_block_rule) (λ s ok. ok) r.block_filter_entry_rules
              f.extra.block_filter_entry_rules block h.block;
        keep =
            over-keeps (λ s. validate_rules lib invalid_keep_rule s ≡ none)
              (validate_rules lib invalid_keep_rule) (λ s ok. ok) r.keep_filter_entry_rules
              f.extra.keep_filter_entry_rules keep h.keep;
      }

  -- A change of a feed that the validator passes keeps the fields valid: a title that is not empty,
  -- a proxy and a template that are empty or pass their checks, and rules that parse.
  pub patch_feed-HasValidFields :
      (feed_id : ℤ) (r : FeedModificationRequest) (f : Feed Url)
      → validate_feed_modification lib w feed_id r ≡ none
      → HasValidFields f
      → HasValidFields (patch_feed r f)
  unfolding patch_feed
  patch_feed-HasValidFields feed_id r f passed h =
      let g = over_url with_feed_url_string r.feed_url f in
      let g_valid =
        over_url-HasValidFields with_feed_url_string r.feed_url f
          (λ s. with_feed_url_string-HasValidFields s f h) h in
      let s_valid =
        over_url-HasValidFields with_site_url_string r.site_url g
          (λ s. with_site_url_string-HasValidFields s g g_valid) g_valid in
      patch_fields-HasValidFields feed_id r
        (over_block_authors r.block_authors (over_url with_site_url_string r.site_url g)) passed
        (over_block_authors-HasValidFields r.block_authors
          (over_url with_site_url_string r.site_url g) s_valid)
