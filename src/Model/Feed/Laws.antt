-- ===== src/Model/Feed/Laws.antt =====
-- The schedule of the checks of a feed, and the cache of its parsed URLs.
use native.Mathlib.Nat.{mod-eq_of_lt}
use miniflux.Base.Int.{pos, pos_part, ◌+ℤ◌, wrap64}
use miniflux.Base.{
  min, max, lt→ltb, ℕ, ◌+◌, ◌*◌, ◌≤◌, ◌<◌, String, ◌≡◌, refl, sym, ap, ◌∙◌, ◌⊎◌, inl, inr, true,
  Option, none, some, List, arith, ◌==◌, nat_eq, string_eq, Bool-cases,
}
use mathlib.Core.Option.{none-ne-some}
use miniflux.Model.Feed.{
  Feed, with_feed_url_string, with_site_url_string, checked_now, schedule_next_check,
  with_block_authors, answer_url, get_feed_url, get_site_url,
}
use miniflux.Model.Feed.Patch.{FeedModificationRequest, over_url, over_block_authors, patch_feed}

-- A cache is empty, or holds what the text parses to.
abbrev pub IsFreshUrl : {Url : Type 0} → (String → Option Url) → Option Url → String → Type 0
IsFreshUrl parse cached text = (cached ≡ none) ⊎ (cached ≡ parse text)

abbrev pub HasFreshUrls : {Url : Type 0} → (String → Option Url) → Feed Url → Type 0
HasFreshUrls parse f =
    IsFreshUrl parse f.parsed_feed_url f.feed_url × IsFreshUrl parse f.parsed_site_url f.site_url

minutes_after :
    (now n : ℕ)
    → n ≤ 153722867
    → pos_part (pos now +ℤ wrap64 (pos (60000000000 * n))) ≡ now + 60000000000 * n
unfolding ◌+ℤ◌
minutes_after now n h =
    let whole =
      mod-eq_of_lt (let below : 60000000000 * n < 18446744073709551616 = omega arith in below) in
    rw (whole, lt→ltb (60000000000 * n) 9223372036854775808 (omega arith)) (ground arith)

module _ {Url : Type 0} where
  -- Where the configured minimum is at most the maximum, and the maximum at most 153722867 minutes,
  -- so that it fits into 64 bits as a duration, the interval of ScheduleNextCheck lies between them:
  -- it is the delay, the minimum for a smaller delay, or the maximum for a larger one. The next check
  -- is set that many minutes after the instant.
  pub schedule_next_check-bounds :
      (min_interval max_interval now delay : ℕ) (f : Feed Url)
      → min_interval ≤ max_interval
      → max_interval ≤ 153722867
      → (let run = schedule_next_check min_interval max_interval now delay f in
          (min_interval ≤ run.1)
          × (run.1 ≤ max_interval)
          × ((run.1 ≡ delay)
              ⊎ ((run.1 ≡ min_interval) × (delay < min_interval))
              ⊎ ((run.1 ≡ max_interval) × (max_interval < delay)))
          × (run.0.next_check_at ≡ now + 60000000000 * run.1))
  unfolding schedule_next_check
  schedule_next_check-bounds min_interval max_interval now delay f h fits = (
    ground arith,
    ground arith,
    ground arith,
    minutes_after now (min max_interval (max min_interval delay)) (ground arith),
  )

  module _ (parse : String → Option Url) where
    with_feed_url_string-HasFreshUrls :
        (s : String) (f : Feed Url)
        → HasFreshUrls parse f
        → HasFreshUrls parse (with_feed_url_string s f)
    unfolding with_feed_url_string
    with_feed_url_string-HasFreshUrls s f h = elim (Bool-cases (f.feed_url == s)) [
      | inl same ↦ rw same h
      | inr other ↦ rw other (inl refl, h.1)
    ]

    with_site_url_string-HasFreshUrls :
        (s : String) (f : Feed Url)
        → HasFreshUrls parse f
        → HasFreshUrls parse (with_site_url_string s f)
    unfolding with_site_url_string
    with_site_url_string-HasFreshUrls s f h = elim (Bool-cases (f.site_url == s)) [
      | inl same ↦ rw same h
      | inr other ↦ rw other (h.0, inl refl)
    ]

    over_url-HasFreshUrls :
        (set : String → Feed Url → Feed Url)
        → ((s : String) (f : Feed Url) → HasFreshUrls parse f → HasFreshUrls parse (set s f))
        → (o : Option String) (f : Feed Url) → HasFreshUrls parse f
        → HasFreshUrls parse (over_url set o f)
    over_url-HasFreshUrls set keeps none f h = h
    over_url-HasFreshUrls set keeps (some s) f h = elim (Bool-cases (s == "")) [
      | inl empty ↦ rw empty h
      | inr text ↦ rw text (keeps s f h)
    ]

    over_block_authors-HasFreshUrls :
        (o : Option (List String)) (f : Feed Url)
        → HasFreshUrls parse f
        → HasFreshUrls parse (over_block_authors o f)
    unfolding with_block_authors
    over_block_authors-HasFreshUrls none f h = h
    over_block_authors-HasFreshUrls (some authors) f h = h

    -- A change of a feed keeps its cached URLs in step with their texts.
    pub patch_feed-HasFreshUrls :
        (r : FeedModificationRequest) (f : Feed Url)
        → HasFreshUrls parse f
        → HasFreshUrls parse (patch_feed r f)
    unfolding patch_feed
    patch_feed-HasFreshUrls r f h = over_block_authors-HasFreshUrls r.block_authors _ (
        over_url-HasFreshUrls with_site_url_string with_site_url_string-HasFreshUrls r.site_url _ (
          over_url-HasFreshUrls with_feed_url_string with_feed_url_string-HasFreshUrls r.feed_url f
            h))

    answer_url_fresh :
        (f : Feed Url) (put : Url → Feed Url) (cached parsed : Option Url)
        → (cached ≡ none) ⊎ (cached ≡ parsed)
        → HasFreshUrls parse f
        → ((u : Url) → some u ≡ parsed → HasFreshUrls parse (put u))
        → ((answer_url f put cached parsed).0 ≡ parsed)
          × HasFreshUrls parse (answer_url f put cached parsed).1
    answer_url_fresh f put (some u) parsed (inl empty) h g = absurd (none-ne-some u (sym empty))
    answer_url_fresh f put (some u) parsed (inr fresh) h g = (fresh, h)
    answer_url_fresh f put none none fresh h g = (refl, h)
    answer_url_fresh f put none (some u) fresh h g = (refl, g u refl)

    -- ParsedFeedURL and ParsedSiteURL of a feed whose cache is in step answer with what the texts
    -- parse to, and leave the cache in step.
    pub get_feed_url-parse :
        (show : Url → String) (f : Feed Url)
        → HasFreshUrls parse f
        → ((get_feed_url parse show f).0 ≡ parse f.feed_url)
          × ((get_site_url parse show f).0 ≡ parse f.site_url)
          × HasFreshUrls parse (get_feed_url parse show f).1
          × HasFreshUrls parse (get_site_url parse show f).1
    unfolding get_feed_url get_site_url
    get_feed_url-parse show f h =
        let feed =
          answer_url_fresh f (λ u. record f { parsed_feed_url = some u }) f.parsed_feed_url
            (parse f.feed_url) h.0 h (λ u q. (inr q, h.1)) in
        let site =
          answer_url_fresh f (λ u. record f { parsed_site_url = some u }) f.parsed_site_url
            (parse f.site_url) h.1 h (λ u q. (h.0, inr q)) in
        (feed.0, site.0, feed.1, site.1)

    -- A site URL "" that parses and has been asked for stays in the cache when CheckedNow replaces
    -- it by the feed URL: ParsedSiteURL then still answers with the URL of "".
    pub checked_now_stale :
        (show : Url → String) (now : ℕ) (f : Feed Url) (u : Url)
        → f.site_url ≡ ""
        → f.parsed_site_url ≡ none
        → parse "" ≡ some u
        → (let later = checked_now now (get_site_url parse show f).1 in
            (later.site_url ≡ f.feed_url) × ((get_site_url parse show later).0 ≡ some u))
    unfolding checked_now get_site_url
    checked_now_stale show now f u empty uncached p =
        let asked : answer_url f (λ v. record f { parsed_site_url = some v }) f.parsed_site_url
              (parse f.site_url)
            ≡ (some u, record f { parsed_site_url = some u }) =
          ap
            (λ t.
              answer_url f (λ v. record f { parsed_site_url = some v }) f.parsed_site_url (parse t))
            empty
          ∙ ap (λ c. answer_url f (λ v. record f { parsed_site_url = some v }) c (parse ""))
              uncached
          ∙ ap (λ o. answer_url f (λ v. record f { parsed_site_url = some v }) none o) p in
        let blank : (f.site_url == "") ≡ true = ap (λ t. t == "") empty in
        rw (asked, blank) (refl, refl)
