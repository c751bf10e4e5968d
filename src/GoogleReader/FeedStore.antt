-- ===== src/GoogleReader/FeedStore.antt =====
-- What internal/googlereader/handler.go asks of internal/storage/feed.go and category.go, the failures
-- it tells apart, and the two changes of a feed it makes.
use miniflux.Base.{ℕ, String, ◌≡◌, ◌≢◌, Option, none, some, List, nat_eq, string_eq}
use miniflux.Base.Int.{ℤ, pos}
use miniflux.Model.Category.{Category}
use miniflux.Model.Feed.{Feed}
use miniflux.Model.Feed.Patch.{FeedModificationRequest}
use miniflux.GoogleReader.Reply.{Reply, bad_request, server_error}

-- What the handlers ask of the storage, for one user. An outer `none` is an error of the database,
-- an inner one is nil. A feed that was updated is found with the title and the category that were
-- written, and the others as before; a new category changes no feed.
pub record Storage (Url : Type 0) : Type 1 where
  pub State : Type 0
  pub feed_by_id : ℤ → State → Option (Option (Feed Url))
  pub update_feed : Feed Url → State → Option State
  pub remove_multiple_feeds : List ℤ → State → Option State
  pub first_category : State → Option (Option Category)
  pub category_by_title : String → State → Option (Option Category)
  pub create_category : String → State → Option (Category × State)
  pub remove_categories : List String → State → Option State
  pub id_law :
      (id : ℤ) (f : Feed Url) (st : State) → feed_by_id id st ≡ some (some f) → pos f.id ≡ id
  pub update_law :
      (f : Feed Url) (st st' : State)
      → update_feed f st ≡ some st'
      → (g : Feed Url) × (feed_by_id (pos f.id) st' ≡ some (some g))
        × (g.title ≡ f.title)
        × (g.category.id ≡ f.category.id)
  pub update_other_law :
      (f : Feed Url) (st st' : State) (id : ℤ)
      → update_feed f st ≡ some st'
      → pos f.id ≢ id
      → feed_by_id id st' ≡ feed_by_id id st
  pub create_law :
      (title : String) (st st' : State) (c : Category) (id : ℤ)
      → create_category title st ≡ some (c, st')
      → feed_by_id id st' ≡ feed_by_id id st

-- errEmptyFeedTitle, errFeedNotFound, errCategoryNotFound, and any other error.
pub data Failure : Type 0 where
  empty_feed_title : Failure
  feed_not_found : Failure
  category_not_found : Failure
  other : Failure

-- A request that changes the title, or the category.
abbrev pub no_change : FeedModificationRequest
no_change = record {
  feed_url = none;
  site_url = none;
  title = none;
  description = none;
  scraper_rules = none;
  rewrite_rules = none;
  url_rewrite_rules = none;
  block_authors = none;
  block_filter_entry_rules = none;
  keep_filter_entry_rules = none;
  crawler = none;
  ignore_entry_updates = none;
  user_agent = none;
  cookie = none;
  username = none;
  password = none;
  category_id = none;
  disabled = none;
  no_media_player = none;
  ignore_http_cache = none;
  allow_self_signed_certificates = none;
  fetch_via_proxy = none;
  hide_globally = none;
  disable_http2 = none;
  proxy_url = none;
  comments_url_template = none;
}

abbrev pub new_title : String → FeedModificationRequest
new_title title = record no_change { title = some title }

abbrev pub new_category : ℕ → FeedModificationRequest
new_category id = record no_change { category_id = some id }

-- The reply to a failure of `rename` or `move`.
abbrev pub reply_to : Failure → Reply
reply_to empty_feed_title = bad_request
reply_to feed_not_found = bad_request
reply_to category_not_found = bad_request
reply_to other = server_error
