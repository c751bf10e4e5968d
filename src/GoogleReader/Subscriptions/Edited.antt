-- ===== src/GoogleReader/Subscriptions/Edited.antt =====
-- What the action "edit" does to the feeds.
use miniflux.Base.{nat_eq, string_eq}
use miniflux.Model.Category.{Category}
use miniflux.Model.Feed.{Feed}
