-- ===== src/GoogleReader.antt =====
-- internal/googlereader: the Google Reader API.
pub mod Streams
pub mod Tags
pub mod Items
pub mod Reply
pub mod EditTag
pub mod Pages
pub mod Marking
pub mod FeedStore
pub mod Subscriptions
pub mod RenameTag
