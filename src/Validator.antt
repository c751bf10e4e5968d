-- ===== src/Validator.antt =====
-- internal/validator: the checks of the requests that change users, categories, feeds and entries.
pub mod Checks
pub mod User
pub mod Category
pub mod Feed
pub mod FeedFields
pub mod Settings
pub mod Rules
mod Tests
mod FeedTests
