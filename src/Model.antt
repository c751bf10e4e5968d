-- ===== src/Model.antt =====
-- internal/model: the entities, the requests that change them, and the outcome of a refresh.
pub mod Entry
pub mod Category
pub mod Feed
pub mod User
pub mod Refreshed
pub mod Samples
