-- ===== src/Reader/Filter.antt =====
-- internal/reader/filter: the rules that block or keep the entries of a feed.
pub mod Dates
pub mod Rules
pub mod Entries
pub mod Sound
pub mod Safety
pub mod Counting
pub mod Kept
pub mod Authors
mod Tests
