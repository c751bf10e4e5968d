-- ===== src/Storage.antt =====
-- internal/storage: what is kept in memory beside the database, the queries of entries, and what some
-- of the SQL says of the rows.
pub mod Dedup
pub mod EntryQuery
pub mod Entries
pub mod Categories
