-- ===== src/Reader.antt =====
-- The part of internal/reader that decides which entries of a feed are kept.
pub mod Filter
