-- ===== src/Ui.antt =====
-- internal/ui: the pages of a list of entries.
pub mod Pagination
