-- ===== src/Worker.antt =====
-- internal/worker: the background refresh of feeds.
pub mod Distribute
pub mod UserCache
