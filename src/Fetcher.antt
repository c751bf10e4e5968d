-- ===== src/Fetcher.antt =====
-- internal/reader/fetcher: outgoing requests.
pub mod Limits
pub mod Proxies
pub mod Hosts
