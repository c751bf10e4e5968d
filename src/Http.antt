-- ===== src/Http.antt =====
-- internal/http/request: the address that a request comes from.
pub mod ClientIp
