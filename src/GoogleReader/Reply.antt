-- ===== src/GoogleReader/Reply.antt =====
-- What the handlers of internal/googlereader reply with, by internal/http/response.
pub data Reply : Type 0 where
  ok : Reply
  bad_request : Reply
  not_found : Reply
  server_error : Reply
