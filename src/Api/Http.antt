-- ===== src/Api/Http.antt =====
-- The status codes that the handlers of services/api return (`axum::http::StatusCode`).
pub data StatusCode : Type 0 where
  ok bad_request unauthorized forbidden not_found service_unavailable : StatusCode
