-- ===== src/Web.antt =====
-- pkg/server/web/handlers.go: what the client of a handler gets.
pub mod Text
use go_inbucket.Base.{Bytes}

-- JSON, the 404 of `http.NotFound`, a body with its content type, or the status 500 that `ServeHTTP`
-- answers when a handler returns an error. A panic ends the connection.
pub data Response (J : Type 0) : Type 0 where
  json : J → Response J
  not_found : Response J
  body : Bytes → Bytes → Response J
  server_error : Response J
  panicked : Response J
