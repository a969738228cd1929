-- ===== src/Http.antt =====
-- Requests and responses of Go's net/http, as far as the handlers read and write them. A header or a
-- query parameter that is missing reads as "". The body is `none` if reading it fails.
use openclaw_relay.Base.{ℕ, Option, none, some, ◌++◌, [], ◌∷◌}
use openclaw_relay.Base.Str.{Str}
use openclaw_relay.Base.Map.{Map, lookup}

pub record Request : Type 0 where
  pub method : Str
  pub host : Str
  pub path : Str
  pub query : Map Str
  pub headers : Map Str
  pub cookies : Map Str
  pub remote_addr : Str
  pub body : Option Str

abbrev pub or_empty : Option Str → Str
or_empty none = []
or_empty (some v) = v

-- `r.Header.Get`
unfoldable pub header : Request → Str → Str
unfolding lookup
header r k = or_empty (lookup k r.headers)

-- `r.URL.Query().Get`
unfoldable pub query_param : Request → Str → Str
unfolding lookup
query_param r k = or_empty (lookup k r.query)

pub record Response : Type 0 where
  pub status : ℕ
  pub body : Str

-- `http.Error`
unfoldable pub http_error : Str → ℕ → Response
http_error msg code = record { status = code; body = msg ++ b'\n' ∷ [] }

-- `w.WriteHeader` alone
unfoldable pub status_only : ℕ → Response
status_only code = record { status = code; body = [] }
