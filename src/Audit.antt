-- ===== src/Audit.antt =====
-- The audit log of internal/audit/audit.go: the entry that is logged for a request. What a handler does
-- to its response writer is a list of writes; `net.SplitHostPort` is the argument `split_host`, which
-- gives the host.
pub mod Status
pub mod Logger
pub mod Lines
pub mod Reader
mod LogTests
use openclaw_relay.Base.{ℕ, Option, none, some, List, [], ◌∷◌, nat_eq, if◌then◌else◌, not}
use openclaw_relay.Base.Str.{Str, ◌==◌, codes}
use openclaw_relay.Base.Space.{trim_space}
use openclaw_relay.Http.{Request, header}

pub record Entry : Type 0 where
  pub timestamp : Str
  pub method : Str
  pub path : Str
  pub status : ℕ
  pub source_ip : Str
  pub latency_ms : ℕ

-- A call of `WriteHeader` with a code, or of `Write`.
pub data Write : Type 0 where
  write_header : ℕ → Write
  write_body : Str → Write

-- The field `status` of the wrapped writer after the writes.
unfoldable pub record_status : ℕ → List Write → ℕ
record_status status [] = status
record_status status (write_header code ∷ writes) = record_status code writes
record_status status (write_body _ ∷ writes) = record_status status writes

-- The first part of `strings.SplitN(s, ",", 2)`.
unfoldable pub before_comma : Str → Str
before_comma [] = []
before_comma (c ∷ s) = let rest = before_comma s in if nat_eq c b',' then [] else c ∷ rest

-- The address in the header, or "".
unfoldable pub forwarded_ip : Request → Str
unfolding header before_comma trim_space
forwarded_ip r =
    let xff = header r (codes "X-Forwarded-For") in
    if not (xff == []) then trim_space (before_comma xff) else []

module _ (split_host : Str → Option Str) where
  unfoldable pub extract_client_ip : Request → Str
  unfolding forwarded_ip
  extract_client_ip r =
      let ip = forwarded_ip r in
      if not (ip == [])
      then ip
      else elim (split_host r.remote_addr) [ none ↦ r.remote_addr | some host ↦ host ]

  -- `Middleware`: the entry for a request and the writes of its handler; `started` is the time in print
  -- and `elapsed` the milliseconds.
  unfoldable pub middleware : Str → ℕ → Request → List Write → Entry
  unfolding extract_client_ip record_status
  middleware started elapsed r writes = record {
    timestamp = started;
    method = r.method;
    path = r.path;
    status = record_status 200 writes;
    source_ip = extract_client_ip r;
    latency_ms = elapsed;
  }
