-- ===== src/Audit/Status.antt =====
-- The status that internal/audit/audit.go logs against the one that the client gets.
use openclaw_relay.Base.{ℕ, ◌≡◌, refl, Option, List, [], ◌∷◌, All}
use openclaw_relay.Base.Str.{Str}
use openclaw_relay.Http.{Request}
use openclaw_relay.Audit.{Write, write_header, write_body, record_status, middleware}

-- The status that net/http sends: that of the first `WriteHeader`, or 200 if a `Write` or the end of the
-- handler comes first.
abbrev pub sent_status : List Write → ℕ
sent_status [] = 200
sent_status (write_header code ∷ writes) = code
sent_status (write_body _ ∷ writes) = 200

abbrev pub IsBody : Write → Type 0
IsBody (write_header _) = ⊥
IsBody (write_body _) = Unit

-- The handler sets the status at most once, and before all else.
abbrev pub SetsOnce : List Write → Type 0
SetsOnce [] = Unit
SetsOnce (write_header _ ∷ writes) = All IsBody writes
SetsOnce (write_body _ ∷ writes) = All IsBody writes

record_status_bodies :
    (status : ℕ) (writes : List Write) → All IsBody writes → record_status status writes ≡ status
unfolding record_status
record_status_bodies status [] h = refl
record_status_bodies status (write_header code ∷ writes) h = absurd h.0
record_status_bodies status (write_body _ ∷ writes) h = record_status_bodies status writes h.1

-- For a handler that sets its status at most once, and before it writes, the status that is logged is the
-- one that is sent.
pub middleware-sent_status :
    (split_host : Str → Option Str) (started : Str) (elapsed : ℕ) (r : Request)
    (writes : List Write)
    → SetsOnce writes
    → (middleware split_host started elapsed r writes).status ≡ sent_status writes
unfolding middleware record_status
middleware-sent_status split_host started elapsed r [] h = refl
middleware-sent_status split_host started elapsed r (write_header code ∷ writes) h =
    record_status_bodies code writes h
middleware-sent_status split_host started elapsed r (write_body _ ∷ writes) h =
    record_status_bodies 200 writes h
