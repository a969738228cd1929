-- ===== src/Webhook/Moves.antt =====
-- What one webhook request of internal/webhook does to the rate limiter.
use openclaw_relay.Base.{◌≡◌, ◌≢◌, ◌⊎◌, Option, some, []}
use openclaw_relay.Base.Str.{Str}
use openclaw_relay.RateLimit.{Limiter, allow}
use openclaw_relay.Webhook.{Readings}

-- The limiter is as it was, or behind a call of `Allow` for the key that is asked about.
abbrev pub IsMove : Readings → Limiter → Option Str → Limiter → Type 0
IsMove w l asked l' =
    (l' ≡ l)
    ⊎ ((key : Str) × (asked ≡ some key) × (key ≢ []) × (l' ≡ (allow w.seen w.since w.now key l).0))
