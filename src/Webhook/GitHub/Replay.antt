-- ===== src/Webhook/GitHub/Replay.antt =====
-- Duplicate GitHub events: one job for an event and a pull request within the limiter's `ttl`.
use mathlib.Core.Bool.{false≢true}
use mathlib.Core.List.{append_cancel_left}
use openclaw_relay.Base.{
  ◌+◌, ◌≤◌, ◌<◌, ◌≡◌, ◌≢◌, inl, inr, refl, sym, ap, ◌∙◌, true, [], arith, length,
}
use openclaw_relay.Base.Int.{ℤ}
use openclaw_relay.Base.Str.{Str, codes, Lacks}
use openclaw_relay.Base.Cut.{cut_first_unique}
use openclaw_relay.Base.Decimal.{itoa, itoa-injective}
use openclaw_relay.Base.Map.{Ranges, insert}
use openclaw_relay.Http.{Request, header}
use openclaw_relay.RateLimit.{Limiter, allow, Timed, Steps, max_entries}
use openclaw_relay.RateLimit.Invariant.{IsValid}
use openclaw_relay.RateLimit.Window.{HasRoom, allow_after-eq-false}
use openclaw_relay.Gateway.{Call}
use openclaw_relay.Config.{Config}
use openclaw_relay.Webhook.{Platform, Readings}
use openclaw_relay.Webhook.GitHub.{rate_limit_key, pr_number, serve_http}
use openclaw_relay.Webhook.GitHub.Jobs.{IsDispatch, limiter-serve_http}
use openclaw_relay.Webhook.GitHub.Events.{IsEvent}

Lacks-event : (event action : Str) → IsEvent event action → Lacks b':' event
unfolding codes
Lacks-event event action (inl h) = rw h.0 (omega arith)
Lacks-event event action (inr (inl h)) = rw h.0 (omega arith)
Lacks-event event action (inr (inr h)) = rw h.0 (omega arith)

-- Two events have one rate limit key only if they agree in the kind of event and in the number of
-- the pull request.
pub rate_limit_key-injective_github :
    (event event' action action' : Str) (pr pr' : ℤ)
    → IsEvent event action
    → IsEvent event' action'
    → rate_limit_key event pr ≡ rate_limit_key event' pr'
    → (event ≡ event') × (pr ≡ pr')
unfolding rate_limit_key
rate_limit_key-injective_github event event' action action' pr pr' k k' e =
    let (same, printed) =
      cut_first_unique b':' event event' (itoa pr) (itoa pr') (Lacks-event event action k)
        (Lacks-event event' action' k') (append_cancel_left (codes "github:") _ _ e) in
    (same, itoa-injective pr pr' printed)

pub rate_limit_key-ne-nil : (event : Str) (pr : ℤ) → rate_limit_key event pr ≢ []
unfolding rate_limit_key codes
rate_limit_key-ne-nil event pr = cc

-- the key of a request that makes a job
abbrev pub key_of :
    {p : Platform} {cfg : Config} {w : Readings} {l : Limiter} {r : Request} {call : Call}
    → IsDispatch p cfg w l r call
    → Str
key_of {p} {r} d =
    rate_limit_key (header r (codes "X-GitHub-Event")) (pr_number (p.decode_github d.body))

-- Two requests that make jobs less than `ttl` apart differ in the event or in the pull request,
-- whatever other requests and clean-ups come in between, as long as the limiter has room for their
-- keys: a webhook that is sent again makes no second job.
pub serve_http_replay_github :
    (p : Platform) (cfg cfg' : Config) (s : Timed) {t : Timed} (w w' : Readings) (r r' : Request)
    (call call' : Call) (d : IsDispatch p cfg w s.limiter r call)
    → IsValid s.limiter
    → s.clock ≤ w.since
    → w.since ≤ w.now
    → Ranges w.seen (insert (key_of d) w.now s.limiter.seen)
    → length s.limiter.seen < max_entries
    → (steps : Steps
        (record { limiter = (serve_http p cfg w s.limiter r).limiter; clock = w.now })
        t)
    → HasRoom steps
    → t.clock ≤ w'.since
    → w'.since < w.now + s.limiter.ttl
    → (d' : IsDispatch p cfg' w' t.limiter r' call')
    → ¬ (
        (header r' (codes "X-GitHub-Event") ≡ header r (codes "X-GitHub-Event"))
        × (pr_number (p.decode_github d'.body) ≡ pr_number (p.decode_github d.body)))
serve_http_replay_github p cfg cfg' s {t} w w' r r' call call' d valid before order ranges room
      steps rooms later soon d' same =
    let same_key : key_of d' ≡ key_of d = cc in
    let held =
      allow_after-eq-false s
        (record { limiter = (serve_http p cfg w s.limiter r).limiter; clock = w.now }) (key_of d)
        w.seen w'.seen w.since w.now w'.since w'.now valid (rate_limit_key-ne-nil _ _) before order
        ranges room d.allowed (limiter-serve_http p cfg w s.limiter r call d) refl steps rooms later
        soon in
    let passed : (allow w'.seen w'.since w'.now (key_of d) t.limiter).1 ≡ true =
      ap (λ k. (allow w'.seen w'.since w'.now k t.limiter).1) (sym same_key) ∙ d'.allowed in
    false≢true (sym (ap (λ x. x.1) held) ∙ passed)
