-- ===== src/Webhook/Trello/Replay.antt =====
-- Duplicate Trello events: one job for a card and an action within the limiter's `ttl`.
use mathlib.Core.Bool.{false≢true}
use mathlib.Core.List.{append_cancel_left}
use openclaw_relay.Base.{◌+◌, ◌≤◌, ◌<◌, ◌≡◌, ◌≢◌, refl, sym, ap, ◌∙◌, true, [], arith, length}
use openclaw_relay.Base.Str.{Str, codes, eq_iff, Lacks}
use openclaw_relay.Base.Cut.{cut_last_unique}
use openclaw_relay.Base.Map.{Map, Ranges, insert}
use openclaw_relay.Http.{Request}
use openclaw_relay.RateLimit.{Limiter, allow, Timed, Steps, max_entries}
use openclaw_relay.RateLimit.Invariant.{IsValid}
use openclaw_relay.RateLimit.Window.{HasRoom, allow_after-eq-false}
use openclaw_relay.Gateway.{Call}
use openclaw_relay.Config.{Config}
use openclaw_relay.Webhook.{TrelloPayload, Platform, Readings}
use openclaw_relay.Webhook.Trello.{rate_limit_key, dispatch, receive, serve_http}
use openclaw_relay.Webhook.Trello.Events.{
  post-ne-head, find_rule_complete, event_type_complete, is_forbidden-eq-false_iff, IsEvent,
  card_moved, comment_added,
}
use openclaw_relay.Webhook.Trello.Jobs.{IsDispatch}

Lacks-action_type :
    (cfg : Config) (order : Map Str) (p : TrelloPayload) (event : Str)
    → IsEvent cfg order p event
    → Lacks b':' p.action_type
Lacks-action_type cfg order p event (card_moved kind _ _ _) = rw kind (unfold codes in omega arith)
Lacks-action_type cfg order p event (comment_added kind _ _) = rw kind (unfold codes in omega arith)

-- Two payloads that stand for events have one rate limit key only if they agree in the card and in
-- the action.
pub rate_limit_key-injective_trello :
    (cfg cfg' : Config) (order order' : Map Str) (p p' : TrelloPayload) (event event' : Str)
    → IsEvent cfg order p event
    → IsEvent cfg' order' p' event'
    → rate_limit_key p ≡ rate_limit_key p'
    → (p.card_id ≡ p'.card_id) × (p.action_type ≡ p'.action_type)
unfolding rate_limit_key
rate_limit_key-injective_trello cfg cfg' order order' p p' event event' k k' e =
    cut_last_unique b':' p.card_id p'.card_id p.action_type p'.action_type
      (Lacks-action_type cfg order p event k) (Lacks-action_type cfg' order' p' event' k')
      (append_cancel_left (codes "trello:") _ _ e)

pub rate_limit_key-ne-nil : (p : TrelloPayload) → rate_limit_key p ≢ []
unfolding rate_limit_key codes
rate_limit_key-ne-nil p = cc

-- a request that makes a job leaves the limiter behind its call of `Allow`
limiter-serve_http :
    (p : Platform) (cfg : Config) (w : Readings) (l : Limiter) (r : Request) (call : Call)
    (d : IsDispatch p cfg w l r call)
    → (serve_http p cfg w l r).limiter ≡ (allow w.seen w.since w.now (rate_limit_key d.payload) l).0
unfolding serve_http receive dispatch
limiter-serve_http p cfg w l r call d =
    let genuine = (is_forbidden-eq-false_iff p cfg r d.body).1 d.genuine in
    let kind = event_type_complete d.kind in
    let found = find_rule_complete d.ruled in
    ground (
      arith,
      post-ne-head,
      eq_iff r.method (codes "POST"),
      d.posted,
      d.readable,
      genuine,
      d.decoded,
      kind,
      d.allowed,
      found,
    )

-- Two requests that make jobs less than `ttl` apart are for different cards or different actions,
-- whatever other requests and clean-ups come in between, as long as the limiter has room for their
-- keys: a webhook that is sent again makes no second job.
pub serve_http_replay_trello :
    (p : Platform) (cfg cfg' : Config) (s : Timed) {t : Timed} (w w' : Readings) (r r' : Request)
    (call call' : Call) (d : IsDispatch p cfg w s.limiter r call)
    → IsValid s.limiter
    → s.clock ≤ w.since
    → w.since ≤ w.now
    → Ranges w.seen (insert (rate_limit_key d.payload) w.now s.limiter.seen)
    → length s.limiter.seen < max_entries
    → (steps : Steps
        (record { limiter = (serve_http p cfg w s.limiter r).limiter; clock = w.now })
        t)
    → HasRoom steps
    → t.clock ≤ w'.since
    → w'.since < w.now + s.limiter.ttl
    → (d' : IsDispatch p cfg' w' t.limiter r' call')
    → ¬ (
        (d'.payload.card_id ≡ d.payload.card_id) × (d'.payload.action_type ≡ d.payload.action_type))
serve_http_replay_trello p cfg cfg' s {t} w w' r r' call call' d valid before order ranges room
      steps rooms later soon d' same =
    let key = rate_limit_key d.payload in
    let left = limiter-serve_http p cfg w s.limiter r call d in
    let same_key : rate_limit_key d'.payload ≡ key = unfold rate_limit_key in cc in
    let held =
      allow_after-eq-false s
        (record { limiter = (serve_http p cfg w s.limiter r).limiter; clock = w.now }) key w.seen
        w'.seen w.since w.now w'.since w'.now valid (rate_limit_key-ne-nil d.payload) before order
        ranges room d.allowed left refl steps rooms later soon in
    let passed : (allow w'.seen w'.since w'.now key t.limiter).1 ≡ true =
      ap (λ k. (allow w'.seen w'.since w'.now k t.limiter).1) (sym same_key) ∙ d'.allowed in
    false≢true (sym (ap (λ x. x.1) held) ∙ passed)
