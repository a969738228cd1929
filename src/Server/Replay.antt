-- ===== src/Server/Replay.antt =====
-- What requests to the server of internal/server/server.go do to its rate limiter, one after the other.
use mathlib.Core.Path.{subst}
use openclaw_relay.Base.{
  ℕ, ◌+◌, ◌≤◌, ◌<◌, ◌≡◌, inl, inr, refl, sym, ap, ◌∙◌, true, some, List, [], ◌∷◌, arith, length,
}
use openclaw_relay.Base.Str.{Str, codes}
use openclaw_relay.Base.Map.{Ranges, insert}
use openclaw_relay.Http.{Request}
use openclaw_relay.RateLimit.{allow, max_entries, Timed, call, Steps, here, next}
use openclaw_relay.RateLimit.Invariant.{IsValid}
use openclaw_relay.RateLimit.Window.{HasRoom}
use openclaw_relay.Gateway.{Call}
use openclaw_relay.Webhook.Trello
use openclaw_relay.Webhook.Trello.Replay.{serve_http_replay_trello}
use openclaw_relay.Mux.{found, route}
use openclaw_relay.Server.{Server, Site, OauthSetup, routes, trello}
use openclaw_relay.Server.Handlers.{World, Moment, serve_route, guarded, serve, serve_all}
use openclaw_relay.Server.Routes.{dispatch_found, reached-Matches, exact_path}
use openclaw_relay.Mux.{ends_in_slash}
use openclaw_relay.Auth.{is_public}
use openclaw_relay.Auth.Access.{secured_public}
use openclaw_relay.Base.Str.{has_prefix}
use openclaw_relay.Server.Handlers.{plain, dispatch}
use openclaw_relay.Server.Limits.{asked_key, serve-IsMove, limiter-logged}

module _ (u : World) (site : Site) where
  -- The clock does not run backwards, an eviction ranges over the map as it is, and the map has room.
  pub record IsTimely (clock : ℕ) (w : Moment) (r : Request) (s : Server) : Type 0 where
    pub later : clock ≤ w.readings.since
    pub ordered : w.readings.since ≤ w.readings.now
    pub lists :
        (key : Str)
        → asked_key u site w r s.limiter ≡ some key
        → Ranges w.readings.seen (insert key w.readings.now s.limiter.seen)
    pub room : length s.limiter.seen < max_entries

  abbrev pub AreTimely : ℕ → List (Moment × Request) → Server → Type 0
  AreTimely clock [] s = Unit
  AreTimely clock ((w, r) ∷ requests) s =
      IsTimely clock w r s × AreTimely w.readings.now requests (serve u site w r s).0

  -- the clock behind the requests
  abbrev pub end_of : ℕ → List (Moment × Request) → ℕ
  end_of clock [] = clock
  end_of clock ((w, r) ∷ requests) = end_of w.readings.now requests

  -- The limiter's steps from `t0` lead to the limiter of the server.
  record Reaches (t0 : Timed) (s : Server) (clock : ℕ) : Type 0 where
    at : Timed
    steps : Steps t0 at
    rooms : HasRoom steps
    same : at.limiter ≡ s.limiter
    past : at.clock ≤ clock

  serve-Reaches :
      (t0 : Timed) (clock : ℕ) (w : Moment) (r : Request) (s : Server)
      → IsTimely clock w r s
      → Reaches t0 s clock
      → Reaches t0 (serve u site w r s).0 w.readings.now
  serve-Reaches t0 clock w r s timely h = elim (serve-IsMove u site w r s) [
    | inl idle ↦ record {
      at = h.at;
      steps = h.steps;
      rooms = h.rooms;
      same = h.same ∙ sym idle;
      past = omega (arith, h.past, timely.later, timely.ordered);
    }
    | inr (key, asked, named, moved_on) ↦ record {
      at = record {
        limiter = (allow w.readings.seen w.readings.since w.readings.now key h.at.limiter).0;
        clock = w.readings.now;
      };
      steps = next h.steps (
          call key w.readings.seen w.readings.since w.readings.now named
            (omega (arith, h.past, timely.later)) timely.ordered
            (subst (λ l. Ranges w.readings.seen (insert key w.readings.now l.seen)) (sym h.same)
              (timely.lists key asked)));
      rooms = (h.rooms, subst (λ l. length l.seen < max_entries) (sym h.same) timely.room);
      same =
          ap (λ l. (allow w.readings.seen w.readings.since w.readings.now key l).0) h.same
          ∙ sym moved_on;
      past = omega arith;
    }
  ]

  serve_all-Reaches :
      (t0 : Timed) (clock : ℕ) (requests : List (Moment × Request)) (s : Server)
      → AreTimely clock requests s
      → Reaches t0 s clock
      → Reaches t0 (serve_all u site requests s) (end_of clock requests)
  unfolding serve_all
  serve_all-Reaches t0 clock [] s timely h = h
  serve_all-Reaches t0 clock ((w, r) ∷ requests) s timely h =
      serve_all-Reaches t0 w.readings.now requests (serve u site w r s).0 timely.1
        (serve-Reaches t0 clock w r s timely.0 h)

trello_public : (path : Str) → path ≡ codes "/webhook/trello" → is_public path ≡ true
unfolding is_public has_prefix codes
trello_public path e = ap is_public e ∙ refl

-- a request that reaches the Trello handler leaves the limiter as the handler does
limiter-serve_trello :
    (u : World) (site : Site) (setup : OauthSetup) (w : Moment) (r : Request) (s : Server)
    → site.table ≡ routes site.cfg setup
    → route site.table r ≡ found trello
    → (serve u site w r s).0.limiter
      ≡ (Trello.serve_http u.platform site.cfg w.readings s.limiter r).limiter
unfolding serve guarded serve_route
limiter-serve_trello u site setup w r s table reached =
    let path =
      exact_path (codes "/webhook/trello") r.path (unfold ends_in_slash codes in refl)
        (reached-Matches site.cfg setup r trello (ap (λ t. route t r) (sym table) ∙ reached)) in
    let passed =
      secured_public (λ response s. (s, plain response)) site.cfg (dispatch u site w) r
        (trello_public r.path path) in
    limiter-logged u site w r (guarded u site w r s)
    ∙ ap (λ f. (f s).0.limiter) passed
    ∙ ap (λ h. h.0.limiter) (dispatch_found u site w r s trello reached)

-- Two requests to the server for which the Trello handler makes jobs less than `ttl` apart are for
-- different cards or different actions, whatever requests the server takes in between, to whichever of its
-- handlers, as long as the clock does not run backwards and the limiter has room for their keys.
pub serve_all_replay :
    (u : World) (site : Site) (setup : OauthSetup) (s : Server) (clock : ℕ) (w w' : Moment)
    (r r' : Request) (job job' : Call) (requests : List (Moment × Request))
    → site.table ≡ routes site.cfg setup
    → route site.table r ≡ found trello
    → IsValid s.limiter
    → (d : Trello.Jobs.IsDispatch u.platform site.cfg w.readings s.limiter r job)
    → clock ≤ w.readings.since
    → w.readings.since ≤ w.readings.now
    → Ranges w.readings.seen
        (insert (Trello.rate_limit_key d.payload) w.readings.now s.limiter.seen)
    → length s.limiter.seen < max_entries
    → AreTimely u site w.readings.now requests (serve u site w r s).0
    → end_of u site w.readings.now requests ≤ w'.readings.since
    → w'.readings.since < w.readings.now + s.limiter.ttl
    → (d' : Trello.Jobs.IsDispatch u.platform site.cfg w'.readings
        (serve_all u site requests (serve u site w r s).0).limiter
        r'
        job')
    → ¬ (
        (d'.payload.card_id ≡ d.payload.card_id) × (d'.payload.action_type ≡ d.payload.action_type))
serve_all_replay u site setup s clock w w' r r' job job' requests table reached valid d before
      ordered lists room timely later soon d' =
    let t0 : Timed = record {
      limiter = (Trello.serve_http u.platform site.cfg w.readings s.limiter r).limiter;
      clock = w.readings.now;
    } in
    let reaches =
      serve_all-Reaches u site t0 w.readings.now requests (serve u site w r s).0 timely (record {
        at = t0;
        steps = here;
        rooms = tt;
        same = sym (limiter-serve_trello u site setup w r s table reached);
        past = omega arith;
      }) in
    let timed : Timed = record { limiter = s.limiter; clock = clock } in
    subst
      (λ l.
        (e : Trello.Jobs.IsDispatch u.platform site.cfg w'.readings l r' job')
        → ¬ (
            (e.payload.card_id ≡ d.payload.card_id)
            × (e.payload.action_type ≡ d.payload.action_type)))
      reaches.same
      (serve_http_replay_trello u.platform site.cfg site.cfg timed {t = reaches.at} w.readings
        w'.readings r r' job job' d valid before ordered lists room reaches.steps reaches.rooms
        (omega (arith, reaches.past, later)) soon)
      d'
