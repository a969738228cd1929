-- ===== src/Server/Accounts.antt =====
-- Which Google accounts requests to the server of internal/server/server.go connect.
use mathlib.Core.Path.{subst}
use openclaw_relay.Base.{
  none, ◌≡◌, ◌⊎◌, inl, inr, refl, sym, ap, ◌∙◌, Option, some, List, [], ◌∷◌, arith,
}
use openclaw_relay.Base.Str.{Str, codes}
use openclaw_relay.Base.Map.{HasUniqueKeys, lookup}
use openclaw_relay.Http.{Request}
use openclaw_relay.Tokens.{GoogleToken}
use openclaw_relay.Auth.Google.{GoogleAuth, Reply}
use openclaw_relay.Auth.Connect.{handle_callback-Grows, handle_login-Grows, handle_logout-Grows}
use openclaw_relay.Auth.Accounts.{connected, Grows, Grows-same, IsBrought, Grows-weaken}
use openclaw_relay.Mux.{route, ends_in_slash}
use openclaw_relay.Mux.Matches.{Matches}
use openclaw_relay.Server.{
  Server, Site, Route, OauthSetup, routes, google_root, google_login, google_callback,
  google_logout,
}
use openclaw_relay.Server.Handlers.{
  World, Moment, Handled, after_login, serve_route, guarded, logged, serve, serve_all,
  handle_google,
}
use mathlib.Core.Option.{some-injective, none-ne-some}
use openclaw_relay.Base.Map.{Map}
use openclaw_relay.Config.{Config}
use openclaw_relay.Tokens.{OauthToken}
use openclaw_relay.Gmail.Handler.{ClientCall}
use openclaw_relay.Gmail.Handler.Asked.{
  IsAsked, handle_list_messages-Asks, handle_get_message-Asks, handle_modify_message-Asks,
  handle_list_labels-Asks, handle_get_thread-Asks,
}
use openclaw_relay.Gmail.Client.Requests.{get_service}
use openclaw_relay.Server.{list_messages, get_message, modify_message, list_labels, get_thread}
use openclaw_relay.Server.Handlers.{renew}
use openclaw_relay.Server.Renewal.{oauth_of, renewal, IsRenewed, get_service-Grows}
use openclaw_relay.Server.Routes.{exact_path, path_of, reached-Matches, guarded_by_route}

-- A request to the callback brings the token.
abbrev pub IsCallback : Moment → Request → List Str → Str → GoogleToken → Type 0
IsCallback w r allowed k t =
    (r.path ≡ codes "/auth/google/callback") × IsBrought w.oauth allowed r k t

-- One of the requests is such a one.
abbrev pub Among : List (Moment × Request) → (Moment → Request → Type 0) → Type 0
Among [] P = ⊥
Among ((w, r) ∷ requests) P = P w r ⊎ Among requests P

-- A request that is for the client of the account, and for which the OAuth library renews the token.
abbrev pub Renews : Str → GoogleToken → OauthToken → Moment → Request → Type 0
Renews k old new w r = IsAsked w.gmail r k × (w.source.refresh (oauth_of old) ≡ inr new)

-- Where a token for the account comes from.
pub data Origin (requests : List (Moment × Request)) (allowed : List Str) (before : Map GoogleToken)
    (k : Str) : GoogleToken → Type 0 where
  stored : {t : GoogleToken} → lookup k before ≡ some t → Origin requests allowed before k t
  brought :
      {t : GoogleToken}
      → Among requests (λ w r. IsCallback w r allowed k t)
      → Origin requests allowed before k t
  renewed :
      {old : GoogleToken} (new : OauthToken)
      → Among requests (Renews k old new)
      → Origin requests allowed before k old
      → Origin requests allowed before k (renewal new old)

-- What one request does to the token of an account.
abbrev IsStep : Moment → Request → GoogleAuth → Str → GoogleToken → Type 0
IsStep w r g k t =
    IsCallback w r g.allowed_emails k t ⊎ IsAsked w.gmail r k × IsRenewed w.source (connected g) k t

-- If there is a login, there is one after, whose tokens were there before, or `P` holds of them.
abbrev Stays :
    (GoogleAuth → Str → GoogleToken → Type 0) → Option GoogleAuth → Option GoogleAuth → Type 0
Stays P before after =
    (g : GoogleAuth) → before ≡ some g → (g' : GoogleAuth) × (after ≡ some g') × Grows (P g) g g'

module _ (P : GoogleAuth → Str → GoogleToken → Type 0) where
  Stays-same : (before after : Option GoogleAuth) → after ≡ before → Stays P before after
  Stays-same before after e g there = (g, e ∙ there, Grows-same (P g) g g refl refl)

  Stays-after_login :
      (s : Server) (handler : GoogleAuth → GoogleAuth × Reply)
      → ((g : GoogleAuth) → Grows (P g) g (handler g).0)
      → Stays P s.google (after_login s handler).0.google
  Stays-after_login s handler h g there = ((handler g).0, rw (there) refl, h g)

module _ (u : World) (w : Moment) (r : Request) where
  Stays-renew :
      (google : Option GoogleAuth) (call : Option (Str × ClientCall))
      → ((email : Str) (made : ClientCall) → call ≡ some (email, made) → IsAsked w.gmail r email)
      → Stays (IsStep w r) google (renew u w call google)
  unfolding renew
  Stays-renew google none asks g there = (g, there, Grows-same _ g g refl refl)
  Stays-renew none (some call) asks g there = absurd (none-ne-some g there)
  Stays-renew (some g0) (some (email, made)) asks g there =
      let same : g0 ≡ g = some-injective g0 g there in
      (
        record g { store = (get_service u.codec w.disk w.source email g.store).0 },
        rw (same) refl,
        Grows-weaken (λ k t. (k ≡ email) × IsRenewed w.source (connected g) k t) (IsStep w r g) g _
            (λ k t (at, renewed_by).
              inr (subst (IsAsked w.gmail r) (sym at) (asks email made refl), renewed_by))
            (get_service-Grows u.codec w.disk w.source email g),
      )

  serve_route-Stays :
      (cfg : Config) (s : Server) (at : Route)
      → Matches (path_of at) r.path
      → Stays (IsStep w r) s.google (serve_route u cfg w at r s).0.google
  unfolding serve_route handle_google
  serve_route-Stays cfg s google_root fits =
      Stays-after_login _ s _ (λ g. Grows-same _ g g refl refl)
  serve_route-Stays cfg s google_login fits =
      Stays-after_login _ s _
        (λ g. handle_login-Grows _ u.platform.hmac_sha256 w.oauth w.rand w.clock g r)
  serve_route-Stays cfg s google_callback fits =
      let path =
        exact_path (codes "/auth/google/callback") r.path (unfold ends_in_slash codes in refl)
          fits in
      Stays-after_login _ s _ (λ g.
        Grows-weaken (IsBrought w.oauth g.allowed_emails r) (IsStep w r g) g _
          (λ k t brought_by. inl (path, brought_by))
          (handle_callback-Grows u.platform.hmac_sha256 u.codec w.disk w.oauth w.clock g r))
  serve_route-Stays cfg s google_logout fits =
      Stays-after_login _ s _ (λ g. handle_logout-Grows _ u.codec w.disk g r)
  serve_route-Stays cfg s list_messages fits =
      Stays-renew s.google _ (handle_list_messages-Asks w.gmail r)
  serve_route-Stays cfg s get_message fits =
      Stays-renew s.google _ (handle_get_message-Asks w.gmail r)
  serve_route-Stays cfg s modify_message fits =
      Stays-renew s.google _ (handle_modify_message-Asks w.gmail r u.decode_modify)
  serve_route-Stays cfg s list_labels fits =
      Stays-renew s.google _ (handle_list_labels-Asks w.gmail r)
  serve_route-Stays cfg s get_thread fits =
      Stays-renew s.google _ (handle_get_thread-Asks w.gmail r)
  serve_route-Stays cfg s at fits = Stays-same _ s.google _ refl

  -- the origin of what one request leaves, and of what the others do behind it
  Origin-step :
      (requests : List (Moment × Request)) (g : GoogleAuth) (k : Str) (t : GoogleToken)
      → (lookup k (connected g) ≡ some t) ⊎ IsStep w r g k t
      → Origin ((w, r) ∷ requests) g.allowed_emails (connected g) k t
  Origin-step requests g k t (inl before) = stored before
  Origin-step requests g k t (inr (inl called)) = brought (inl called)
  Origin-step requests g k t (inr (inr (asked, h))) =
      subst (Origin ((w, r) ∷ requests) g.allowed_emails (connected g) k) (sym h.same)
        (renewed h.new (inl (asked, h.renewed)) (stored h.stored))

  Origin-later :
      (requests : List (Moment × Request)) (allowed : List Str) (before between : Map GoogleToken)
      (k : Str)
      → ((t : GoogleToken)
          → lookup k between ≡ some t
          → Origin ((w, r) ∷ requests) allowed before k t)
      → (t : GoogleToken) → Origin requests allowed between k t
      → Origin ((w, r) ∷ requests) allowed before k t
  Origin-later requests allowed before between k first t (stored there) = first t there
  Origin-later requests allowed before between k first t (brought called) = brought (inr called)
  Origin-later requests allowed before between k first _ (renewed {old} new asked from) =
      renewed new (inr asked) (Origin-later requests allowed before between k first old from)

module _ (u : World) (site : Site) where
  google-logged :
      (w : Moment) (r : Request) (h : Handled) → (logged u site w r h).0.google ≡ h.0.google
  unfolding logged
  google-logged w r (s, answer) = ground arith

  module _ (setup : OauthSetup) (table : site.table ≡ routes site.cfg setup) where
    serve-Stays :
        (w : Moment) (r : Request) (s : Server)
        → Stays (IsStep w r) s.google (serve u site w r s).0.google
    unfolding serve
    serve-Stays w r s =
        subst (Stays (IsStep w r) s.google) (sym (google-logged w r (guarded u site w r s))) (
          guarded_by_route u site w r s (λ s'. Stays (IsStep w r) s.google s'.google)
            (Stays-same _ s.google s.google refl)
            (λ at reached.
              serve_route-Stays u w r site.cfg s at
                (reached-Matches site.cfg setup r at (ap (λ t. route t r) (sym table) ∙ reached))))

    -- A token that the server has for a Google account after any requests was there before, or one of the
    -- requests is for the callback and brings it: its code is one for which Google gave the token and
    -- named this account, and the account is one of those allowed; or the OAuth library renewed a token
    -- of the same account which has such an origin, at a request that is for the client of this account.
    -- The rules of who is allowed are those from the start. The pollers are not among the requests.
    pub serve_all-accounts :
        (requests : List (Moment × Request)) (s : Server) (g : GoogleAuth)
        → s.google ≡ some g
        → HasUniqueKeys (connected g)
        → (g' : GoogleAuth) × ((serve_all u site requests s).google ≡ some g')
          × (g'.allowed_emails ≡ g.allowed_emails)
          × ((k : Str) (t : GoogleToken)
              → lookup k (connected g') ≡ some t
              → Origin requests g.allowed_emails (connected g) k t)
    unfolding serve_all
    serve_all-accounts [] s g there unique = (g, there, refl, λ k t. stored)
    serve_all-accounts ((w, r) ∷ requests) s g there unique =
        let (g1, there1, first) = serve-Stays w r s g there in
        let (g2, there2, rules, second) =
          serve_all-accounts requests (serve u site w r s).0 g1 there1 (first.unique unique) in
        (
          g2,
          there2,
          rules ∙ first.rules,
          λ k t found.
              Origin-later u w r requests g.allowed_emails (connected g) (connected g1) k
                (λ t' at. Origin-step u w r requests g k t' (first.origin unique k t' at)) t
                (subst (λ allowed. Origin requests allowed (connected g1) k t) first.rules
                  (second k t found)),
        )
