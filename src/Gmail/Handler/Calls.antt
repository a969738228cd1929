-- ===== src/Gmail/Handler/Calls.antt =====
-- When the HTTP API of internal/gmail/handler.go calls a client.
use openclaw_relay.Base.{
  ◌≡◌, ◌≢◌, ◌↔◌, inl, inr, sym, ap, ◌∙◌, Option, some, [], arith, Bool-cases, Option-cases,
}
use openclaw_relay.Base.Str.{Str, ◌==◌, codes, eq_iff, trim_prefix}
use openclaw_relay.Base.Map.{lookup}
use openclaw_relay.Http.{Request, query_param}
use openclaw_relay.Gmail.Client.{ModifyRequest}
use openclaw_relay.Gmail.Handler.{
  GmailClient, Handler, Handled, ClientCall, modify_call, resolve_client, guard, modify,
  handle_modify_message,
}

pub guard_iff :
    (method : Str) (h : Handler) (r : Request) (next : GmailClient → Handled)
    (call : Str × ClientCall)
    → ((guard method h r next).call ≡ some call) ↔ (
        (r.method ≡ method)
        × ((client : GmailClient) × (resolve_client h r ≡ some client)
            × ((next client).call ≡ some call)))
unfolding guard
guard_iff method h r next call = elim (Bool-cases (r.method == method)) [
  | inr other ↦ (
    λ e. absurd (ground (arith, e, other)),
    λ (same, _). absurd (ground (arith, other, (eq_iff r.method method).1 same)),
  )
  | inl same ↦ elim (Option-cases (resolve_client h r)) [
    | inl unknown ↦ (
      λ e. absurd (ground (arith, e, same, unknown)),
      λ (_, (client, found, _)). absurd (ground (arith, unknown, found)),
    )
    | inr (client, found) ↦
        let passes : (guard method h r next).call ≡ (next client).call =
          simp (guard, same, found) in
        (
          λ e. ((eq_iff r.method method).0 same, (client, found, sym passes ∙ e)),
          λ (_, (client', found', e)).
              let same_client : client ≡ client' = ground (arith, found, found') in
              passes ∙ ap (λ c. (next c).call) same_client ∙ e,
        )
  ]
]

-- The client that a request is for: that of the account which its query names, or of the default account
-- if it names none.
pub data IsFor (h : Handler) (r : Request) (client : GmailClient) : Type 0 where
  by_account :
      query_param r (codes "account") ≢ []
      → lookup (query_param r (codes "account")) h.clients ≡ some client
      → IsFor h r client
  by_default :
      query_param r (codes "account") ≡ []
      → lookup h.default_email h.clients ≡ some client
      → IsFor h r client

pub resolve_client_iff :
    (h : Handler) (r : Request) (client : GmailClient)
    → (resolve_client h r ≡ some client) ↔ IsFor h r client
unfolding resolve_client
resolve_client_iff h r client = elim (Bool-cases (query_param r (codes "account") == [])) [
  | inl missing ↦
      let empty = (eq_iff (query_param r (codes "account")) []).0 missing in
      rw (missing) (
        by_default empty,
        λ h'. elim h' [ by_default _ found ↦ found | by_account other _ ↦ absurd (other empty) ],
      )
  | inr given ↦
      let full : query_param r (codes "account") ≢ [] =
        λ e. ground (arith, given, e, eq_iff (query_param r (codes "account")) []) in
      rw (given) (
        by_account full,
        λ h'. elim h' [ by_account _ found ↦ found | by_default empty _ ↦ absurd (full empty) ],
      )
]

modify_iff :
    (decode : Option Str → Option ModifyRequest) (r : Request) (client : GmailClient)
    (email id : Str) (req : ModifyRequest)
    → ((modify decode r client).call ≡ some (email, modify_call id req)) ↔ (
        (client.email ≡ email)
        × (trim_prefix r.path (codes "/api/gmail/modify/") ≡ id)
        × (id ≢ [])
        × (decode r.body ≡ some req))
unfolding modify
modify_iff decode r client email id req =
    let path = trim_prefix r.path (codes "/api/gmail/modify/") in
    elim (Option-cases (decode r.body)) [
      | inl bad ↦ (
        λ e. absurd (ground (arith, e, bad)),
        λ (_, _, _, decoded). absurd (ground (arith, bad, decoded)),
      )
      | inr (req', good) ↦ elim (Bool-cases (path == [])) [
        | inl empty ↦ (
          λ e. absurd (ground (arith, e, empty)),
          λ (_, named, ne, _). absurd (ne (sym named ∙ (eq_iff path []).0 empty)),
        )
        | inr full ↦ (
          λ e. (
            ground (arith, e, good, full),
            ground (arith, e, good, full),
            λ nil. ground (arith, e, good, full, nil, eq_iff path []),
            ground (arith, e, good, full),
          ),
          λ (same, named, _, decoded). ground (arith, good, full, same, named, decoded),
        )
      ]
    ]

-- The API asks a client to change a message exactly if the request is a POST, the account that its query
-- names, or the default account if it names none, has this client, its path names the message by an id
-- that is not empty, and its body is decoded; the change is the one decoded.
pub handle_modify_message-call :
    (decode : Option Str → Option ModifyRequest) (h : Handler) (r : Request) (email id : Str)
    (req : ModifyRequest)
    → ((handle_modify_message decode h r).call ≡ some (email, modify_call id req)) ↔ (
        (r.method ≡ codes "POST")
        × ((client : GmailClient) × IsFor h r client × (client.email ≡ email))
        × (trim_prefix r.path (codes "/api/gmail/modify/") ≡ id)
        × (id ≢ [])
        × (decode r.body ≡ some req))
unfolding handle_modify_message
handle_modify_message-call decode h r email id req = (
  λ e.
      let (post, (client, found, made)) =
        (guard_iff (codes "POST") h r (modify decode r) (email, modify_call id req)).0 e in
      let (same, named, ne, decoded) = (modify_iff decode r client email id req).0 made in
      (post, (client, (resolve_client_iff h r client).0 found, same), named, ne, decoded),
  λ (post, (client, found, same), named, ne, decoded).
      (guard_iff (codes "POST") h r (modify decode r) (email, modify_call id req)).1 (
        post,
        (
          client,
          (resolve_client_iff h r client).1 found,
          (modify_iff decode r client email id req).1 (same, named, ne, decoded),
        ),
      ),
)
