-- ===== src/Gmail/Handler/Asked.antt =====
-- Whose client the HTTP API of internal/gmail/handler.go calls.
use openclaw_relay.Base.{
  if◌then◌else◌, ◌≡◌, inl, inr, Option, some, [], arith, Bool-cases, Option-cases,
}
use openclaw_relay.Base.Str.{Str, ◌==◌, codes, trim_prefix}
use openclaw_relay.Http.{Request}
use openclaw_relay.Gmail.{OrError}
use openclaw_relay.Gmail.Client.{ModifyRequest}
use openclaw_relay.Gmail.Handler.{
  GmailClient, Handler, Handled, ClientCall, guard, modify, handle_modify_message, Reply, answer,
  refuse, messages, message, labels, thread, handle_list_messages, handle_get_message,
  handle_list_labels, handle_get_thread,
}
use openclaw_relay.Gmail.Handler.Calls.{IsFor, guard_iff, resolve_client_iff}

-- The account is that of the client that the request is for.
pub record IsAsked (h : Handler) (r : Request) (email : Str) : Type 0 where
  client : GmailClient
  chosen : IsFor h r client
  same : client.email ≡ email

-- the handled request asks at most the client of this account
abbrev pub Asks : Handler → Request → Handled → Type 0
Asks h r handled =
    (email : Str) (call : ClientCall) → handled.call ≡ some (email, call) → IsAsked h r email

guard-Asks :
    (method : Str) (h : Handler) (r : Request) (next : GmailClient → Handled)
    → ((client : GmailClient) (email : Str) (call : ClientCall)
        → (next client).call ≡ some (email, call)
        → client.email ≡ email)
    → Asks h r (guard method h r next)
guard-Asks method h r next only email call e =
    let (_, (client, found, made)) = (guard_iff method h r next (email, call)).0 e in
    record {
      client = client;
      chosen = (resolve_client_iff h r client).0 found;
      same = only client email call made;
    }

answer_email :
    {A : Type 0} (asked email : Str) (made call : ClientCall) (show : A → Reply)
    (result : OrError A)
    → (answer (asked, made) show result).call ≡ some (email, call)
    → asked ≡ email
answer_email asked email made call show (inl err) e = ground (arith, e)
answer_email asked email made call show (inr a) e = ground (arith, e)

named_email :
    {A : Type 0} (id asked email : Str) (made call : ClientCall) (msg : Str) (show : A → Reply)
    (result : OrError A)
    → (if id == [] then refuse msg 400 else answer (asked, made) show result).call
      ≡ some (email, call)
    → asked ≡ email
named_email id asked email made call msg show result e = elim (Bool-cases (id == [])) [
  | inl empty ↦ absurd (ground (arith, rw (empty) at e))
  | inr full ↦ answer_email asked email made call show result (rw (full) at e)
]

module _ (h : Handler) (r : Request) where
  pub handle_list_messages-Asks : Asks h r (handle_list_messages h r)
  unfolding handle_list_messages
  handle_list_messages-Asks =
      guard-Asks (codes "GET") h r _
        (λ client email call. answer_email client.email email _ call messages _)

  pub handle_get_message-Asks : Asks h r (handle_get_message h r)
  unfolding handle_get_message
  handle_get_message-Asks =
      guard-Asks (codes "GET") h r _
        (λ client email call. named_email _ client.email email _ call _ message _)

  pub handle_list_labels-Asks : Asks h r (handle_list_labels h r)
  unfolding handle_list_labels
  handle_list_labels-Asks =
      guard-Asks (codes "GET") h r _
        (λ client email call. answer_email client.email email _ call labels _)

  pub handle_get_thread-Asks : Asks h r (handle_get_thread h r)
  unfolding handle_get_thread
  handle_get_thread-Asks =
      guard-Asks (codes "GET") h r _
        (λ client email call. named_email _ client.email email _ call _ thread _)

  modify_email :
      (decode : Option Str → Option ModifyRequest) (client : GmailClient) (email : Str)
      (call : ClientCall)
      → (modify decode r client).call ≡ some (email, call)
      → client.email ≡ email
  unfolding modify
  modify_email decode client email call e =
      elim (Bool-cases (trim_prefix r.path (codes "/api/gmail/modify/") == [])) [
        | inl empty ↦ absurd (ground (arith, e, empty))
        | inr full ↦ elim (Option-cases (decode r.body)) [
          | inl bad ↦ absurd (ground (arith, e, full, bad))
          | inr (req, good) ↦ ground (arith, e, full, good)
        ]
      ]

  pub handle_modify_message-Asks :
      (decode : Option Str → Option ModifyRequest) → Asks h r (handle_modify_message decode h r)
  unfolding handle_modify_message
  handle_modify_message-Asks decode =
      guard-Asks (codes "POST") h r (modify decode r) (modify_email decode)
