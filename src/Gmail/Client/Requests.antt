-- ===== src/Gmail/Client/Requests.antt =====
-- The requests of internal/gmail/client.go: what its methods make of the answers of the service, and the
-- token that they are made with.
use openclaw_relay.Base.{
  ℕ, not, Option, none, some, List, [], ◌∷◌, ◌++◌, map, if◌then◌else◌, inl, inr,
}
use openclaw_relay.Base.Int.{ℤ, pos, is_positive}
use openclaw_relay.Base.Str.{Str, ◌==◌, codes}
use openclaw_relay.Tokens.{
  OauthToken, Codec, Disk, Store, get_google_oauth2_token, update_google_access_token,
}
use openclaw_relay.Gmail.{HistoryMessage, OrError}
use openclaw_relay.Gmail.Client.{
  Wire, ApiMessage, RawMsg, Service, LabelInfo, MessageMeta, MessageFull, ModifyRequest, get_header,
  decode_rfc2047, extract_body,
}

abbrev and_then : {A B : Type 0} → OrError A → (A → OrError B) → OrError B
and_then (inl err) next = inl err
and_then (inr a) next = next a

module _ (w : Wire) where
  unfoldable pub meta_of : ApiMessage → MessageMeta
  unfolding get_header decode_rfc2047
  meta_of m = record {
    id = m.id;
    thread_id = m.thread_id;
    subject = decode_rfc2047 w (get_header w (codes "Subject") m.payload);
    from = decode_rfc2047 w (get_header w (codes "From") m.payload);
    date = get_header w (codes "Date") m.payload;
    snippet = m.snippet;
    labels = m.label_ids;
  }

  unfoldable pub full_of : ApiMessage → MessageFull
  unfolding get_header decode_rfc2047 extract_body
  full_of m = record {
    id = m.id;
    thread_id = m.thread_id;
    subject = decode_rfc2047 w (get_header w (codes "Subject") m.payload);
    from = decode_rfc2047 w (get_header w (codes "From") m.payload);
    to = decode_rfc2047 w (get_header w (codes "To") m.payload);
    date = get_header w (codes "Date") m.payload;
    body = extract_body w m.payload;
    labels = m.label_ids;
    snippet = m.snippet;
  }

  -- the loop of `ListMessages`, which leaves out what it cannot get
  unfoldable pub get_metas : Service → List Str → List MessageMeta
  unfolding meta_of
  get_metas svc [] = []
  get_metas svc (id ∷ ids) =
      let rest = get_metas svc ids in
      elim (svc.get_metadata id) [ inl _ ↦ rest | inr m ↦ meta_of m ∷ rest ]

  unfoldable pub list_messages : Service → Str → ℤ → OrError (List MessageMeta)
  unfolding get_metas
  list_messages svc query max = elim (svc.list query (if is_positive max then max else pos 20)) [
    | inl err ↦ inl (codes "list messages: " ++ err)
    | inr ids ↦ inr (get_metas svc ids)
  ]

  unfoldable pub get_message : Service → Str → OrError MessageFull
  unfolding full_of
  get_message svc id = elim (svc.get_full id) [
    | inl err ↦ inl (codes "get message: " ++ err)
    | inr m ↦ inr (full_of m)
  ]

  unfoldable pub get_thread : Service → Str → OrError (List MessageFull)
  unfolding full_of
  get_thread svc id = elim (svc.thread id) [ inl err ↦ inl err | inr ms ↦ inr (map full_of ms) ]

  -- The last loop of `GetHistory`, on one message.
  unfoldable pub history_message : Service → RawMsg → HistoryMessage
  unfolding get_header decode_rfc2047
  history_message svc raw = elim (svc.get_metadata raw.id) [
    | inl _ ↦ record {
      id = raw.id;
      thread_id = raw.thread_id;
      labels = raw.labels;
      subject = [];
      from = [];
      snippet = [];
    }
    | inr m ↦ record {
      id = m.id;
      thread_id = m.thread_id;
      labels = m.label_ids;
      subject = decode_rfc2047 w (get_header w (codes "Subject") m.payload);
      from = decode_rfc2047 w (get_header w (codes "From") m.payload);
      snippet = m.snippet;
    }
  ]

-- The labels that `ModifyMessage` asks to add and to remove.
unfoldable pub label_changes : ModifyRequest → List Str × List Str
label_changes req = (
  req.add_labels ++ (if req.star then codes "STARRED" ∷ [] else []),
  (req.remove_labels ++ (if req.archive then codes "INBOX" ∷ [] else []))
      ++ (if req.mark_read then codes "UNREAD" ∷ [] else []),
)

unfoldable pub modify_message : Service → Str → ModifyRequest → Option Str
unfolding label_changes
modify_message svc id req = let (add, remove) = label_changes req in svc.modify id add remove

-- What `getService` asks of the OAuth library: a fresh token for the stored one, and the service.
pub record TokenSource : Type 0 where
  pub refresh : OauthToken → OrError OauthToken
  pub new_service : OauthToken → OrError Service

module _ (c : Codec) (d : Disk) (ts : TokenSource) where
  -- The stored token is replaced if a new access token came; an error of that is only logged.
  unfoldable pub keep_fresh : Str → OauthToken → OauthToken → Store → Store
  unfolding update_google_access_token
  keep_fresh email old new s =
      if not (new.access_token == old.access_token)
      then (update_google_access_token c d [] new email s).0
      else s

  -- `getService` for the account of a configured client, whose email is not empty
  unfoldable pub get_service : Str → Store → Store × OrError Service
  unfolding keep_fresh get_google_oauth2_token
  get_service email s = elim (get_google_oauth2_token [] email s) [
    | none ↦ (s, inl (codes "not authenticated with Google for " ++ email))
    | some old ↦ elim (ts.refresh old) [
      | inl err ↦ (s, inl (codes "token refresh: " ++ err))
      | inr new ↦ (keep_fresh email old new s, ts.new_service new)
    ]
  ]

  -- A method of the client: the service, and then the request.
  unfoldable pub with_service :
      {A : Type 0} → Str → (Service → OrError A) → Store → Store × OrError A
  unfolding get_service
  with_service email request s = let (s', svc) = get_service email s in (s', and_then svc request)

unfoldable pub list_labels : Service → OrError (List LabelInfo)
list_labels svc = svc.labels

unfoldable pub get_current_history_id : Service → OrError ℕ
get_current_history_id svc = svc.profile_history_id
