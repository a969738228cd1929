-- ===== src/Gmail/Client.antt =====
-- The Gmail client of internal/gmail/client.go, over the services of Google's library, which are the
-- fields of `Service`. Of a MIME message the model has the tree of parts; base64, EqualFold and the
-- decoder of RFC 2047 are the fields of `Wire`, of which nothing is assumed.
pub mod Requests
pub mod History
pub mod Body
use openclaw_relay.Base.{
  ℕ, zero, suc, Bool, true, false, not, ◌&&◌, Option, none, some, List, [], ◌∷◌, ◌++◌, map,
  if◌then◌else◌, inl, inr,
}
use openclaw_relay.Base.Int.{ℤ, pos, is_positive}
use openclaw_relay.Base.Str.{Str, ◌==◌, codes}
use openclaw_relay.Base.Map.{Map, lookup, insert}
use openclaw_relay.Tokens.{
  OauthToken, GoogleToken, Codec, Disk, Store, get_google_oauth2_token, update_google_access_token,
}
use openclaw_relay.Gmail.{HistoryMessage, OrError}

mutual
  -- A part: its MIME type, its headers, the data of its body if it has one, and its parts.
  pub data Part : Type 0 where
    part : Str → List (Str × Str) → Option Str → Parts → Part

  pub data Parts : Type 0 where
    end : Parts
    more : Part → Parts → Parts

pub record Wire : Type 0 where
  pub base64_url : Str → Str
  pub equal_fold : Str → Str → Bool
  pub decode_words : Str → Option Str

-- a message of the service
pub record ApiMessage : Type 0 where
  pub id : Str
  pub thread_id : Str
  pub payload : Part
  pub snippet : Str
  pub label_ids : List Str

pub record RawMsg : Type 0 where
  pub id : Str
  pub thread_id : Str
  pub labels : List Str

-- One page of the history: its id, the messages added in all its entries, and the next page's token.
pub record HistoryPage : Type 0 where
  pub history_id : ℕ
  pub added : List RawMsg
  pub next_page_token : Str

pub record LabelInfo : Type 0 where
  pub id : Str
  pub name : Str
  pub kind : Str

pub record Service : Type 0 where
  pub list : Str → ℤ → OrError (List Str)
  pub get_metadata : Str → OrError ApiMessage
  pub get_full : Str → OrError ApiMessage
  pub modify : Str → List Str → List Str → Option Str
  pub labels : OrError (List LabelInfo)
  pub thread : Str → OrError (List ApiMessage)
  pub profile_history_id : OrError ℕ
  pub history : ℕ → Str → OrError HistoryPage

pub record MessageMeta : Type 0 where
  pub id : Str
  pub thread_id : Str
  pub subject : Str
  pub from : Str
  pub date : Str
  pub snippet : Str
  pub labels : List Str

pub record MessageFull : Type 0 where
  pub id : Str
  pub thread_id : Str
  pub subject : Str
  pub from : Str
  pub to : Str
  pub date : Str
  pub body : Str
  pub labels : List Str
  pub snippet : Str

pub record ModifyRequest : Type 0 where
  pub add_labels : List Str
  pub remove_labels : List Str
  pub archive : Bool
  pub mark_read : Bool
  pub star : Bool

module _ (w : Wire) where
  unfoldable pub find_header : Str → List (Str × Str) → Str
  find_header name [] = []
  find_header name ((k, v) ∷ headers) = if w.equal_fold k name then v else find_header name headers

  unfoldable pub get_header : Str → Part → Str
  unfolding find_header
  get_header name (part _ headers _ _) = find_header name headers

  unfoldable pub decode_rfc2047 : Str → Str
  decode_rfc2047 s = elim (w.decode_words s) [ none ↦ s | some t ↦ t ]

  -- The decoded data of a part of the MIME type, if it has some.
  unfoldable pub content : Str → Part → Option Str
  content mime (part _ _ none _) = none
  content mime (part type _ (some bytes) _) =
      if type == mime && not (bytes == []) then some (w.base64_url bytes) else none

  -- the first of the parts that is plain text
  unfoldable pub first_plain : Parts → Option Str
  unfolding content
  first_plain end = none
  first_plain (more p ps) = elim (content (codes "text/plain") p) [
    | none ↦ first_plain ps
    | some body ↦ some body
  ]

  unfoldable mutual
    unfolding content first_plain

    pub extract_body : Part → Str
    extract_body (part type headers bytes ps) =
        let nested = nested_body ps in
        elim (content (codes "text/plain") (part type headers bytes ps)) [
          | some body ↦ body
          | none ↦ elim (first_plain ps) [
            | some body ↦ body
            | none ↦ elim (content (codes "text/html") (part type headers bytes ps)) [
              | some body ↦ body
              | none ↦ nested
            ]
          ]
        ]

    pub nested_body : Parts → Str
    nested_body end = []
    nested_body (more p ps) =
        let inner = extract_body p in
        let rest = nested_body ps in
        elim (content (codes "text/html") p) [
          | some body ↦ body
          | none ↦ if not (inner == []) then inner else rest
        ]
