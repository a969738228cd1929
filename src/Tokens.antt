-- ===== src/Tokens.antt =====
-- The token store of internal/tokens/store.go. AES-GCM, the JSON of the stored data and the file
-- system are arguments. The mutex makes each operation one step. A nil map counts as empty, since the
-- code makes the map before it writes to it, and a stored pointer is never nil.
pub mod Laws
mod Tests
use openclaw_relay.Base.{
  ℕ, Bool, true, false, not, Option, none, some, List, [], ◌∷◌, ◌++◌, ltb, nat_eq, if◌then◌else◌,
  length, take, drop,
}
use openclaw_relay.Base.Str.{Str, ◌==◌}
use openclaw_relay.Base.Map.{Map, lookup, insert, delete}
use openclaw_relay.Encoding.{hex_decode}

pub record GoogleToken : Type 0 where
  pub access_token : Str
  pub refresh_token : Str
  pub token_type : Str
  pub expiry : ℕ
  pub email : Str

-- `oauth2.Token`
pub record OauthToken : Type 0 where
  pub access_token : Str
  pub refresh_token : Str
  pub token_type : Str
  pub expiry : ℕ

pub record TokenData : Type 0 where
  pub google_by_email : Map GoogleToken
  pub google : Option GoogleToken

-- AES-GCM and `encoding/json`: whether a key makes a cipher, the size of a nonce, Seal and Open with
-- key and nonce, Marshal and Unmarshal of the data.
pub record Codec : Type 0 where
  pub valid_key : Str → Bool
  pub nonce_size : ℕ
  pub seal : Str → Str → Str → Str
  pub unseal : Str → Str → Str → Option Str
  pub marshal : TokenData → Str
  pub unmarshal : Str → Option TokenData

-- What a save reads of its surroundings: whether the directory can be made, the random nonce, if there
-- is one, and what a write leaves in the file, with whether it returns no error.
pub record Disk : Type 0 where
  pub made : Bool
  pub nonce : Option Str
  pub write : Str → Option Str → Option Str × Bool

-- The store with the content of its file, which is `none` if there is no file.
pub record Store : Type 0 where
  pub key : Str
  pub stored : TokenData
  pub file : Option Str

abbrev no_tokens : TokenData
no_tokens = record { google_by_email = []; google = none }

module _ (c : Codec) where
  unfoldable pub encrypt : Disk → Str → Str → Option Str
  encrypt d key plain =
      if not (c.valid_key key)
      then none
      else elim d.nonce [ none ↦ none | some nonce ↦ some (nonce ++ c.seal key nonce plain) ]

  unfoldable pub decrypt : Str → Str → Option Str
  decrypt key ciphertext =
      if not (c.valid_key key)
      then none
      else if ltb (length ciphertext) c.nonce_size
      then none
      else c.unseal key (take c.nonce_size ciphertext) (drop c.nonce_size ciphertext)

  -- The move of a legacy single account into the map.
  unfoldable pub migrate : TokenData → TokenData
  migrate t = elim t.google [
    | none ↦ t
    | some g ↦
        if not (g.email == [])
        then record { google_by_email = insert g.email g t.google_by_email; google = none }
        else t
  ]

  -- The bytes of the file as data; `none` is an error.
  unfoldable pub load : Str → Str → Option TokenData
  unfolding decrypt migrate
  load key bytes = elim (decrypt key bytes) [
    | none ↦ none
    | some plain ↦ elim (c.unmarshal plain) [ none ↦ none | some t ↦ some (migrate t) ]
  ]

  -- `NewStore`, with the content of the file; `none` is an error.
  unfoldable pub new_store : Option Str → Str → Option Store
  unfolding load hex_decode
  new_store file enc_key_hex = elim (hex_decode enc_key_hex) [
    | none ↦ none
    | some key ↦ if not (nat_eq (length key) 32) then none else elim file [
      | none ↦ some (record { key = key; stored = no_tokens; file = none })
      | some bytes ↦ elim (load key bytes) [
        | none ↦ none
        | some t ↦ some (record { key = key; stored = t; file = some bytes })
      ]
    ]
  ]

  -- `save`: the store with its file after it, and whether there was no error.
  unfoldable pub save : Disk → Store → Store × Bool
  unfolding encrypt
  save d s = if not d.made then (s, false) else elim (encrypt d s.key (c.marshal s.stored)) [
    | none ↦ (s, false)
    | some bytes ↦ (record s { file = (d.write bytes s.file).0 }, (d.write bytes s.file).1)
  ]

  unfoldable pub with_google : OauthToken → Str → TokenData → TokenData
  with_google token email t = record {
    google_by_email =
        insert email
          (record {
            access_token = token.access_token;
            refresh_token = token.refresh_token;
            token_type = token.token_type;
            expiry = token.expiry;
            email = email;
          })
          t.google_by_email;
    google = none;
  }

  unfoldable pub save_google : Disk → OauthToken → Str → Store → Store × Bool
  unfolding save with_google
  save_google d token email s = save d (record s { stored = with_google token email s.stored })

  -- The account given, or else the first that `range` visits.
  unfoldable pub account_or_first : Map GoogleToken → Str → Str
  account_or_first [] account = account
  account_or_first ((k, _) ∷ order) account = if account == [] then k else account

  unfoldable pub refreshed : OauthToken → GoogleToken → GoogleToken
  refreshed token g = record g {
    access_token = token.access_token;
    expiry = token.expiry;
    refresh_token =
        if not (token.refresh_token == []) then token.refresh_token else g.refresh_token;
  }

  -- The rest of `UpdateGoogleAccessToken` for the account chosen; the error is `false`.
  unfoldable pub update_account : Disk → OauthToken → Str → Store → Store × Bool
  unfolding save refreshed
  update_account d token account s = elim (lookup account s.stored.google_by_email) [
    | none ↦ (s, false)
    | some g ↦ save d (record s {
      stored = record s.stored {
        google_by_email = insert account (refreshed token g) s.stored.google_by_email;
      };
    })
  ]

  -- `UpdateGoogleAccessToken`, where `order` is the order of its `range`
  unfoldable pub update_google_access_token :
      Disk → Map GoogleToken → OauthToken → Str → Store → Store × Bool
  unfolding update_account account_or_first
  update_google_access_token d order token email s =
      update_account d token (account_or_first order email) s

  unfoldable pub clear_google : Disk → Str → Store → Store × Bool
  unfolding save
  clear_google d account s =
      if account == []
      then save d (record s { stored = no_tokens })
      else save d (record s {
        stored = record s.stored { google_by_email = delete account s.stored.google_by_email };
      })

-- `GetGoogle`, where `order` is the order of its `range`
unfoldable pub get_google : Map GoogleToken → Str → Store → Option GoogleToken
get_google [] email s = if email == [] then none else lookup email s.stored.google_by_email
get_google ((_, g) ∷ order) email s =
    if email == [] then some g else lookup email s.stored.google_by_email

unfoldable pub get_google_oauth2_token : Map GoogleToken → Str → Store → Option OauthToken
unfolding get_google
get_google_oauth2_token order email s = elim (get_google order email s) [
  | none ↦ none
  | some g ↦ some (record {
    access_token = g.access_token;
    refresh_token = g.refresh_token;
    token_type = g.token_type;
    expiry = g.expiry;
  })
]

-- `ListGoogle`: a copy of the map
unfoldable pub list_google : Store → Map GoogleToken
list_google s = s.stored.google_by_email
