-- ===== src/Tokens/Tests.antt =====
-- The theorems about the token store at concrete inputs.
use openclaw_relay.Base.{◌≡◌, ◌≢◌, refl, true, none, some, [], ◌∷◌, arith, length}
use openclaw_relay.Base.Str.{Str, ◌==◌, codes, ne_of_test}
use openclaw_relay.Base.Map.{lookup, HasUniqueKeys}
use openclaw_relay.Encoding.{hex_encode, hex_decode}
use openclaw_relay.Tokens.{
  GoogleToken, OauthToken, TokenData, Codec, Disk, Store, new_store, save, encrypt, get_google,
}
use openclaw_relay.Tokens.Laws.{IsSound, new_store-save}

abbrev old : GoogleToken
old = record {
  access_token = codes "a0";
  refresh_token = codes "r0";
  token_type = codes "Bearer";
  expiry = 5;
  email = codes "me@x.org";
}

abbrev token : OauthToken
token = record {
  access_token = codes "a1";
  refresh_token = [];
  token_type = codes "Bearer";
  expiry = 9;
}

abbrev tokens : TokenData
tokens = record { google_by_email = (codes "me@x.org", old) ∷ []; google = none }

-- a cipher that prints in clear, with nonces of one byte, and JSON that knows one text
abbrev codec : Codec
codec = record {
  valid_key = λ key. true;
  nonce_size = 1;
  seal = λ key nonce plain. plain;
  unseal = λ key nonce sealed. some sealed;
  marshal = λ t. codes "tokens";
  unmarshal = λ s. some tokens;
}

abbrev disk : Disk
disk = record { made = true; nonce = some (7 ∷ []); write = λ bytes file. (some bytes, true) }

abbrev key : Str
key = codes "0123456789abcdef0123456789abcdef"

abbrev store : Store
store = record { key = key; stored = tokens; file = none }

sound : IsSound codec disk tokens
sound = record {
  unsealed = λ key nonce plain len. refl;
  nonce_length = λ nonce e. ground (arith, e);
  read_back = refl;
  written = λ bytes file ok. refl;
}

decoded : hex_decode (hex_encode key) ≡ some key
unfolding hex_decode hex_encode codes
decoded = refl

key_length : length key ≡ 32
unfolding codes
key_length = refl

saved : (save codec disk store).1 ≡ true
unfolding save encrypt
saved = refl

new_store-save_example :
    new_store codec (save codec disk store).0.file (hex_encode key) ≡ some (save codec disk store).0
new_store-save_example =
    new_store-save codec disk store (hex_encode key) sound decoded key_length refl saved

me_ne : codes "me@x.org" ≢ []
me_ne = ne_of_test (codes "me@x.org") [] (unfold codes ◌==◌ in refl)

you_ne : codes "you@x.org" ≢ []
you_ne = ne_of_test (codes "you@x.org") [] (unfold codes ◌==◌ in refl)

unique : HasUniqueKeys store.stored.google_by_email
unfolding lookup
unique = (refl, tt)

found : get_google [] (codes "me@x.org") store ≡ some old
unfolding get_google lookup codes ◌==◌
found = refl
