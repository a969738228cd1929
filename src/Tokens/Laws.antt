-- ===== src/Tokens/Laws.antt =====
-- What the token store of internal/tokens/store.go keeps, in memory and over a restart.
use openclaw_relay.Base.{
  ◌≡◌, ◌≢◌, refl, sym, ap, ◌∙◌, true, false, Option, none, some, [], ◌∷◌, ◌++◌, arith, length,
  length-append, take, drop, if◌then◌else◌, nat_eq, ltb, Bool-cases, Option-cases, inl, inr,
}
use openclaw_relay.Base.Str.{Str, ◌==◌, eq_of_ne}
use openclaw_relay.Base.Map.{
  Map, lookup, insert, delete, lookup-insert, lookup-delete, HasUniqueKeys,
}
use openclaw_relay.Base.Index.{take-length-append}
use openclaw_relay.Encoding.{hex_decode}
use openclaw_relay.Tokens.{
  GoogleToken, OauthToken, TokenData, Codec, Disk, Store, encrypt, decrypt, migrate, load,
  new_store, save, with_google, save_google, account_or_first, refreshed, update_account,
  update_google_access_token, clear_google, get_google,
}

-- What the store relies on: AES-GCM opens what it sealed, a nonce has the size asked for, JSON reads
-- the data back, and a write without an error leaves what was written.
pub record IsSound (c : Codec) (d : Disk) (t : TokenData) : Type 0 where
  pub unsealed :
      (key nonce plain : Str)
      → length nonce ≡ c.nonce_size
      → c.unseal key nonce (c.seal key nonce plain) ≡ some plain
  pub nonce_length : (nonce : Str) → d.nonce ≡ some nonce → length nonce ≡ c.nonce_size
  pub read_back : c.unmarshal (c.marshal t) ≡ some t
  pub written :
      (bytes : Str) (file : Option Str)
      → (d.write bytes file).1 ≡ true
      → (d.write bytes file).0 ≡ some bytes

drop-length-append : (s t : Str) → drop (length s) (s ++ t) ≡ t
drop-length-append [] t = refl
drop-length-append (x ∷ s) t = drop-length-append s t

module _ (c : Codec) (d : Disk) where
  encrypt_form :
      (key plain bytes : Str)
      → encrypt c d key plain ≡ some bytes
      → (nonce : Str) × (d.nonce ≡ some nonce)
        × (c.valid_key key ≡ true)
        × (nonce ++ c.seal key nonce plain ≡ bytes)
  unfolding encrypt
  encrypt_form key plain bytes e = elim (Bool-cases (c.valid_key key)) [
    | inr bad ↦ absurd (ground (arith, e, bad))
    | inl valid ↦ elim (Option-cases d.nonce) [
      | inl lacking ↦ absurd (ground (arith, e, valid, lacking))
      | inr (nonce, got) ↦ (nonce, got, valid, ground (arith, e, valid, got))
    ]
  ]

  decrypt-append :
      (key nonce sealed : Str)
      → c.valid_key key ≡ true
      → length nonce ≡ c.nonce_size
      → decrypt c key (nonce ++ sealed) ≡ c.unseal key nonce sealed
  unfolding decrypt
  decrypt-append key nonce sealed valid len =
      let short : ltb (length (nonce ++ sealed)) c.nonce_size ≡ false =
        ground (arith, len, length-append nonce sealed) in
      let front : take c.nonce_size (nonce ++ sealed) ≡ nonce =
        ap (λ n. take n (nonce ++ sealed)) (sym len) ∙ take-length-append nonce sealed in
      let back : drop c.nonce_size (nonce ++ sealed) ≡ sealed =
        ap (λ n. drop n (nonce ++ sealed)) (sym len) ∙ drop-length-append nonce sealed in
      simp (decrypt, valid, short, front, back)

  decrypt-encrypt :
      (t : TokenData) (key bytes : Str)
      → IsSound c d t
      → encrypt c d key (c.marshal t) ≡ some bytes
      → decrypt c key bytes ≡ some (c.marshal t)
  decrypt-encrypt t key bytes h e =
      let (nonce, got, valid, form) = encrypt_form key (c.marshal t) bytes e in
      let len = h.nonce_length nonce got in
      ap (decrypt c key) (sym form)
      ∙ decrypt-append key nonce (c.seal key nonce (c.marshal t)) valid len
      ∙ h.unsealed key nonce (c.marshal t) len

  save_ok :
      (s : Store)
      → (save c d s).1 ≡ true
      → (bytes : Str) × (encrypt c d s.key (c.marshal s.stored) ≡ some bytes)
        × ((d.write bytes s.file).1 ≡ true)
        × ((save c d s).0 ≡ record s { file = (d.write bytes s.file).0 })
  unfolding save
  save_ok s h = elim (Bool-cases d.made) [
    | inr bad ↦ absurd (ground (arith, h, bad))
    | inl made ↦ elim (Option-cases (encrypt c d s.key (c.marshal s.stored))) [
      | inl failed ↦ absurd (ground (arith, h, made, failed))
      | inr (bytes, e) ↦ (bytes, e, ground (arith, h, made, e), simp (save, made, e))
    ]
  ]

  migrate_current : (t : TokenData) → t.google ≡ none → migrate c t ≡ t
  unfolding migrate
  migrate_current t h = simp (migrate, h)

  load_plain :
      (t : TokenData) (key bytes plain : Str)
      → decrypt c key bytes ≡ some plain
      → c.unmarshal plain ≡ some t
      → load c key bytes ≡ some (migrate c t)
  unfolding load
  load_plain t key bytes plain h e = simp (load, h, e)

  new_store_file :
      (t : TokenData) (key bytes enc_key_hex : Str)
      → hex_decode enc_key_hex ≡ some key
      → length key ≡ 32
      → load c key bytes ≡ some t
      → new_store c (some bytes) enc_key_hex
        ≡ some (record { key = key; stored = t; file = some bytes })
  unfolding new_store
  new_store_file t key bytes enc_key_hex h size e =
      let sized : nat_eq (length key) 32 ≡ true = ground (arith, size) in
      simp (new_store, h, sized, e)

  -- A store that is saved without an error and made anew from its file, with the same key, is the same
  -- store, if it holds no legacy account. AES-GCM, JSON and the file system are taken to keep their
  -- promises.
  pub new_store-save :
      (s : Store) (enc_key_hex : Str)
      → IsSound c d s.stored
      → hex_decode enc_key_hex ≡ some s.key
      → length s.key ≡ 32
      → s.stored.google ≡ none
      → (save c d s).1 ≡ true
      → new_store c (save c d s).0.file enc_key_hex ≡ some (save c d s).0
  new_store-save s enc_key_hex h key size current ok =
      let (bytes, e, wrote, after) = save_ok s ok in
      let written = h.written bytes s.file wrote in
      let plain = decrypt-encrypt s.stored s.key bytes h e in
      let loaded : load c s.key bytes ≡ some s.stored =
        load_plain s.stored s.key bytes (c.marshal s.stored) plain h.read_back
        ∙ ap some (migrate_current s.stored current) in
      ap (λ f. new_store c f enc_key_hex) (ap (λ st. st.file) after ∙ written)
      ∙ new_store_file s.stored s.key bytes enc_key_hex key size loaded
      ∙ ap some (sym (after ∙ ap (λ f. record s { file = f }) written))

  pub stored-save : (s : Store) → (save c d s).0.stored ≡ s.stored
  unfolding save
  stored-save s = elim (Bool-cases d.made) [
    | inr bad ↦ simp (save, bad)
    | inl made ↦ elim (Option-cases (encrypt c d s.key (c.marshal s.stored))) [
      | inl failed ↦ simp (save, made, failed)
      | inr (bytes, e) ↦ simp (save, made, e)
    ]
  ]

  get_google_named :
      (order : Map GoogleToken) (email : Str) (s : Store)
      → email ≢ []
      → get_google order email s ≡ lookup email s.stored.google_by_email
  unfolding get_google
  get_google_named [] email s h = ground (arith, eq_of_ne email [] h)
  get_google_named (entry ∷ order) email s h = ground (arith, eq_of_ne email [] h)

  -- After `SaveGoogle` the store gives, for an account named by an email that is not empty, the new token
  -- if it is the one saved, and what it gave before else, whether the file could be written or not.
  pub get_google-save_google :
      (order : Map GoogleToken) (token : OauthToken) (email other : Str) (s : Store)
      → other ≢ []
      → get_google order other (save_google c d token email s).0 ≡ (
          if email == other
          then some (record {
            access_token = token.access_token;
            refresh_token = token.refresh_token;
            token_type = token.token_type;
            expiry = token.expiry;
            email = email;
          })
          else get_google order other s)
  unfolding save_google with_google
  get_google-save_google order token email other s h =
      rw
        (
          get_google_named order other (save_google c d token email s).0 h,
          get_google_named order other s h,
          stored-save (record s { stored = with_google c token email s.stored }),
        )
        (lookup-insert email other _ s.stored.google_by_email)

  abbrev without : Str → Store → Store
  without email s = record s {
    stored = record s.stored { google_by_email = delete email s.stored.google_by_email };
  }

  clear_google_named :
      (email : Str) (s : Store) → email ≢ [] → clear_google c d email s ≡ save c d (without email s)
  unfolding clear_google
  clear_google_named email s h = simp (clear_google, eq_of_ne email [] h)

  abbrev updated : OauthToken → Str → GoogleToken → Store → Store
  updated token email g s = record s {
    stored = record s.stored {
      google_by_email = insert email (refreshed c token g) s.stored.google_by_email;
    };
  }

  account_named :
      (order : Map GoogleToken) (email : Str) → email ≢ [] → account_or_first c order email ≡ email
  unfolding account_or_first
  account_named [] email h = refl
  account_named ((k, g) ∷ order) email h = ground (arith, eq_of_ne email [] h)

  pub update_account_found :
      (token : OauthToken) (email : Str) (s : Store) (g : GoogleToken)
      → lookup email s.stored.google_by_email ≡ some g
      → update_account c d token email s ≡ save c d (updated token email g s)
  unfolding update_account
  update_account_found token email s g found = simp (update_account, found)

  update_named :
      (order : Map GoogleToken) (token : OauthToken) (email : Str) (s : Store) (g : GoogleToken)
      → email ≢ []
      → lookup email s.stored.google_by_email ≡ some g
      → update_google_access_token c d order token email s ≡ save c d (updated token email g s)
  unfolding update_google_access_token
  update_named order token email s g h found =
      ap (λ a. update_account c d token a s) (account_named order email h)
      ∙ update_account_found token email s g found

  -- After `ClearGoogle` for an account the store gives no token for it, and for each other account what
  -- it gave before.
  pub get_google-clear_google :
      (order : Map GoogleToken) (email other : Str) (s : Store)
      → HasUniqueKeys s.stored.google_by_email
      → email ≢ []
      → other ≢ []
      → get_google order other (clear_google c d email s).0
        ≡ (if email == other then none else get_google order other s)
  get_google-clear_google order email other s u h h' =
      rw
        (
          get_google_named order other (clear_google c d email s).0 h',
          get_google_named order other s h',
          ap (λ r. r.0.stored.google_by_email) (clear_google_named email s h),
          ap (λ t. t.google_by_email) (stored-save (without email s)),
        )
        (lookup-delete email other s.stored.google_by_email u)

  -- If the store has a token for an account named by an email that is not empty, after
  -- `UpdateGoogleAccessToken` for it the store gives that token with the
  -- new access token and expiry, and the new refresh token if there is one; for each other account it
  -- gives what it gave before.
  pub get_google-update_google_access_token :
      (order order' : Map GoogleToken) (token : OauthToken) (email other : Str) (s : Store)
      (g : GoogleToken)
      → email ≢ []
      → other ≢ []
      → get_google order email s ≡ some g
      → get_google order other (update_google_access_token c d order' token email s).0
        ≡ (if email == other then some (refreshed c token g) else get_google order other s)
  get_google-update_google_access_token order order' token email other s g h h' found =
      let here = sym (get_google_named order email s h) ∙ found in
      rw
        (
          get_google_named order other (update_google_access_token c d order' token email s).0 h',
          get_google_named order other s h',
          ap (λ r. r.0.stored.google_by_email) (update_named order' token email s g h here),
          ap (λ t. t.google_by_email) (stored-save (updated token email g s)),
        )
        (lookup-insert email other (refreshed c token g) s.stored.google_by_email)
