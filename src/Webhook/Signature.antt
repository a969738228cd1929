-- ===== src/Webhook/Signature.antt =====
-- The signature checks of the two webhooks.
use openclaw_relay.Base.{◌≡◌, ◌↔◌, ◌⊎◌, Bool, true, false, not, [], ◌++◌, arith, if◌then◌else◌}
use openclaw_relay.Base.Str.{prefixed_iff, Str, ◌==◌, codes, has_prefix, trim_prefix, eq_iff}
use openclaw_relay.Encoding.{hex_encode, base64_encode}
use openclaw_relay.Webhook.{Platform}

module _ (p : Platform) where
  -- `VerifyGitHubSignature`
  unfoldable pub verify_github_signature : Str → Str → Str → Bool
  verify_github_signature body signature secret =
      if secret == []
      then true
      else if not (has_prefix signature (codes "sha256="))
      then false
      else trim_prefix signature (codes "sha256=") == hex_encode (p.hmac_sha256 secret body)

  -- `VerifyTrelloSignature`
  unfoldable pub verify_trello_signature : Str → Str → Str → Str → Bool
  verify_trello_signature body signature secret callback_url =
      if secret == []
      then true
      else let expected = base64_encode (p.hmac_sha1 secret (body ++ callback_url)) in
        if not (signature == expected) then false else true

  -- A GitHub signature is accepted exactly if no secret is set or the signature is "sha256=" and the
  -- hex of the HMAC of the body.
  pub verify_github_signature-eq-true_iff :
      (body signature secret : Str)
      → (verify_github_signature body signature secret ≡ true)
        ↔ ((secret ≡ []) ⊎ (signature ≡ codes "sha256=" ++ hex_encode (p.hmac_sha256 secret body)))
  unfolding verify_github_signature
  verify_github_signature-eq-true_iff body signature secret =
      let tagged =
        prefixed_iff signature (codes "sha256=") (hex_encode (p.hmac_sha256 secret body)) in
      ground (arith, eq_iff secret [], tagged)

  -- A Trello signature is accepted exactly if no secret is set or the signature is the base64 of the
  -- HMAC of the body and the callback URL.
  pub verify_trello_signature-eq-true_iff :
      (body signature secret callback_url : Str)
      → (verify_trello_signature body signature secret callback_url ≡ true)
        ↔ ((secret ≡ []) ⊎ (signature ≡ base64_encode (p.hmac_sha1 secret (body ++ callback_url))))
  unfolding verify_trello_signature
  verify_trello_signature-eq-true_iff body signature secret callback_url = ground (
    arith,
    eq_iff secret [],
    eq_iff signature (base64_encode (p.hmac_sha1 secret (body ++ callback_url))),
  )
