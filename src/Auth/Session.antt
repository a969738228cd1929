-- ===== src/Auth/Session.antt =====
-- The session cookie of internal/auth/session.go.
use mathlib.Core.Path.{subst}
use openclaw_relay.Base.{
  ℕ, ◌≡◌, ◌≢◌, ◌↔◌, inl, inr, refl, sym, ap, ◌∙◌, Option, none, some, [], ◌∷◌, ◌++◌, arith,
  if◌then◌else◌, not, Bool-cases, Option-cases,
}
use openclaw_relay.Base.Str.{Str, ◌==◌, codes, Lacks, eq_iff}
use openclaw_relay.Base.Map.{lookup}
use openclaw_relay.Encoding.{hex_encode, hex_decode, hex_value, hex_byte}
use openclaw_relay.Encoding.RoundTrip.{IsBytes, hex_decode-hex_encode}
use openclaw_relay.Http.{Request}
use openclaw_relay.Auth.{
  compute_hmac, session_value, split_dot, signed_email, email_of_value, get_session_email,
}

hex_value-Lacks : (x : ℕ) (v : ℕ) → hex_value x ≡ some v → x ≢ b'.'
hex_value-Lacks x v h e = ground (arith, h, e)

hex_byte_parts :
    (hi lo : Option ℕ) (rest : Option Str) (email : Str)
    → hex_byte hi lo rest ≡ some email
    → ((h : ℕ) × (hi ≡ some h)) × (((l : ℕ) × (lo ≡ some l)) × ((r : Str) × (rest ≡ some r)))
hex_byte_parts (some h) (some l) (some r) email e = ((h, refl), ((l, refl), (r, refl)))
hex_byte_parts none lo rest email e = absurd (ground (arith, e))
hex_byte_parts (some h) none rest email e = absurd (ground (arith, e))
hex_byte_parts (some h) (some l) none email e = absurd (ground (arith, e))

-- what decodes as hex has no dot
hex_decode-Lacks : (payload email : Str) → hex_decode payload ≡ some email → Lacks b'.' payload
unfolding hex_decode
hex_decode-Lacks [] email h = tt
hex_decode-Lacks (x ∷ []) email h = absurd (ground (arith, h))
hex_decode-Lacks (x ∷ y ∷ s) email h =
    let ((hi, high), ((lo, low), (r, rest))) =
      hex_byte_parts (hex_value x) (hex_value y) (hex_decode s) email h in
    (hex_value-Lacks x hi high, (hex_value-Lacks y lo low, hex_decode-Lacks s r rest))

module _ (hmac : Str → Str → Str) where
  split_dot-append :
      (payload signature : Str)
      → Lacks b'.' payload
      → split_dot hmac (payload ++ b'.' ∷ signature) ≡ some (payload, signature)
  unfolding split_dot
  split_dot-append [] signature h = ground arith
  split_dot-append (x ∷ payload) signature h =
      ground (arith, h.0, split_dot-append payload signature h.1)

  split_dot_form :
      (value payload signature : Str)
      → split_dot hmac value ≡ some (payload, signature)
      → value ≡ payload ++ b'.' ∷ signature
  unfolding split_dot
  split_dot_form [] payload signature h = absurd (ground (arith, h))
  split_dot_form (x ∷ value) payload signature h = elim (Option-cases (split_dot hmac value)) [
    | inl lacking ↦ ground (arith, h, lacking)
    | inr ((front, back), cut) ↦ ground (arith, h, cut, split_dot_form value front back cut)
  ]

  checked_iff :
      (key signature found email : Str)
      → email ≢ []
      → ((if not (signature == compute_hmac hmac found key) then [] else found) ≡ email)
        ↔ ((found ≡ email) × (signature ≡ compute_hmac hmac email key))
  checked_iff key signature found email ne =
      let expected = compute_hmac hmac found key in
      elim (Bool-cases (signature == expected)) [
        | inl good ↦
            let sign = (eq_iff signature expected).0 good in
            rw (good) (λ h. (h, sign ∙ ap (λ e. compute_hmac hmac e key) h), λ (h, _). h)
        | inr bad ↦ rw (bad) (
          λ h. absurd (ne (sym h)),
          λ (h, sign). absurd (
              ground (
                arith,
                bad,
                (eq_iff signature expected).1 (sign ∙ ap (λ e. compute_hmac hmac e key) (sym h)),
              )),
        )
      ]

  signed_email_iff :
      (key payload signature email : Str)
      → email ≢ []
      → (signed_email hmac key payload signature ≡ email)
        ↔ ((hex_decode payload ≡ some email) × (signature ≡ compute_hmac hmac email key))
  unfolding signed_email
  signed_email_iff key payload signature email ne = elim (Option-cases (hex_decode payload)) [
    | inl bad ↦
        simp (signed_email, bad) (λ h. absurd (ne (sym h)), λ (e, _). absurd (ground (arith, e)))
    | inr (found, got) ↦
        simp (signed_email, got)
          (
            λ h.
                let (same, sign) = (checked_iff key signature found email ne).0 h in
                (ap some same, sign),
            λ (e, sign). (checked_iff key signature found email ne).1 (ground (arith, e), sign),
          )
  ]

  -- The value of the cookie names the email: a payload that decodes to it, a dot, and the signature of
  -- the email under the key.
  abbrev pub Names : (key value email : Str) → Type 0
  Names key value email =
      (payload : Str) × (value ≡ payload ++ b'.' ∷ compute_hmac hmac email key)
      × (hex_decode payload ≡ some email)

  pub email_of_value_iff :
      (key value email : Str)
      → email ≢ []
      → (email_of_value hmac key value ≡ email) ↔ Names key value email
  unfolding email_of_value
  email_of_value_iff key value email ne = (
    λ h. elim (Option-cases (split_dot hmac value)) [
      | inl lacking ↦ absurd (ne (sym (simp (email_of_value, lacking) at h)))
      | inr ((payload, signature), cut) ↦
          let (decoded, sign) =
            (signed_email_iff key payload signature email ne).0 (simp (email_of_value, cut) at h) in
          (
            payload,
            split_dot_form value payload signature cut ∙ ap (λ u. payload ++ b'.' ∷ u) sign,
            decoded,
          )
    ],
    λ (payload, form, decoded).
        let cut =
          ap (split_dot hmac) form
          ∙ split_dot-append payload (compute_hmac hmac email key)
              (hex_decode-Lacks payload email decoded) in
        simp (email_of_value, cut)
          ((signed_email_iff key payload (compute_hmac hmac email key) email ne).1 (decoded, refl)),
  )

  -- The request carries a session cookie that names the email.
  abbrev pub HasSession : (key : Str) → Request → (email : Str) → Type 0
  HasSession key r email =
      (value : Str) × (lookup (codes "relay_session") r.cookies ≡ some value)
      × Names key value email

  pub get_session_email_iff :
      (r : Request) (key email : Str)
      → email ≢ []
      → (get_session_email hmac r key ≡ email) ↔ HasSession key r email
  unfolding get_session_email
  get_session_email_iff r key email ne =
      elim (Option-cases (lookup (codes "relay_session") r.cookies)) [
        | inl lacking ↦
            simp (get_session_email, lacking)
              (λ h. absurd (ne (sym h)), λ (value, e, _). absurd (ground (arith, e)))
        | inr (found, got) ↦
            simp (get_session_email, got)
              (
                λ h. (found, refl, (email_of_value_iff key found email ne).0 h),
                λ (value, e, names).
                    (email_of_value_iff key found email ne).1
                      (subst (λ v. Names key v email) (ground (arith, e)) names),
              )
      ]

  pub session_value-Names :
      (key email : Str) → IsBytes email → Names key (session_value hmac email key) email
  unfolding session_value
  session_value-Names key email h = (hex_encode email, refl, hex_decode-hex_encode email h)
