-- ===== src/Gmail/Handler/Limits.antt =====
-- The number of messages that internal/gmail/handler.go asks Gmail for.
use openclaw_relay.Base.{
  ℕ, suc, ◌+◌, ◌-◌, ◌*◌, ◌^◌, ◌<◌, ◌≡◌, inl, inr, refl, ap, ◌∙◌, true, false, none, some, Option,
  [], ◌∷◌, ◌&&◌, arith, tests, ltb, nat_eq, if◌then◌else◌, Bool-cases, Option-cases,
}
use openclaw_relay.Base.Str.{Str, ◌==◌, codes, eq_iff}
use openclaw_relay.Base.Decimal.{value-digits, digits-AreDigits, format, AreDigits, value}
use openclaw_relay.Http.{Request, query_param}
use openclaw_relay.Gmail.{OrError}
use openclaw_relay.Gmail.Handler.{
  Reply, messages, answer, or_twenty, GmailClient, Handler, ClientCall, list_call,
  handle_list_messages, guard, resolve_client, parse_digits, parse_unsigned, parse_positive,
}

parse_digits-value : (s : Str) (n : ℕ) → AreDigits s → parse_digits n s ≡ some (value n s)
unfolding parse_digits value
parse_digits-value [] n h = refl
parse_digits-value (c ∷ s) n h = ground (arith, h.0, parse_digits-value s (n * 10 + (c - b'0')) h.1)

parse_positive-value :
    (s : Str) (n : ℕ) → AreDigits s → value 0 s ≡ n → 0 < n → n < 2 ^ 63 → parse_positive s ≡ some n
unfolding parse_positive parse_unsigned
parse_positive-value [] n h e low high = absurd (unfold value in ground (arith, e, low))
parse_positive-value (c ∷ s) n h e low high =
    let parsed : parse_digits 0 (c ∷ s) ≡ some n = parse_digits-value (c ∷ s) 0 h ∙ ap some e in
    let unsigned : nat_eq c b'+' ≡ false = ground (arith, h.0) in
    let above : ltb 0 n ≡ true = omega (tests, low) in
    let below : ltb n (2 ^ 63) ≡ true = omega (tests, high) in
    simp (unsigned, parse_unsigned, parsed, above, below)

-- A number in decimal is read back.
parse_positive-format : (n : ℕ) → 0 < n → n < 2 ^ 63 → parse_positive (format n) ≡ some n
unfolding format
parse_positive-format n low high =
    parse_positive-value (format n) n (digits-AreDigits (suc n) n)
      (value-digits (suc n) n (omega arith)) low high

within :
    (limit m n : ℕ)
    → (if ltb 0 m && ltb m limit then some m else none) ≡ some n
    → (0 < n) × (n < limit)
within limit m n e = ground (arith, e)

parse_unsigned_bounds : (s : Str) (n : ℕ) → parse_unsigned s ≡ some n → (0 < n) × (n < 2 ^ 63)
unfolding parse_unsigned
parse_unsigned_bounds [] n e = absurd (ground (arith, e))
parse_unsigned_bounds (c ∷ s) n e = elim (Option-cases (parse_digits 0 (c ∷ s))) [
  | inl bad ↦ absurd (ground (arith, e, bad))
  | inr (m, read) ↦ within (2 ^ 63) m n (rw (read, parse_unsigned) at e)
]

parse_positive_bounds : (s : Str) (n : ℕ) → parse_positive s ≡ some n → (0 < n) × (n < 2 ^ 63)
unfolding parse_positive
parse_positive_bounds [] n e = absurd (ground (arith, e))
parse_positive_bounds (c ∷ s) n e = elim (Bool-cases (nat_eq c b'+')) [
  | inl plus ↦ parse_unsigned_bounds s n (rw (plus) at e)
  | inr other ↦ parse_unsigned_bounds (c ∷ s) n (rw (other) at e)
]

limit_bounds :
    (read : Option ℕ)
    → ((n : ℕ) → read ≡ some n → (0 < n) × (n < 2 ^ 63))
    → (0 < or_twenty read) × (or_twenty read < 2 ^ 63)
limit_bounds none h = (omega arith, omega arith)
limit_bounds (some n) h = h n refl

call-answer :
    {A : Type 0} (made : Str × ClientCall) (show : A → Reply) (result : OrError A)
    → (answer made show result).call ≡ some made
call-answer made show (inl err) = refl
call-answer made show (inr a) = refl

module _ (h : Handler) (r : Request) (client : GmailClient) where
  -- the call that the handler makes behind its guard
  call-handle_list_messages :
      r.method ≡ codes "GET"
      → resolve_client h r ≡ some client
      → (handle_list_messages h r).call
        ≡ some (
          client.email,
          list_call
              (if query_param r (codes "q") == []
                then codes "is:unread"
                else query_param r (codes "q"))
              (or_twenty (parse_positive (query_param r (codes "max")))),
        )
  unfolding handle_list_messages guard
  call-handle_list_messages get there =
      let is_get = (eq_iff r.method (codes "GET")).1 get in
      rw (is_get, there) (call-answer _ messages _)

  -- A request for the list of messages asks the client for at least one message and fewer than 2^63, for
  -- 20 if `max` is missing; if `max` is such a number in decimal, it asks for so many.
  pub handle_list_messages-max :
      r.method ≡ codes "GET"
      → resolve_client h r ≡ some client
      → (query : Str) × (max : ℕ) × ((handle_list_messages h r).call
          ≡ some (client.email, list_call query max))
        × (0 < max)
        × (max < 2 ^ 63)
        × (query_param r (codes "max") ≡ [] → max ≡ 20)
        × ((n : ℕ) → 0 < n → n < 2 ^ 63 → query_param r (codes "max") ≡ format n → max ≡ n)
  handle_list_messages-max get there =
      let bounds = limit_bounds (parse_positive asked) (parse_positive_bounds asked) in
      (
        _,
        or_twenty (parse_positive asked),
        call-handle_list_messages get there,
        bounds.0,
        bounds.1,
        λ empty. ap (λ s. or_twenty (parse_positive s)) empty ∙ (unfold parse_positive in refl),
        λ n low high same.
            ap (λ s. or_twenty (parse_positive s)) same
            ∙ ap or_twenty (parse_positive-format n low high),
      )
    where
      asked : Str
      asked = query_param r (codes "max")
