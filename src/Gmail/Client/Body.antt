-- ===== src/Gmail/Client/Body.antt =====
-- The body that internal/gmail/client.go takes out of a MIME message.
use openclaw_relay.Base.{
  ◌≡◌, ◌≢◌, ◌⊎◌, inl, inr, refl, sym, Option, none, some, List, [], arith, not, ◌&&◌, Bool-cases,
  Option-cases,
}
use openclaw_relay.Base.Str.{Str, ◌==◌, codes, eq_iff}
use openclaw_relay.Gmail.Client.{
  Wire, Part, part, Parts, end, more, content, first_plain, extract_body, nested_body,
}

module _ (w : Wire) where
  -- The text is the decoded data of the part, which is of the MIME type.
  abbrev pub IsContent : (mime : Str) → Part → (text : Str) → Type 0
  IsContent mime (part type headers bytes ps) text =
      (type ≡ mime)
      × ((encoded : Str) × (bytes ≡ some encoded) × (encoded ≢ []) × (text ≡ w.base64_url encoded))

  mutual
    -- The text is that of a plain or HTML part, the part given or one inside it.
    pub data Holds : Part → Str → Type 0 where
      plain : {p : Part} {text : Str} → IsContent (codes "text/plain") p text → Holds p text
      html : {p : Part} {text : Str} → IsContent (codes "text/html") p text → Holds p text
      inside :
          {type : Str} {headers : List (Str × Str)} {bytes : Option Str} {ps : Parts} {text : Str}
          → HoldsIn ps text
          → Holds (part type headers bytes ps) text

    pub data HoldsIn : Parts → Str → Type 0 where
      here : {p : Part} {ps : Parts} {text : Str} → Holds p text → HoldsIn (more p ps) text
      later : {p : Part} {ps : Parts} {text : Str} → HoldsIn ps text → HoldsIn (more p ps) text

  content-IsContent :
      (mime : Str) (p : Part) (text : Str) → content w mime p ≡ some text → IsContent mime p text
  unfolding content
  content-IsContent mime (part type headers none ps) text h = absurd (ground (arith, h))
  content-IsContent mime (part type headers (some encoded) ps) text h = (
    ground (arith, h, eq_iff type mime),
    (encoded, refl, λ e. ground (arith, h, (eq_iff encoded []).1 e), ground (arith, h)),
  )

  first_plain-HoldsIn : (ps : Parts) (text : Str) → first_plain w ps ≡ some text → HoldsIn ps text
  unfolding first_plain
  first_plain-HoldsIn end text h = absurd (ground (arith, h))
  first_plain-HoldsIn (more p ps) text h = elim (Option-cases (content w (codes "text/plain") p)) [
    | inl lacking ↦ later (first_plain-HoldsIn ps text (ground (arith, h, lacking)))
    | inr (body, got) ↦
        here (plain (content-IsContent (codes "text/plain") p text (ground (arith, h, got))))
  ]

  mutual
    unfolding extract_body nested_body

    body_sound : (p : Part) (text : Str) → extract_body w p ≡ text → text ≢ [] → Holds p text
    body_sound (part type headers bytes ps) text h ne =
        let p = part type headers bytes ps in
        elim (Option-cases (content w (codes "text/plain") p)) [
          | inr (body, got) ↦
              plain (content-IsContent (codes "text/plain") p text (ground (arith, h, got)))
          | inl no_plain ↦ elim (Option-cases (first_plain w ps)) [
            | inr (body, got) ↦
                inside (first_plain-HoldsIn ps text (ground (arith, h, no_plain, got)))
            | inl no_inner ↦ elim (Option-cases (content w (codes "text/html") p)) [
              | inr (body, got) ↦ html (
                  content-IsContent (codes "text/html") p text
                    (ground (arith, h, no_plain, no_inner, got)))
              | inl no_html ↦
                  inside (nested_sound ps text (ground (arith, h, no_plain, no_inner, no_html)) ne)
            ]
          ]
        ]

    nested_sound : (ps : Parts) (text : Str) → nested_body w ps ≡ text → text ≢ [] → HoldsIn ps text
    nested_sound end text h ne = absurd (ne (sym h))
    nested_sound (more p ps) text h ne = elim (Option-cases (content w (codes "text/html") p)) [
      | inr (body, got) ↦
          here (html (content-IsContent (codes "text/html") p text (ground (arith, h, got))))
      | inl no_html ↦ elim (Bool-cases (extract_body w p == [])) [
        | inl empty ↦ later (nested_sound ps text (ground (arith, h, no_html, empty)) ne)
        | inr full ↦ here (body_sound p text (ground (arith, h, no_html, full)) ne)
      ]
    ]

  -- A body that is not empty is the decoded text of a plain or HTML part of the message.
  pub extract_body-Holds : (p : Part) → extract_body w p ≢ [] → Holds p (extract_body w p)
  extract_body-Holds p ne = body_sound p (extract_body w p) refl ne

  module _ (law : (encoded : Str) → encoded ≢ [] → w.base64_url encoded ≢ []) where
    content-cases :
        (mime : Str) (p : Part)
        → ((content w mime p ≡ none) × ((text : Str) → ¬ IsContent mime p text))
          ⊎ ((body : Str) × (content w mime p ≡ some body) × (body ≢ []))
    unfolding content
    content-cases mime (part type headers none ps) =
        inl (refl, λ text (_, (encoded, e, _, _)). absurd (ground (arith, e)))
    content-cases mime (part type headers (some encoded) ps) =
        elim (Bool-cases (type == mime && not (encoded == []))) [
          | inl good ↦ inr (
            w.base64_url encoded,
            rw (good) refl,
            law encoded (λ e. ground (arith, good, (eq_iff encoded []).1 e)),
          )
          | inr bad ↦ inl (
            rw (bad) refl,
            λ text (same, (encoded', e, ne, _)).
                ne (ground (arith, bad, e, (eq_iff type mime).1 same, eq_iff encoded [])),
          )
        ]

    first_plain-cases :
        (ps : Parts)
        → (first_plain w ps ≡ none) ⊎ ((body : Str) × (first_plain w ps ≡ some body) × (body ≢ []))
    unfolding first_plain
    first_plain-cases end = inl refl
    first_plain-cases (more p ps) = elim (content-cases (codes "text/plain") p) [
      | inl (lacking, _) ↦ rw (first_plain, lacking) (first_plain-cases ps)
      | inr (body, got, ne) ↦ inr (body, rw (first_plain, got) refl, ne)
    ]

    no_plain :
        (p : Part) (text : Str) → extract_body w p ≡ [] → IsContent (codes "text/plain") p text → ⊥
    unfolding extract_body
    no_plain (part type headers bytes ps) text h c =
        elim (content-cases (codes "text/plain") (part type headers bytes ps)) [
          | inl (_, none_such) ↦ none_such text c
          | inr (body, got, ne) ↦ ne (ground (arith, h, got))
        ]

    nested_nil :
        (type : Str) (headers : List (Str × Str)) (bytes : Option Str) (ps : Parts)
        → extract_body w (part type headers bytes ps) ≡ []
        → (nested_body w ps ≡ [])
          × ((text : Str) → ¬ IsContent (codes "text/html") (part type headers bytes ps) text)
    unfolding extract_body
    nested_nil type headers bytes ps h =
        let p = part type headers bytes ps in
        elim (content-cases (codes "text/plain") p) [
          | inr (body, got, ne) ↦ absurd (ne (ground (arith, h, got)))
          | inl (plain_none, _) ↦ elim (first_plain-cases ps) [
            | inr (body, got, ne) ↦ absurd (ne (ground (arith, h, plain_none, got)))
            | inl inner_none ↦ elim (content-cases (codes "text/html") p) [
              | inr (body, got, ne) ↦ absurd (ne (ground (arith, h, plain_none, inner_none, got)))
              | inl (html_none, no_such) ↦
                  (ground (arith, h, plain_none, inner_none, html_none), no_such)
            ]
          ]
        ]

    no_html :
        (p : Part) (text : Str) → extract_body w p ≡ [] → IsContent (codes "text/html") p text → ⊥
    no_html (part type headers bytes ps) text h c = (nested_nil type headers bytes ps h).1 text c

    nested_more :
        (p : Part) (ps : Parts)
        → nested_body w (more p ps) ≡ []
        → (extract_body w p ≡ []) × (nested_body w ps ≡ [])
    unfolding nested_body
    nested_more p ps h = elim (content-cases (codes "text/html") p) [
      | inr (body, got, ne) ↦ absurd (ne (ground (arith, h, got)))
      | inl (html_none, _) ↦ elim (Bool-cases (extract_body w p == [])) [
        | inl empty ↦ ((eq_iff (extract_body w p) []).0 empty, ground (arith, h, html_none, empty))
        | inr full ↦ absurd (ground (arith, h, html_none, full, eq_iff (extract_body w p) []))
      ]
    ]

    mutual
      body_complete : (p : Part) (text : Str) → extract_body w p ≡ [] → Holds p text → ⊥
      body_complete p text h (plain c) = no_plain p text h c
      body_complete p text h (html c) = no_html p text h c
      body_complete _ text h (inside {type} {headers} {bytes} {ps} c) =
          nested_complete ps text (nested_nil type headers bytes ps h).0 c

      nested_complete : (ps : Parts) (text : Str) → nested_body w ps ≡ [] → HoldsIn ps text → ⊥
      nested_complete _ text h (here {p} {ps} c) = body_complete p text (nested_more p ps h).0 c
      nested_complete _ text h (later {p} {ps} c) = nested_complete ps text (nested_more p ps h).1 c

    -- If base64 decodes only the empty text to nothing, a message that has a plain or HTML part with data
    -- anywhere has a body that is not empty.
    pub extract_body-ne_nil : (p : Part) (text : Str) → Holds p text → extract_body w p ≢ []
    extract_body-ne_nil p text h e = body_complete p text e h
