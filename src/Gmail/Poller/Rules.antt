-- ===== src/Gmail/Poller/Rules.antt =====
-- The rules of internal/gmail/poller.go: which messages a rule is for, and the names of the jobs and of
-- the state file.
use openclaw_relay.Base.{
  ltb, All-append, ℕ, zero, suc, ◌-◌, ◌≡◌, ◌≢◌, ◌⊎◌, ◌↔◌, inl, inr, refl, sym, ap, ◌∙◌, Bool, true,
  List, [], ◌∷◌, ◌++◌, arith, if◌then◌else◌, length, length-append, take, drop, any, all, All,
  Bool-cases, nat_eq,
}
use openclaw_relay.Base.Str.{
  Str, ◌==◌, eq_iff, eq_refl, codes, contains, has_prefix, has_prefix-append,
  cut_prefix_of_has_prefix, Lacks,
}
use openclaw_relay.Config.{GmailMatch}
use openclaw_relay.Gmail.{HistoryMessage, Mail}
use openclaw_relay.Gmail.Poller.{has_suffix, pattern_matches, match_rule, state_file, replace_byte}

-- some element of the list has the property
abbrev pub Any {ℓ} : {A : Type ℓ} → (A → Type 0) → List A → Type 0
Any P [] = ⊥
Any P (x ∷ xs) = P x ⊎ Any P xs

-- the string stands somewhere in the text
abbrev pub StandsIn : Str → Str → Type 0
StandsIn p s = (before : Str) × (after : Str) × (s ≡ before ++ (p ++ after))

has_prefix_iff : (s p : Str) → (has_prefix s p ≡ true) ↔ ((after : Str) × (s ≡ p ++ after))
has_prefix_iff s p = (
  λ h. let (rest, cut, same) = cut_prefix_of_has_prefix s p h in (rest, same),
  λ (after, same). rw (same) (has_prefix-append p after),
)

contains-StandsIn : (s p : Str) → contains s p ≡ true → StandsIn p s
unfolding contains
contains-StandsIn [] p h = let (after, same) = (has_prefix_iff [] p).0 h in ([], after, same)
contains-StandsIn (c ∷ s) p h = elim (Bool-cases (has_prefix (c ∷ s) p)) [
  | inl here ↦ let (after, same) = (has_prefix_iff (c ∷ s) p).0 here in ([], after, same)
  | inr elsewhere ↦
      let (before, after, same) = contains-StandsIn s p (ground (arith, h, elsewhere)) in
      (c ∷ before, after, ap (λ u. c ∷ u) same)
]

contains-append : (before p after : Str) → contains (before ++ (p ++ after)) p ≡ true
unfolding contains
contains-append [] [] [] = unfold has_prefix in refl
contains-append [] [] (c ∷ after) = unfold has_prefix in refl
contains-append [] (c ∷ p) after = ground (arith, has_prefix-append (c ∷ p) after)
contains-append (c ∷ before) p after = ground (arith, contains-append before p after)

pub contains_iff : (s p : Str) → (contains s p ≡ true) ↔ StandsIn p s
contains_iff s p =
    (contains-StandsIn s p, λ (before, after, same). rw (same) (contains-append before p after))

drop_split : (n : ℕ) (s : Str) → take n s ++ drop n s ≡ s
drop_split zero s = refl
drop_split (suc n) [] = refl
drop_split (suc n) (c ∷ s) = ap (λ u. c ∷ u) (drop_split n s)

drop-length-append : (s t : Str) → drop (length s) (s ++ t) ≡ t
drop-length-append [] t = refl
drop-length-append (c ∷ s) t = drop-length-append s t

has_suffix-append : (before p : Str) → has_suffix (before ++ p) p ≡ true
unfolding has_suffix
has_suffix-append before p =
    let len : length (before ++ p) - length p ≡ length before =
      ground (arith, length-append before p) in
    let rest : drop (length (before ++ p) - length p) (before ++ p) ≡ p =
      rw (len) (drop-length-append before p) in
    ground (arith, length-append before p, rest, eq_refl p)

has_suffix-append_of : (s p : Str) → has_suffix s p ≡ true → (before : Str) × (s ≡ before ++ p)
unfolding has_suffix
has_suffix-append_of s p h =
    let n = length s - length p in
    let rest : drop n s ≡ p = ground (arith, h, eq_iff (drop n s) p) in
    (take n s, sym (drop_split n s) ∙ ap (λ u. take n s ++ u) rest)

pub has_suffix_iff : (s p : Str) → (has_suffix s p ≡ true) ↔ ((before : Str) × (s ≡ before ++ p))
has_suffix_iff s p =
    (has_suffix-append_of s p, λ (before, same). rw (same) (has_suffix-append before p))

module _ {ℓ} {A : Type ℓ} (p : A → Bool) (P : A → Type 0) (h : (x : A) → (p x ≡ true) ↔ P x) where
  any_iff : (xs : List A) → (any p xs ≡ true) ↔ Any P xs
  any_iff [] = ground arith
  any_iff (x ∷ xs) = ground (arith, h x, any_iff xs)

  all_iff : (xs : List A) → (all p xs ≡ true) ↔ All P xs
  all_iff [] = ground arith
  all_iff (x ∷ xs) = ground (arith, h x, all_iff xs)

-- The sender fits the pattern: it ends in what stands behind a leading star, or else it has the pattern
-- in it.
abbrev pub Fits : (from pattern : Str) → Type 0
Fits from [] = StandsIn [] from
Fits from (c ∷ pattern) =
    ((c ≡ b'*') × (before : Str) × (from ≡ before ++ pattern))
    ⊎ ((c ≢ b'*') × StandsIn (c ∷ pattern) from)

pattern_matches_iff :
    (from pattern : Str) → (pattern_matches from pattern ≡ true) ↔ Fits from pattern
unfolding pattern_matches
pattern_matches_iff from [] = contains_iff from []
pattern_matches_iff from (c ∷ pattern) = elim (Bool-cases (nat_eq c b'*')) [
  | inl star ↦
      let same : c ≡ b'*' = ground (arith, star) in
      rw (star) (
        λ h. let (before, e) = (has_suffix_iff from pattern).0 h in inl (same, before, e),
        λ f.
            (has_suffix_iff from pattern).1 (elim f [
              | inl (_, before, e) ↦ (before, e)
              | inr (differ, _) ↦ absurd (differ same)
            ]),
      )
  | inr other ↦
      let differ : c ≢ b'*' = λ e. ground (arith, other, e) in
      rw (other) (
        λ h. inr (differ, (contains_iff from (c ∷ pattern)).0 h),
        λ f.
            (contains_iff from (c ∷ pattern)).1
              (elim f [ inl (same, _, _) ↦ absurd (differ same) | inr (_, found) ↦ found ]),
      )
]

-- The message has all labels of the match, and its sender fits one of the patterns if there is any.
abbrev pub IsMatch : Mail → GmailMatch → HistoryMessage → Type 0
IsMatch m match msg =
    All (λ required. Any (λ l. l ≡ required) msg.labels) match.labels
    × ((match.from ≡ []) ⊎ Any (λ p. Fits (m.to_lower msg.from) (m.to_lower p)) match.from)

labels_iff :
    (labels required : List Str)
    → (all (λ r. any (λ l. l == r) labels) required ≡ true)
      ↔ All (λ r. Any (λ l. l ≡ r) labels) required
labels_iff labels =
    all_iff (λ r. any (λ l. l == r) labels) (λ r. Any (λ l. l ≡ r) labels)
      (λ r. any_iff (λ l. l == r) (λ l. l ≡ r) (λ l. eq_iff l r) labels)

senders_iff :
    (m : Mail) (from : Str) (patterns : List Str)
    → (any (λ p. pattern_matches from (m.to_lower p)) patterns ≡ true)
      ↔ Any (λ p. Fits from (m.to_lower p)) patterns
senders_iff m from =
    any_iff (λ p. pattern_matches from (m.to_lower p)) (λ p. Fits from (m.to_lower p))
      (λ p. pattern_matches_iff from (m.to_lower p))

from_iff :
    (m : Mail) (from : Str) (patterns : List Str)
    → ((if ltb 0 (length patterns)
          then any (λ p. pattern_matches from (m.to_lower p)) patterns
          else true)
        ≡ true)
      ↔ ((patterns ≡ []) ⊎ Any (λ p. Fits from (m.to_lower p)) patterns)
from_iff m from [] = (λ _. inl refl, λ _. refl)
from_iff m from (p ∷ ps) = ground (arith, senders_iff m from (p ∷ ps))

-- A rule matches a message exactly if the message has every label that the rule asks for and, if the
-- rule names senders, the sender in lower case fits one of their patterns in lower case: it ends in
-- what stands behind a leading star, or has the pattern in it. The query of the rule plays no part.
pub match_rule-IsMatch :
    (m : Mail) (match : GmailMatch) (msg : HistoryMessage)
    → (match_rule m match msg ≡ true) ↔ IsMatch m match msg
unfolding match_rule
match_rule-IsMatch m match msg =
    ground (arith, labels_iff msg.labels match.labels, from_iff m (m.to_lower msg.from) match.from)

replace_byte-Lacks : (b : ℕ) (new s : Str) → Lacks b new → Lacks b (replace_byte b new s)
unfolding replace_byte
replace_byte-Lacks b new [] h = tt
replace_byte-Lacks b new (c ∷ s) h = elim (Bool-cases (nat_eq c b)) [
  | inl same ↦ rw (same) (All-append _ new (replace_byte b new s) h (replace_byte-Lacks b new s h))
  | inr other ↦ rw (other) (λ e. ground (arith, other, e), replace_byte-Lacks b new s h)
]

replace_byte-Lacks_other :
    (b d : ℕ) (new s : Str) → Lacks d new → Lacks d s → Lacks d (replace_byte b new s)
unfolding replace_byte
replace_byte-Lacks_other b d new [] h hs = tt
replace_byte-Lacks_other b d new (c ∷ s) h hs = elim (Bool-cases (nat_eq c b)) [
  | inl same ↦
      rw (same)
        (All-append _ new (replace_byte b new s) h (replace_byte-Lacks_other b d new s h hs.1))
  | inr other ↦ rw (other) (hs.0, replace_byte-Lacks_other b d new s h hs.1)
]

safe : Str → Str
safe email = replace_byte b'@' (codes "_at_") (replace_byte b'/' (codes "_") email)

safe-Lacks : (email : Str) → Lacks b'/' (safe email)
unfolding safe
safe-Lacks email =
    replace_byte-Lacks_other b'@' b'/' (codes "_at_") (replace_byte b'/' (codes "_") email)
      (unfold codes in ground arith)
      (replace_byte-Lacks b'/' (codes "_") email (unfold codes in ground arith))

-- Whatever the email address of the account, the name of its state file has no slash, so that the file
-- lies in the state directory itself.
pub state_file-Lacks : (email : Str) → Lacks b'/' (state_file email)
unfolding state_file safe
state_file-Lacks email =
    All-append _ (codes "gmail-state-") (safe email ++ codes ".json") (unfold codes in ground arith)
      (All-append _ (safe email) (codes ".json") (safe-Lacks email) (unfold codes in ground arith))
