-- ===== src/Config/Tests.antt =====
-- Runs of the configuration's methods, and the theorems at concrete inputs.
use openclaw_relay.Base.{
  ◌≡◌, ◌≢◌, ◌↔◌, refl, true, none, some, List, [], ◌∷◌, arith, All, if◌then◌else◌,
}
use openclaw_relay.Base.Str.{ne_of_test, Str, ◌==◌, codes, eq_iff}
use openclaw_relay.Base.Map.{Map, Ranges, lookup}
use openclaw_relay.Samples.{sample_config}
use openclaw_relay.Config.{validate}
use openclaw_relay.Config.Env.{env_subst, Piece, text, var, source, value, env_subst-source}
use openclaw_relay.Config.Load.{load, with_defaults}
use openclaw_relay.Config.Lists.{HasDistinctIds}
use openclaw_relay.Config.Accounts.{Sends, IsAccepted, validate-eq-none_iff}

abbrev getenv : Str → Str
getenv k = if k == codes "TOKEN" then codes "abc" else []

substituted :
    env_subst getenv (codes "t: ${TOKEN} u: ${NONE} $x ${} ${open")
    ≡ codes "t: abc u: ${NONE} $x ${} ${open"
unfolding env_subst codes ◌==◌
substituted = refl

abbrev pieces : List Piece
pieces = text (codes "t: ") ∷ var (codes "TOKEN") ∷ []

env_subst-source_example : env_subst getenv (source pieces) ≡ value getenv pieces
env_subst-source_example =
    env_subst-source getenv pieces (unfold codes in (omega arith, ((cc, omega arith), tt)))

valid : validate sample_config ≡ none
unfolding validate codes ◌==◌
valid = refl

validate-eq-none_iff_example : (validate sample_config ≡ none) ↔ (
    (Sends sample_config → sample_config.gateway.url ≢ [])
    × (sample_config.gmail.enabled ≡ true
        → All (IsAccepted sample_config.google.allowed_emails) sample_config.gmail.accounts))
validate-eq-none_iff_example = validate-eq-none_iff sample_config

loaded : load getenv (λ t. some sample_config) (some []) ≡ some (with_defaults sample_config)
unfolding load
loaded = refl

-- the lists in another order
abbrev lists : Map Str
lists = sample_config.trello.lists

abbrev turned : Map Str
turned = (codes "questions", codes "L2") ∷ (codes "ready", codes "L1") ∷ []

lists-Ranges : Ranges lists lists
unfolding lookup codes ◌==◌
lists-Ranges = record { once = (refl, (refl, tt)); same = λ k. refl }

names_differ : codes "ready" ≢ codes "questions"
unfolding codes ◌==◌
names_differ = ne_of_test (codes "ready") (codes "questions") refl

turned-Ranges : Ranges turned lists
unfolding lookup
turned-Ranges = record {
  once = (unfold codes ◌==◌ in refl, (refl, tt));
  same = λ k. ground (arith, names_differ, eq_iff (codes "ready") k, eq_iff (codes "questions") k);
}

ids_differ : codes "L1" ≢ codes "L2"
unfolding codes ◌==◌
ids_differ = ne_of_test (codes "L1") (codes "L2") refl

lists-HasDistinctIds : HasDistinctIds lists
unfolding lookup
lists-HasDistinctIds name other id e e' = ground (
  arith,
  ids_differ,
  eq_iff (codes "ready") name,
  eq_iff (codes "questions") name,
  eq_iff (codes "ready") other,
  eq_iff (codes "questions") other,
)
