-- ===== src/Config/Env.antt =====
-- `envSubst`: the substitution of `${NAME}` by environment variables in the text of the config.
use openclaw_relay.Base.{
  ◌≡◌, ◌≢◌, refl, ap, ◌∙◌, List, [], ◌∷◌, ◌++◌, append_assoc, append-nil, arith, nat_eq,
  if◌then◌else◌, All,
}
use openclaw_relay.Base.Str.{Str, ◌==◌, Lacks}

-- Where a left-to-right match of `\$\{([^}]+)\}` stands: before `$`, behind `$`, behind `${`, or in
-- the name, which is kept. A match that is not finished is text.
pub data Mode : Type 0 where
  outside dollar opened : Mode
  inside : Str → Mode

abbrev opening : Str
opening = b'$' ∷ b'{' ∷ []

abbrev closing : Str
closing = b'}' ∷ []

module _ (getenv : Str → Str) where
  -- what a match is replaced by: the variable's value, or the match itself if that is empty
  unfoldable pub replacement : Str → Str
  replacement key = let v = getenv key in if v == [] then opening ++ key ++ closing else v

  unfoldable pub scan : Mode → Str → Str
  unfolding replacement
  scan outside [] = []
  scan dollar [] = b'$' ∷ []
  scan opened [] = opening
  scan (inside key) [] = opening ++ key
  scan outside (c ∷ s) =
      let start = scan dollar s in
      let copy = c ∷ scan outside s in if nat_eq c b'$' then start else copy
  scan dollar (c ∷ s) =
      let open_brace = scan opened s in
      let again = b'$' ∷ scan dollar s in
      let copy = b'$' ∷ c ∷ scan outside s in
      if nat_eq c b'{' then open_brace else if nat_eq c b'$' then again else copy
  scan opened (c ∷ s) =
      let empty = opening ++ (c ∷ scan outside s) in
      let name = scan (inside (c ∷ [])) s in if nat_eq c b'}' then empty else name
  scan (inside key) (c ∷ s) =
      let done = replacement key ++ scan outside s in
      let more = scan (inside (key ++ c ∷ [])) s in if nat_eq c b'}' then done else more

  unfoldable pub env_subst : Str → Str
  unfolding scan
  env_subst s = scan outside s

-- A text as pieces: plain text and references to variables.
pub data Piece : Type 0 where
  text : Str → Piece
  var : Str → Piece

abbrev pub source_of : Piece → Str
source_of (text s) = s
source_of (var key) = opening ++ (key ++ closing)

abbrev pub source : List Piece → Str
source [] = []
source (p ∷ ps) = source_of p ++ source ps

-- text without `$`; a name that is not empty and holds no `}`
abbrev pub IsPiece : Piece → Type 0
IsPiece (text s) = Lacks b'$' s
IsPiece (var key) = (key ≢ []) × Lacks b'}' key

var_assoc :
    (key rest : Str) → (opening ++ (key ++ closing)) ++ rest ≡ opening ++ (key ++ (closing ++ rest))
var_assoc key rest = ap (λ t. opening ++ t) (append_assoc key closing rest)

module _ (getenv : Str → Str) where
  -- the value of a variable, or the reference to it if that is empty
  abbrev pub kept_or : Str → Str → Str
  kept_or key [] = b'$' ∷ b'{' ∷ (key ++ b'}' ∷ [])
  kept_or key (c ∷ v) = c ∷ v

  -- what the pieces stand for
  abbrev pub value_of : Piece → Str
  value_of (text s) = s
  value_of (var key) = kept_or key (getenv key)

  abbrev pub value : List Piece → Str
  value [] = []
  value (p ∷ ps) = value_of p ++ value ps

  replacement_lem : (key : Str) → replacement getenv key ≡ kept_or key (getenv key)
  unfolding replacement
  replacement_lem key = of_value (getenv key)
    where
      of_value : (v : Str) → (if v == [] then opening ++ key ++ closing else v) ≡ kept_or key v
      of_value [] = unfold ◌==◌ in refl
      of_value (c ∷ v) = unfold ◌==◌ in refl

  scan-text :
      (s rest : Str)
      → Lacks b'$' s
      → scan getenv outside (s ++ rest) ≡ s ++ scan getenv outside rest
  unfolding scan
  scan-text [] rest h = refl
  scan-text (c ∷ s) rest h = ground (arith, scan-text s rest h.1, h.0)

  scan-inside :
      (key more rest : Str)
      → Lacks b'}' more
      → scan getenv (inside key) (more ++ (closing ++ rest))
        ≡ replacement getenv (key ++ more) ++ scan getenv outside rest
  unfolding scan
  scan-inside key [] rest h = rw append-nil
  scan-inside key (c ∷ more) rest h =
      ground (arith, h.0, scan-inside (key ++ c ∷ []) more rest h.1, append_assoc key (c ∷ []) more)

  scan-var :
      (key rest : Str)
      → key ≢ []
      → Lacks b'}' key
      → scan getenv outside (opening ++ (key ++ (closing ++ rest)))
        ≡ replacement getenv key ++ scan getenv outside rest
  unfolding scan
  scan-var [] rest named h = absurd (named refl)
  scan-var (c ∷ key) rest named h = ground (arith, h.0, scan-inside (c ∷ []) key rest h.1)

  -- Every reference to a variable is replaced by the variable's value, or kept if that is empty, and
  -- all other text is kept: for text without `$` and names without `}`.
  pub env_subst-source :
      (ps : List Piece) → All IsPiece ps → env_subst getenv (source ps) ≡ value ps
  unfolding env_subst
  env_subst-source [] h = unfold scan in refl
  env_subst-source (text s ∷ ps) h =
      scan-text s (source ps) h.0 ∙ ap (λ t. s ++ t) (env_subst-source ps h.1)
  env_subst-source (var key ∷ ps) h =
      ap (scan getenv outside) (var_assoc key (source ps))
      ∙ scan-var key (source ps) h.0.0 h.0.1
      ∙ ap (λ t. replacement getenv key ++ t) (env_subst-source ps h.1)
      ∙ ap (λ v. v ++ value ps) (replacement_lem key)
