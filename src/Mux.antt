-- ===== src/Mux.antt =====
-- The routing of Go's http.ServeMux, as far as the patterns of internal/server/server.go use it: a
-- pattern is a path, and stands for the paths that it begins if it ends in a slash. The path of a request
-- has no percent escapes here.
pub mod Matches
use openclaw_relay.Base.{
  ℕ, Bool, true, false, not, ◌&&◌, ◌||◌, Option, none, some, List, [], ◌∷◌, ◌++◌, ltb, nat_eq,
  length, if◌then◌else◌,
}
use openclaw_relay.Base.Str.{Str, ◌==◌, codes, has_prefix}
use openclaw_relay.Base.Map.{Map, lookup}
use openclaw_relay.Http.{Request}

unfoldable pub ends_in_slash : Str → Bool
ends_in_slash [] = false
ends_in_slash (c ∷ []) = nat_eq c b'/'
ends_in_slash (c ∷ d ∷ s) = ends_in_slash (d ∷ s)

-- the parts of a path between its slashes, with the part read so far
unfoldable pub segments : Str → Str → List Str
segments part [] = part ∷ []
segments part (c ∷ s) =
    let cut = segments [] s in
    let on = segments (part ++ c ∷ []) s in if nat_eq c b'/' then part ∷ cut else on

abbrev pub but_last : List Str → List Str
but_last [] = []
but_last (part ∷ []) = []
but_last (part ∷ next ∷ parts) = part ∷ but_last (next ∷ parts)

-- `path.Clean` on the parts of a rooted path: the parts kept so far, and those to come
unfoldable pub clean_parts : List Str → List Str → List Str
clean_parts kept [] = kept
clean_parts kept (part ∷ parts) =
    if part == [] || part == codes "."
    then clean_parts kept parts
    else if part == codes ".."
    then clean_parts (but_last kept) parts
    else clean_parts (kept ++ part ∷ []) parts

unfoldable pub join_parts : List Str → Str
join_parts [] = []
join_parts (part ∷ parts) = b'/' ∷ (part ++ join_parts parts)

-- `cleanPath`: a rooted path without the parts "", "." and "..", that ends in a slash if it did
unfoldable pub clean_path : Str → Str
unfolding ends_in_slash segments clean_parts join_parts
clean_path path =
    let kept = join_parts (clean_parts [] (segments [] path)) in
    if kept == [] then codes "/" else if ends_in_slash path then kept ++ codes "/" else kept

unfoldable pub matches : Str → Str → Bool
unfolding ends_in_slash
matches pattern path = pattern == path || (ends_in_slash pattern && has_prefix path pattern)

-- The longest pattern that stands for the path, with its value.
abbrev pub longer : {V : Type 0} → Str × V → Option (Str × V) → Option (Str × V)
longer (pattern, v) none = some (pattern, v)
longer (pattern, v) (some (other, w)) =
    if ltb (length other) (length pattern) then some (pattern, v) else some (other, w)

unfoldable pub best_match : {V : Type 0} → Map V → Str → Option (Str × V)
unfolding matches
best_match [] path = none
best_match ((pattern, v) ∷ patterns) path =
    let rest = best_match patterns path in
    if matches pattern path then longer (pattern, v) rest else rest

-- What the mux makes of a request: a handler, a redirect with status 301, or "404 page not found".
pub data Routed (V : Type 0) : Type 0 where
  found : V → Routed V
  moved : Str → Routed V
  missing : Routed V

abbrev pub handler_of : {V : Type 0} → Option (Str × V) → Routed V
handler_of none = missing
handler_of (some (_, v)) = found v

-- `/tree` is redirected to `/tree/` if only the latter is a pattern.
unfoldable pub lacks_slash : {V : Type 0} → Map V → Str → Bool
unfolding lookup ends_in_slash
lacks_slash patterns path =
    elim (lookup path patterns) [ none ↦ true | some _ ↦ false ]
    && not (ends_in_slash path)
    && not (path == [])
    && elim (lookup (path ++ codes "/") patterns) [ none ↦ false | some _ ↦ true ]

-- `ServeMux.findHandler`; the path of a CONNECT request is not cleaned
unfoldable pub route : {V : Type 0} → Map V → Request → Routed V
unfolding clean_path lacks_slash best_match
route patterns r =
    let path = if r.method == codes "CONNECT" then r.path else clean_path r.path in
    if lacks_slash patterns path
    then moved (clean_path r.path ++ codes "/")
    else if not (path == r.path)
    then moved path
    else handler_of (best_match patterns path)
