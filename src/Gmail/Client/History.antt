-- ===== src/Gmail/Client/History.antt =====
-- `GetHistory` of internal/gmail/client.go: the pages of the history, and the messages on them.
use openclaw_relay.Base.{
  ◌↔◌, ℕ, zero, suc, ◌≤◌, ◌≡◌, ◌≢◌, refl, sym, ap, ◌∙◌, Bool, true, false, Option, none, some, List,
  [], ◌∷◌, ◌++◌, map, arith, if◌then◌else◌, inl, inr, Bool-cases,
}
use openclaw_relay.Base.Str.{IsListed, Str, ◌==◌, codes, eq_iff, eq_refl, eq_of_ne}
use openclaw_relay.Base.Map.{lookup-insert, Map, lookup, insert}
use openclaw_relay.Gmail.{HistoryMessage, OrError}
use openclaw_relay.Gmail.Client.{Wire, Service, RawMsg, HistoryPage}
use openclaw_relay.Gmail.Client.Requests.{history_message}

abbrev is_seen : Option Bool → Bool
is_seen none = false
is_seen (some v) = v

-- The inner loops on the messages of a page: the map `seen`, and what is appended.
unfoldable pub fresh : Map Bool → List RawMsg → Map Bool × List RawMsg
unfolding lookup insert
fresh seen [] = (seen, [])
fresh seen (raw ∷ raws) =
    if is_seen (lookup raw.id seen)
    then fresh seen raws
    else let rest = fresh (insert raw.id true seen) raws in (rest.0, raw ∷ rest.1)

-- messages in front of what the later pages bring
abbrev prepend :
    List RawMsg → Option (OrError (List RawMsg × ℕ)) → Option (OrError (List RawMsg × ℕ))
prepend new none = none
prepend new (some (inl err)) = some (inl err)
prepend new (some (inr (raws, hid))) = some (inr (new ++ raws, hid))

-- The loop over the pages, from a page token; it ends only at a page that names no next one, so it runs
-- on fuel, and `none` says that the fuel is used up.
unfoldable pub pages : Service → ℕ → ℕ → Str → Map Bool → Option (OrError (List RawMsg × ℕ))
unfolding fresh
pages svc start_id zero token seen = none
pages svc start_id (suc fuel) token seen = elim (svc.history start_id token) [
  | inl err ↦ some (inl (codes "history.list: " ++ err))
  | inr page ↦
      let new = fresh seen page.added in
      let rest = pages svc start_id fuel page.next_page_token new.0 in
      if page.next_page_token == [] then some (inr (new.1, page.history_id)) else prepend new.1 rest
]

abbrev messages_of :
    Wire → Service → Option (OrError (List RawMsg × ℕ)) → Option (OrError (List HistoryMessage × ℕ))
messages_of w svc none = none
messages_of w svc (some (inl err)) = some (inl err)
messages_of w svc (some (inr (raws, hid))) = some (inr (map (history_message w svc) raws, hid))

unfoldable pub get_history : Wire → Service → ℕ → ℕ → Option (OrError (List HistoryMessage × ℕ))
unfolding pages history_message
get_history w svc fuel start_id = messages_of w svc (pages svc start_id fuel [] [])

-- The pages that the service gives from a token on: their messages in order, and the last page's id.
pub data HasPages (svc : Service) (start_id : ℕ) : Str → ℕ → List RawMsg → ℕ → Type 0 where
  last :
      {token : Str} (page : HistoryPage)
      → svc.history start_id token ≡ inr page
      → page.next_page_token ≡ []
      → HasPages svc start_id token 1 page.added page.history_id
  more :
      {token : Str} {count : ℕ} {raws : List RawMsg} {hid : ℕ} (page : HistoryPage)
      → svc.history start_id token ≡ inr page
      → page.next_page_token ≢ []
      → HasPages svc start_id page.next_page_token count raws hid
      → HasPages svc start_id token (suc count) (page.added ++ raws) hid

fresh-append :
    (raws raws' : List RawMsg) (seen : Map Bool)
    → (fresh seen (raws ++ raws')).1 ≡ (fresh seen raws).1 ++ (fresh (fresh seen raws).0 raws').1
unfolding fresh
fresh-append [] raws' seen = refl
fresh-append (raw ∷ raws) raws' seen = elim (Bool-cases (is_seen (lookup raw.id seen))) [
  | inl repeated ↦ rw (repeated) (fresh-append raws raws' seen)
  | inr new ↦ rw (new) (ap (λ u. raw ∷ u) (fresh-append raws raws' (insert raw.id true seen)))
]

page_last :
    (svc : Service) (start_id fuel : ℕ) (token : Str) (seen : Map Bool) (page : HistoryPage)
    → svc.history start_id token ≡ inr page
    → page.next_page_token ≡ []
    → pages svc start_id (suc fuel) token seen
      ≡ some (inr ((fresh seen page.added).1, page.history_id))
unfolding pages
page_last svc start_id fuel token seen page got stop =
    simp (pages, got, ap (λ t. t == []) stop ∙ eq_refl [])

page_more :
    (svc : Service) (start_id fuel : ℕ) (token : Str) (seen : Map Bool) (page : HistoryPage)
    → svc.history start_id token ≡ inr page
    → page.next_page_token ≢ []
    → pages svc start_id (suc fuel) token seen
      ≡ prepend
          (fresh seen page.added).1
          (pages svc start_id fuel page.next_page_token (fresh seen page.added).0)
unfolding pages
page_more svc start_id fuel token seen page got go =
    simp (pages, got, eq_of_ne page.next_page_token [] go)

pages-HasPages :
    (svc : Service) (start_id fuel : ℕ) (seen : Map Bool) (token : Str) (count : ℕ)
    (raws : List RawMsg) (hid : ℕ)
    → HasPages svc start_id token count raws hid
    → count ≤ fuel
    → pages svc start_id fuel token seen ≡ some (inr ((fresh seen raws).1, hid))
pages-HasPages svc start_id zero seen token count raws hid (last page got stop) le =
    absurd (ground arith)
pages-HasPages svc start_id (suc fuel) seen token count raws hid (last page got stop) le =
    page_last svc start_id fuel token seen page got stop
pages-HasPages svc start_id zero seen token count raws hid (more page got go h) le =
    absurd (ground arith)
pages-HasPages svc start_id (suc fuel) seen token count raws hid
      (more {count = n} {raws = later} page got go h) le =
    page_more svc start_id fuel token seen page got go
    ∙ ap (prepend (fresh seen page.added).1) (
        pages-HasPages svc start_id fuel (fresh seen page.added).0 page.next_page_token n later hid
          h (omega (arith, le)))
    ∙ ap (λ u. some (inr (u, hid))) (sym (fresh-append page.added later seen))

-- `kept` is what is left of `raws` by taking away each message whose id came before, in `before` or in
-- the list.
pub data KeepsFirst : (before : List Str) (raws kept : List RawMsg) → Type 0 where
  done : {before : List Str} → KeepsFirst before [] []
  drop_repeat :
      {before : List Str} {raws kept : List RawMsg} {raw : RawMsg}
      → IsListed raw.id before
      → KeepsFirst before raws kept
      → KeepsFirst before (raw ∷ raws) kept
  keep :
      {before : List Str} {raws kept : List RawMsg} {raw : RawMsg}
      → ¬ IsListed raw.id before
      → KeepsFirst (raw.id ∷ before) raws kept
      → KeepsFirst before (raw ∷ raws) (raw ∷ kept)

-- the map records the ids
abbrev Records : Map Bool → List Str → Type 0
Records seen before = (id : Str) → (is_seen (lookup id seen) ≡ true) ↔ IsListed id before

Records-insert :
    (seen : Map Bool) (before : List Str) (new : Str)
    → Records seen before
    → Records (insert new true seen) (new ∷ before)
Records-insert seen before new r id =
    ground (arith, lookup-insert new id true seen, eq_iff new id, r id)

fresh-KeepsFirst :
    (seen : Map Bool) (before : List Str) (raws : List RawMsg)
    → Records seen before
    → KeepsFirst before raws (fresh seen raws).1
unfolding fresh
fresh-KeepsFirst seen before [] r = done
fresh-KeepsFirst seen before (raw ∷ raws) r = elim (Bool-cases (is_seen (lookup raw.id seen))) [
  | inl repeated ↦
      rw (repeated) (drop_repeat ((r raw.id).0 repeated) (fresh-KeepsFirst seen before raws r))
  | inr new ↦ rw (new) (
      keep (λ h. ground (arith, new, (r raw.id).1 h))
        (fresh-KeepsFirst (insert raw.id true seen) (raw.id ∷ before) raws
          (Records-insert seen before raw.id r)))
]

-- If the history has some number of pages from its start on, `GetHistory` ends with fuel for so many. It
-- gives the id of the last page and, of the messages of all pages as if they were on one, each that has
-- another id than all before it, in their order, in the form that its last loop makes of a message.
pub get_history-HasPages :
    (w : Wire) (svc : Service) (fuel start_id count : ℕ) (raws : List RawMsg) (hid : ℕ)
    → HasPages svc start_id [] count raws hid
    → count ≤ fuel
    → (kept : List RawMsg) × (get_history w svc fuel start_id
        ≡ some (inr (map (history_message w svc) kept, hid)))
      × KeepsFirst [] raws kept
unfolding get_history
get_history-HasPages w svc fuel start_id count raws hid h le = (
  (fresh [] raws).1,
  ap (messages_of w svc) (pages-HasPages svc start_id fuel [] [] count raws hid h le),
  fresh-KeepsFirst [] [] raws (λ id. unfold lookup in ground arith),
)
