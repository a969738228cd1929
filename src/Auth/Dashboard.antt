-- ===== src/Auth/Dashboard.antt =====
-- The dashboard of internal/auth/google.go as text.
use openclaw_relay.Base.{
  Bool, true, false, not, Option, none, some, List, [], ◌∷◌, ◌++◌, nat_eq, length, map,
  if◌then◌else◌, ℕ,
}
use openclaw_relay.Base.Int.{pos}
use openclaw_relay.Base.Str.{Str, ◌==◌, codes}
use openclaw_relay.Base.Decimal.{itoa}
use openclaw_relay.Base.Map.{Map, lookup}
use openclaw_relay.Config.{Config, resolved_accounts}
use openclaw_relay.Tokens.{GoogleToken}
use openclaw_relay.Auth.Pages.{dashboard_head}

-- `html.EscapeString`
unfoldable pub escape_byte : ℕ → Str
escape_byte c =
    if nat_eq c b'&'
    then codes "&amp;"
    else if nat_eq c 39
    then codes "&#39;"
    else if nat_eq c b'<'
    then codes "&lt;"
    else if nat_eq c b'>'
    then codes "&gt;"
    else if nat_eq c 34
    then codes "&#34;"
    else c ∷ []

unfoldable pub escape_html : Str → Str
unfolding escape_byte
escape_html [] = []
escape_html (c ∷ s) = escape_byte c ++ escape_html s

unfoldable pub has_account : Map GoogleToken → Str → Bool
unfolding lookup
has_account accounts email = elim (lookup email accounts) [ none ↦ false | some _ ↦ true ]

-- The card of an allowed email, with a token stored for it or without.
unfoldable pub account_card : Bool → Str → Str
unfolding escape_html
account_card connected email =
    codes "<div class=\"card\"><div class=\"card-row\">"
    ++ ((if connected
          then codes "<div><span class=\"badge badge-ok\">connected</span> <span>"
            ++ (escape_html email
                ++ (codes "</span></div>"
                    ++ (codes "<a class=\"btn-sm\" href=\"/auth/logout?account="
                        ++ (escape_html email ++ codes "\">Disconnect</a>"))))
          else codes "<div><span class=\"badge badge-off\">not connected</span> <span>"
            ++ (escape_html email
                ++ (codes "</span></div>"
                    ++ (codes "<a class=\"btn-sm\" href=\"/auth/google/login?account="
                        ++ (escape_html email ++ codes "\">Connect</a>")))))
        ++ codes "</div></div>")

-- The loop over the allowed emails, with whether each has a token.
unfoldable pub account_cards : List (Bool × Str) → Str
unfolding account_card
account_cards [] = []
account_cards ((connected, email) ∷ cards) = account_card connected email ++ account_cards cards

abbrev or_else_default : Str → Str
or_else_default interval = if interval == [] then codes "default" else interval

unfoldable pub gmail_card : Config → Str
unfolding escape_html resolved_accounts itoa
gmail_card cfg =
    codes "<div class=\"card\"><div class=\"card-row\"><div><strong>Gmail</strong></div>"
    ++ ((if cfg.gmail.enabled
          then codes "<span class=\"badge badge-ok\">enabled</span></div>"
            ++ (codes "<div class=\"info\">Poll: "
                ++ (escape_html (or_else_default cfg.gmail.poll_interval)
                    ++ ((b' ' ∷ 194 ∷ 183 ∷ b' ' ∷ [])
                        ++ (itoa (pos (length (resolved_accounts cfg.gmail)))
                            ++ codes " account(s)</div>"))))
          else codes "<span class=\"badge badge-off\">disabled</span></div>")
        ++ codes "</div>")

unfoldable pub trello_card : Config → Str
unfolding itoa
trello_card cfg =
    codes "<div class=\"card\"><div class=\"card-row\"><div><strong>Trello</strong></div>"
    ++ ((if not (cfg.trello.secret == [])
          then codes "<span class=\"badge badge-ok\">configured</span></div>"
            ++ (codes "<div class=\"info\">"
                ++ (itoa (pos (length cfg.trello.rules)) ++ codes " rule(s)</div>"))
          else codes "<span class=\"badge badge-off\">not configured</span></div>")
        ++ codes "</div>")

unfoldable pub github_card : Config → Str
github_card cfg =
    codes "<div class=\"card\"><div class=\"card-row\"><div><strong>GitHub</strong></div>"
    ++ ((if not (cfg.github.secret == [])
          then codes "<span class=\"badge badge-ok\">configured</span></div>"
          else codes "<span class=\"badge badge-off\">not configured</span></div>")
        ++ codes "</div>")

unfoldable pub integrations : Option Config → Str
unfolding gmail_card trello_card github_card
integrations none = []
integrations (some cfg) = gmail_card cfg ++ (trello_card cfg ++ github_card cfg)

-- the last two texts
unfoldable pub dashboard_foot : Str
dashboard_foot =
    codes "<div class=\"section\"><h2>Quick Links</h2><div class=\"grid\">\n"
    ++ (codes "<a class=\"link-card\" href=\"/health\">/health"
        ++ (codes "<div class=\"desc\">Service health check</div></a>\n"
            ++ (codes "<a class=\"link-card\" href=\"/api/status\">/api/status"
                ++ (codes "<div class=\"desc\">API status endpoint</div></a>\n</div></div>"
                    ++ codes "</div></body></html>"))))

unfoldable pub email_span : Str → Str
unfolding escape_html
email_span session_email =
    codes "<span class=\"email\">" ++ (escape_html session_email ++ codes "</span>")

-- the texts between the email of the session and the cards
unfoldable pub accounts_head : Str
accounts_head =
    codes "<a class=\"btn-logout\" href=\"/auth/logout\">Logout</a>\n</div></div>\n"
    ++ (codes "<div class=\"container\">"
        ++ codes "<div class=\"section\"><h2>Google Accounts</h2>")

-- the page behind the cards
unfoldable pub dashboard_rest : Option Config → Str
unfolding integrations dashboard_foot
dashboard_rest app_cfg =
    codes "</div>"
    ++ (codes "<div class=\"section\"><h2>Integrations</h2>"
        ++ (integrations app_cfg ++ (codes "</div>" ++ dashboard_foot)))

-- The cards for the emails in their order.
unfoldable pub cards_of : Map GoogleToken → List Str → List (Bool × Str)
unfolding has_account
cards_of accounts order = map (λ email. (has_account accounts email, email)) order

-- `renderDashboard`, where `order` is the order of its `range` over the allowed emails.
unfoldable pub dashboard_page : Map GoogleToken → List Str → Option Config → Str → Str
unfolding dashboard_head email_span accounts_head account_cards cards_of dashboard_rest
dashboard_page accounts order app_cfg session_email =
    dashboard_head
    ++ (email_span session_email
        ++ (accounts_head ++ (account_cards (cards_of accounts order) ++ dashboard_rest app_cfg)))

-- The page of a login whose email is not allowed.
unfoldable pub access_denied_page : Str → Str
access_denied_page email =
    codes "<!DOCTYPE html><html><body>\n<h2>"
    ++ ((226 ∷ 155 ∷ 148 ∷ [])
        ++ (codes " Access Denied</h2>\n<p>Email "
            ++ (email
                ++ codes
                    " is not in the allowed list.</p>\n<p><a href=\"/\">Back</a></p>\n</body></html>")))
