-- ===== src/Auth/Pages.antt =====
-- The constant texts of the pages of internal/auth/google.go: the login page, and the dashboard up to the
-- email of the session. A byte that is not ASCII is written as a number.
use openclaw_relay.Base.{List, [], ◌∷◌, ◌++◌}
use openclaw_relay.Base.Str.{Str, codes}

abbrev unlines : List Str → Str
unlines [] = []
unlines (line ∷ []) = line
unlines (line ∷ next ∷ lines) = line ++ b'\n' ∷ unlines (next ∷ lines)

-- what `renderLoginPage` writes
unfoldable pub login_text : Str
login_text = unlines (
    codes "<!DOCTYPE html>"
    ∷ (codes "<html lang=\"en\"><head><meta charset=\"utf-8\"><meta name=\"viewport\" content=\"wid"
        ++ codes "th=device-width,initial-scale=1\">")
    ∷ codes "<title>openclaw-relay</title>"
    ∷ codes "<style>"
    ∷ codes "*{margin:0;padding:0;box-sizing:border-box}"
    ∷ (codes "body{background:#0d1117;color:#c9d1d9;font-family:-apple-system,BlinkMacSystem"
        ++ (codes "Font,\"Segoe UI\",Helvetica,Arial,sans-serif;min-height:100vh;display:flex;align"
            ++ codes "-items:center;justify-content:center}"))
    ∷ (codes ".card{background:#161b22;border:1px solid #30363d;border-radius:12px;padding:4"
        ++ codes "8px;text-align:center;max-width:400px;width:90%}")
    ∷ codes "h1{font-size:24px;font-weight:600;margin-bottom:8px;color:#f0f6fc}"
    ∷ codes ".sub{color:#8b949e;font-size:14px;margin-bottom:32px}"
    ∷ (codes ".btn{display:inline-flex;align-items:center;gap:8px;background:#238636;color:#"
        ++ (codes "fff;border:none;border-radius:6px;padding:12px 24px;font-size:16px;font-weight"
            ++ codes ":500;cursor:pointer;text-decoration:none;transition:background .15s}"))
    ∷ codes ".btn:hover{background:#2ea043}"
    ∷ codes ".btn svg{width:20px;height:20px}"
    ∷ codes "</style></head><body>"
    ∷ codes "<div class=\"card\">"
    ∷ codes "<h1>openclaw-relay</h1>"
    ∷ codes "<p class=\"sub\">Sign in to access the dashboard</p>"
    ∷ codes "<a class=\"btn\" href=\"/auth/google/login\">"
    ∷ (codes "<svg viewBox=\"0 0 24 24\" fill=\"currentColor\"><path d=\"M12.545 10.239v3.821h5.4"
        ++ (codes "45c-.712 2.315-2.647 3.972-5.445 3.972a6.033 6.033 0 110-12.064c1.498 0 2.866."
            ++ (codes
                  "549 3.921 1.453l2.814-2.814A9.969 9.969 0 0012.545 2C7.021 2 2.543 6.477 2.543"
                ++ codes
                    " 12s4.478 10 10.002 10c8.396 0 10.249-7.85 9.426-11.748l-9.426-.013z\"/></svg>")))
    ∷ codes "Sign in with Google"
    ∷ codes "</a>"
    ∷ codes "</div>"
    ∷ codes "</body></html>"
    ∷ [])

-- the first text that `renderDashboard` writes
unfoldable pub dashboard_head : Str
dashboard_head = unlines (
    codes "<!DOCTYPE html>"
    ∷ (codes "<html lang=\"en\"><head><meta charset=\"utf-8\"><meta name=\"viewport\" content=\"wid"
        ++ codes "th=device-width,initial-scale=1\">")
    ∷ (codes "<title>openclaw-relay " ++ ((226 ∷ 128 ∷ 148 ∷ []) ++ codes " Dashboard</title>"))
    ∷ codes "<style>"
    ∷ codes "*{margin:0;padding:0;box-sizing:border-box}"
    ∷ (codes "body{background:#0d1117;color:#c9d1d9;font-family:-apple-system,BlinkMacSystem"
        ++ codes "Font,\"Segoe UI\",Helvetica,Arial,sans-serif;min-height:100vh}")
    ∷ (codes ".header{background:#161b22;border-bottom:1px solid #30363d;padding:16px 24px;d"
        ++ (codes "isplay:flex;align-items:center;justify-content:space-between;flex-wrap:wrap;ga"
            ++ codes "p:12px}"))
    ∷ codes ".header h1{font-size:20px;font-weight:600;color:#f0f6fc}"
    ∷ codes ".header-right{display:flex;align-items:center;gap:16px;font-size:14px}"
    ∷ codes ".header-right .email{color:#8b949e}"
    ∷ (codes ".btn-logout{color:#f85149;text-decoration:none;font-size:14px;padding:6px 12px"
        ++ codes ";border:1px solid #f8514933;border-radius:6px;transition:background .15s}")
    ∷ codes ".btn-logout:hover{background:#f8514922}"
    ∷ codes ".container{max-width:960px;margin:0 auto;padding:24px}"
    ∷ codes ".section{margin-bottom:24px}"
    ∷ (codes ".section h2{font-size:16px;font-weight:600;color:#f0f6fc;margin-bottom:12px;pa"
        ++ codes "dding-bottom:8px;border-bottom:1px solid #21262d}")
    ∷ (codes ".card{background:#161b22;border:1px solid #30363d;border-radius:8px;padding:16"
        ++ codes "px;margin-bottom:8px}")
    ∷ (codes ".card-row{display:flex;align-items:center;justify-content:space-between;flex-w"
        ++ codes "rap:wrap;gap:8px}")
    ∷ (codes ".badge{display:inline-block;padding:2px 8px;border-radius:12px;font-size:12px;"
        ++ codes "font-weight:500}")
    ∷ codes ".badge-ok{background:#23863633;color:#3fb950;border:1px solid #23863666}"
    ∷ codes ".badge-off{background:#30363d;color:#8b949e;border:1px solid #30363d}"
    ∷ codes ".badge-warn{background:#d2992233;color:#d29922;border:1px solid #d2992266}"
    ∷ (codes ".btn-sm{font-size:13px;padding:4px 12px;border-radius:6px;text-decoration:none"
        ++ codes ";border:1px solid #30363d;color:#c9d1d9;transition:background .15s}")
    ∷ codes ".btn-sm:hover{background:#30363d}"
    ∷ codes ".info{font-size:13px;color:#8b949e}"
    ∷ (codes ".grid{display:grid;grid-template-columns:repeat(auto-fit,minmax(200px,1fr));ga"
        ++ codes "p:8px}")
    ∷ (codes ".link-card{display:block;background:#161b22;border:1px solid #30363d;border-ra"
        ++ (codes "dius:8px;padding:12px 16px;color:#58a6ff;text-decoration:none;font-size:14px;t"
            ++ codes "ransition:border-color .15s}"))
    ∷ codes ".link-card:hover{border-color:#58a6ff}"
    ∷ codes ".link-card .desc{color:#8b949e;font-size:12px;margin-top:4px}"
    ∷ codes "</style></head><body>"
    ∷ codes "<div class=\"header\">"
    ∷ codes "<h1>openclaw-relay</h1>"
    ∷ codes "<div class=\"header-right\">"
    ∷ [])
