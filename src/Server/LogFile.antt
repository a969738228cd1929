-- ===== src/Server/LogFile.antt =====
-- The file of the audit log of internal/audit/audit.go after requests to the server.
use mathlib.Core.List.{map-append, map-map}
use openclaw_relay.Base.{
  ℕ, ◌≡◌, sym, ap, ◌∙◌, true, Option, none, some, List, [], ◌∷◌, ◌++◌, map, All, All-append,
}
use openclaw_relay.Base.Str.{Str}
use openclaw_relay.Http.{Request}
use openclaw_relay.Json.Reader.{is_utf8}
use openclaw_relay.Audit.{Entry, middleware, extract_client_ip}
use openclaw_relay.Audit.Logger.{Logger, log_all}
use openclaw_relay.Audit.Lines.{cut_lines}
use openclaw_relay.Audit.Reader.{IsReadable, read_entry, log_all-entries}
use openclaw_relay.Server.{Server, Site}
use openclaw_relay.Server.Handlers.{logged, World, Moment, serve, serve_all}
use openclaw_relay.Server.Log.{line_of, lines, guarded-log, serve_all-lines}

abbrev shown : Option Entry → Option (Str × (Str × ℕ))
shown none = none
shown (some entry) = some (line_of entry)

-- The method, the path and the status that a line of the file is read as.
abbrev pub read_line : Str → Option (Str × (Str × ℕ))
read_line line = shown (read_entry line)

module _ (u : World) (site : Site) where
  -- What the log takes of the request is in UTF-8.
  pub record IsClear (at : Moment × Request) : Type 0 where
    pub time : is_utf8 0 at.0.started ≡ true
    pub method : is_utf8 0 at.1.method ≡ true
    pub path : is_utf8 0 at.1.path ≡ true
    pub address : is_utf8 0 (extract_client_ip u.split_host at.1) ≡ true

  serve-IsReadable :
      (w : Moment) (r : Request) (s : Server)
      → site.audited ≡ true
      → IsClear (w, r)
      → All IsReadable s.log
      → All IsReadable (serve u site w r s).0.log
  unfolding serve logged middleware
  serve-IsReadable w r s on clear h =
      rw (on, guarded-log u site w r s)
        (All-append _ s.log _ h (
          record {
            timestamp = clear.time;
            method = clear.method;
            path = clear.path;
            source_ip = clear.address;
          },
          tt,
        ))

  serve_all-IsReadable :
      (requests : List (Moment × Request)) (s : Server)
      → site.audited ≡ true
      → All IsClear requests
      → All IsReadable s.log
      → All IsReadable (serve_all u site requests s).log
  unfolding serve_all
  serve_all-IsReadable [] s on clear h = h
  serve_all-IsReadable ((w, r) ∷ requests) s on clear h =
      serve_all-IsReadable requests (serve u site w r s).0 on clear.1
        (serve-IsReadable w r s on clear.0 h)

  -- Where the audit log could be opened on a file that ends with a newline, the file read line by line
  -- has, behind what it had, for each request the method, the path and the status of the answer, in the
  -- order of the requests, and nothing else, if the method, the path, the address of the client and the
  -- time in print are in UTF-8, and the requests are the first to the server.
  pub serve_all-file :
      (requests : List (Moment × Request)) (s : Server) (l : Logger)
      → site.audited ≡ true
      → s.log ≡ []
      → l.is_open ≡ true
      → (cut_lines l.file).1 ≡ []
      → All IsClear requests
      → map read_line (cut_lines (log_all (serve_all u site requests s).log l).file).0
        ≡ map read_line (cut_lines l.file).0 ++ map some (lines u site requests s)
  serve_all-file requests s l on new opened whole clear =
      let after : List Entry = (serve_all u site requests s).log in
      let before : List Str = (cut_lines l.file).0 in
      let readable = serve_all-IsReadable requests s on clear (rw (new) tt) in
      sym (map-map shown read_entry (cut_lines (log_all after l).file).0)
      ∙ ap (map shown) (log_all-entries after l opened whole readable)
      ∙ map-append shown (map read_entry before) (map some after)
      ∙ ap (λ t. t ++ map shown (map some after)) (map-map shown read_entry before)
      ∙ ap (λ t. map read_line before ++ t)
          (map-map shown some after
            ∙ sym (map-map some line_of after)
            ∙ ap (map some) (
                serve_all-lines u site requests s on
                ∙ ap (λ t. map line_of t ++ lines u site requests s) new))
