-- ===== src/Routes/Fresh.antt =====
-- With WT_NO_CACHE, what a browser has in its cache does not change an answer.
use web_terminal.Prelude.{◌≡◌, ◌≢◌, refl, true, false, [], ◌∷◌, Bytes}
use web_terminal.Prelude.Text.{codes}
use web_terminal.Store.{Store}
use web_terminal.Config.{Config, is_blank}
use web_terminal.Routes.{
  Headers, Request, Handler, del_header, set_header, no_stale_cache, handle_health, handle_config,
  handle_ws, handle_files, handle,
}

-- Without the headers that ask for an answer only if the file has changed.
abbrev pub unconditional : Headers → Headers
unconditional hs = del_header (codes "If-None-Match") (del_header (codes "If-Modified-Since") hs)

-- Two requests that differ in nothing but these headers.
abbrev pub SameButValidators : Request → Request → Type 0
SameButValidators r q =
    (r.method ≡ q.method) × (r.path ≡ q.path) × (unconditional r.headers ≡ unconditional q.headers)

module _ (files : Bytes → Handler) (cfg : Config) (r q : Request) (hs : Headers)
    (same : SameButValidators r q) where
  files_same :
      cfg.no_cache ≡ true
      → cfg.static_dir ≢ []
      → handle_files files cfg r hs ≡ handle_files files cfg q hs
  unfolding handle_files no_stale_cache
  files_same on served = simp (on, not_blank cfg.static_dir served) (same_file same.0 same.1 same.2)
    where
      not_blank : (s : Bytes) → s ≢ [] → is_blank s ≡ false
      not_blank [] some = absurd (some refl)
      not_blank (c ∷ cs) some = refl

      same_file :
          r.method ≡ q.method
          → r.path ≡ q.path
          → unconditional r.headers ≡ unconditional q.headers
          → files cfg.static_dir
              (record r { headers = unconditional r.headers })
              (set_header (codes "Cache-Control") (codes "no-cache") hs)
            ≡ files cfg.static_dir
                (record q { headers = unconditional q.headers })
                (set_header (codes "Cache-Control") (codes "no-cache") hs)
      same_file m p v = cc

-- With static files served and WT_NO_CACHE set, two requests that differ in nothing but
-- If-Modified-Since and If-None-Match get the same reply on every path, whatever the file server
-- does: a browser with an old copy of a file is answered like one with none.
pub validators_ignored :
    (files : Bytes → Handler) (cfg : Config) (st : Store) (r q : Request) (hs : Headers)
    → cfg.no_cache ≡ true
    → cfg.static_dir ≢ []
    → SameButValidators r q
    → handle files cfg st r hs ≡ handle files cfg st q hs
unfolding handle handle_health handle_config handle_ws
validators_ignored files cfg st r q hs on served same =
    simp (same.0, same.1, files_same files cfg r q hs same on served)
