-- ===== src/Routes.antt =====
-- The HTTP side of internal/web/server.go: Server with its handlers. A request has its headers under
-- their canonical names. net/http's ServeMux redirects a path that is not clean and else takes the
-- longest pattern that fits; its file server and websocket.Accept are outside.
pub mod Fresh
pub mod Health
use web_terminal.Prelude.{
  ℕ, Bool, true, false, not, ◌&&◌, ◌||◌, Option, none, some, List, [], ◌∷◌, ◌++◌, Bytes, length,
  ◌==◌, if◌then◌else◌,
}
use web_terminal.Prelude.Text.{codes, str_eq}
use web_terminal.Session.{Session}
use web_terminal.Store.{Store, list}
use web_terminal.Paths.{clean}
use web_terminal.Config.{Config, Appearance, is_blank}

abbrev pub Headers : Type 0
Headers = List (Bytes × Bytes)

pub record Request : Type 0 where
  pub method : Bytes
  pub path : Bytes
  pub headers : Headers

-- A body: a file's bytes or a text, or a value that encoding/json writes.
pub data Body : Type 0 where
  bytes : Bytes → Body
  health : Bool → ℕ → Body
  appearance : Appearance → Body

pub record Response : Type 0 where
  pub status : ℕ
  pub headers : Headers
  pub body : Body

-- What a handler does with a request, and with the headers that were set before: it answers, it
-- redirects to a path, or it calls websocket.Accept with the origin patterns.
pub data Reply : Type 0 where
  answer : Response → Reply
  redirect : Bytes → Reply
  accept : List Bytes → Reply

abbrev pub Handler : Type 0
Handler = Request → Headers → Reply

-- Header.Del
unfoldable pub del_header : Bytes → Headers → Headers
del_header name [] = []
del_header name ((k, v) ∷ hs) =
    if str_eq k name then del_header name hs else (k, v) ∷ del_header name hs

-- Header.Set
unfoldable pub set_header : Bytes → Bytes → Headers → Headers
unfolding del_header
set_header name v hs = (name, v) ∷ del_header name hs

-- http.Error
unfoldable http_error : Bytes → ℕ → Headers → Reply
unfolding set_header
http_error message status hs = answer (record {
  status = status;
  headers =
      set_header (codes "X-Content-Type-Options") (codes "nosniff")
        (set_header (codes "Content-Type") (codes "text/plain; charset=utf-8") hs);
  body = bytes (message ++ codes "\n");
})

unfoldable pub no_stale_cache : Handler → Handler
unfolding del_header set_header
no_stale_cache next r hs =
    next
      (record r {
        headers =
            del_header (codes "If-None-Match") (del_header (codes "If-Modified-Since") r.headers);
      })
      (set_header (codes "Cache-Control") (codes "no-cache") hs)

unfoldable pub not_found : Handler
unfolding http_error
not_found r hs = http_error (codes "not found") 404 hs

unfoldable pub handle_health : Store → Handler
unfolding set_header
handle_health st r hs = answer (record {
  status = 200;
  headers = set_header (codes "Content-Type") (codes "application/json") hs;
  body = health true (length (list st));
})

unfoldable pub handle_config : Config → Handler
unfolding set_header http_error
handle_config cfg r hs =
    let typed = set_header (codes "Content-Type") (codes "application/json") hs in
    let headers = set_header (codes "Cache-Control") (codes "no-store") typed in
    if not (str_eq r.method (codes "GET")) && not (str_eq r.method (codes "HEAD"))
    then http_error (codes "method not allowed") 405 hs
    else if str_eq r.method (codes "HEAD")
    then answer (record { status = 200; headers = headers; body = bytes [] })
    else answer (record { status = 200; headers = headers; body = appearance cfg.appearance })

-- handleWS up to websocket.Accept: with no patterns the library takes the same origin only.
unfoldable pub handle_ws : Config → Handler
handle_ws cfg r hs = accept cfg.allowed_origins

abbrev pub ends_in_slash : Bytes → Bool
ends_in_slash [] = false
ends_in_slash (c ∷ []) = c == b'/'
ends_in_slash (c ∷ d ∷ cs) = ends_in_slash (d ∷ cs)

-- The path that ServeMux redirects to: cleaned, with a slash at the end if it had one.
unfoldable pub clean_path : Bytes → Bytes
unfolding clean
clean_path [] = codes "/"
clean_path (c ∷ cs) =
    let rooted = if c == b'/' then c ∷ cs else b'/' ∷ c ∷ cs in
    if ends_in_slash rooted && not (str_eq (clean rooted) (codes "/"))
    then clean rooted ++ codes "/"
    else clean rooted

-- The handler of "/"; `files` is http.FileServer of a directory.
module _ (files : Bytes → Handler) where
  unfoldable pub handle_files : Config → Handler
  unfolding no_stale_cache not_found
  handle_files cfg =
      if is_blank cfg.static_dir
      then not_found
      else if cfg.no_cache
      then no_stale_cache (files cfg.static_dir)
      else files cfg.static_dir

  -- Server.Handler
  unfoldable pub handle : Config → Store → Handler
  unfolding handle_files handle_health handle_config handle_ws
  handle cfg st r hs =
      if not (str_eq (clean_path r.path) r.path) && not (str_eq r.method (codes "CONNECT"))
      then redirect (clean_path r.path)
      else if str_eq r.path (codes "/ws")
      then handle_ws cfg r hs
      else if str_eq r.path (codes "/api/health")
      then handle_health st r hs
      else if str_eq r.path (codes "/api/config")
      then handle_config cfg r hs
      else handle_files cfg r hs
