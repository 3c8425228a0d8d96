-- ===== src/Connection.antt =====
-- ServeWS of internal/web/ws.go: the read loop of a connection with its cleanup. The session of a
-- connection is found in the store by its id: one that was reaped away is not followed further.
pub mod Loop
pub mod Readings
pub mod Rounds
pub mod Ends
pub mod Effects
pub mod Race
pub mod Sent
use web_terminal.Prelude.{
  ℕ, Bool, true, false, Option, none, some, List, [], ◌∷◌, ◌++◌, Bytes, if◌then◌else◌,
}
use web_terminal.Prelude.Int.{to_u16}
use web_terminal.Prelude.Text.{codes, str_eq}
use web_terminal.Protocol.{ClientControl, Error, ok, err, parse_client_control, decode_input}
use web_terminal.Pty.{Options}
use web_terminal.Session.{Session, remove_listener, mark_client_closed, write, resize}
use web_terminal.Store.{Store, update}
use web_terminal.Hello.{Message, control, blank, Conn, detached, handle_hello}

-- The status of conn.Close; the first one counts.
pub data CloseStatus : Type 0 where
  normal_closure policy_violation try_again_later : CloseStatus

-- A connection with its store: the messages that the loop sends (those of its listener are the frames of
-- its `Runner` and the session's `exits`), whether closeOnce is done, the status with which
-- the server closed it, and whether the loop has returned.
pub record Serve : Type 0 where
  pub store : Store
  pub conn : Conn
  pub sent : List Message
  pub cleaned : Bool
  pub closed : Option CloseStatus
  pub done : Bool

abbrev pub new_serve : Store → Serve
new_serve st = record {
  store = st;
  conn = record { current = none };
  sent = [];
  cleaned = false;
  closed = none;
  done = false;
}

-- What conn.Read returns; an error with whether the peer sent a close frame.
pub data Incoming : Type 0 where
  text : Bytes → Incoming
  binary_frame : Bytes → Incoming
  read_fails : Bool → Incoming

-- What happens on a connection that is served: a read of the loop, with the time and what newID would
-- return, or an error of the delivery of a listener of a session, from that listener's goroutine.
pub data Happening : Type 0 where
  reads : ℕ → Bytes → Incoming → Happening
  delivery_fails : ℕ → Bytes → ℕ → Happening

unfoldable pub close_with : CloseStatus → Serve → Serve
close_with status v = record v {
  closed = elim v.closed [ none ↦ some status | some first ↦ some first ];
}

-- An operation on the session that the connection shows, if it shows one.
unfoldable pub on_current : (Session → Session) → Serve → Serve
on_current f v = elim v.conn.current [
  | none ↦ v
  | some (id, n) ↦ record v { store = record (v.store) { sessions = update id f v.store.sessions } }
]

-- The closure cleanup.
unfoldable pub cleanup : ℕ → Bool → Serve → Serve
unfolding on_current
cleanup now clean v =
    let left = record v {
      store = record (v.store) { sessions = detached now v.conn.current v.store.sessions };
    } in
    let marked =
      if clean then on_current (λ s. mark_client_closed s v.store.close_grace) left else left in
    if v.cleaned then v else record marked { conn = record { current = none }; cleaned = true }

-- The loop returns: the deferred cleanup, then the deferred Close.
unfoldable pub returns : ℕ → Bool → Serve → Serve
unfolding cleanup close_with
returns now clean v = record (close_with normal_closure (cleanup now clean v)) { done = true }

unfoldable pub send : Message → Serve → Serve
send m v = record v { sent = v.sent ++ m ∷ [] }

-- A message that is not understood: an error message, a Close, a return.
unfoldable pub refuses : ℕ → Bytes → Serve → Serve
unfolding send close_with returns
refuses now message v = returns now false (
    close_with policy_violation
      (send (control (record blank { t = codes "error"; message = message })) v))

-- The delivery of the connection's listener `n` at the session `id` reports an error: it is
-- unregistered, and OnError runs.
unfoldable pub on_error : ℕ → Bytes → ℕ → Serve → Serve
unfolding cleanup close_with
on_error now id n v = close_with try_again_later (
    cleanup now false (record v {
      store = record (v.store) {
        sessions = update id (λ s. remove_listener s now n) v.store.sessions;
      };
    }))

-- `unmarshal` is json.Unmarshal, `show` the text of an error.
module _ (spawn : Options → Option ℕ) (env default_command : List Bytes)
    (unmarshal : Bytes → Option ClientControl) (show : Error → Bytes) where
  -- The switch on the type of a control message; `id` is what newID would return.
  unfoldable pub serve_control : ℕ → Bytes → ClientControl → Serve → Serve
  unfolding on_current send
  serve_control now id c v =
      if str_eq c.t (codes "hello")
      then (let (st, conn, messages) =
            handle_hello spawn env default_command v.store v.conn c id now in
          record v { store = st; conn = conn; sent = v.sent ++ messages })
      else if str_eq c.t (codes "resize")
      then on_current (λ s. resize s (to_u16 c.cols) (to_u16 c.rows)) v
      else if str_eq c.t (codes "ping")
      then send (control (record blank { t = codes "pong" })) v
      else v

  -- A round of the loop.
  unfoldable pub serve_one : ℕ → Bytes → Incoming → Serve → Serve
  unfolding serve_control on_current refuses returns
  serve_one now id (text raw) v = elim (parse_client_control unmarshal raw) [
    | err e ↦ refuses now (show e) v
    | ok c ↦ serve_control now id c v
  ]
  serve_one now id (binary_frame bytes) v = elim (decode_input bytes) [
    | err e ↦ refuses now (show e) v
    | ok payload ↦ on_current (λ s. write s payload) v
  ]
  serve_one now id (read_fails clean) v = returns now clean v

  -- The loop over what is read, each with the time and the next new id.
  unfoldable pub serve_all : List (ℕ × Bytes × Incoming) → Serve → Serve
  unfolding serve_one
  serve_all [] v = v
  serve_all ((now, id, m) ∷ rest) v =
      let next = serve_all rest (serve_one now id m v) in if v.done then v else next

  -- The loop with the errors of deliveries in between and after it.
  unfoldable pub served : List Happening → Serve → Serve
  unfolding serve_one on_error
  served [] v = v
  served (reads now id m ∷ rest) v = served rest (if v.done then v else serve_one now id m v)
  served (delivery_fails now id n ∷ rest) v = served rest (on_error now id n v)

  -- The end of handleWS: whether websocket.Accept has upgraded the request, and what is read then until
  -- ServeWS returns.
  unfoldable upgraded : Bool → List (ℕ × Bytes × Incoming) → Store → Store
  unfolding serve_all
  upgraded false ms st = st
  upgraded true ms st = (serve_all ms (new_serve st)).store
