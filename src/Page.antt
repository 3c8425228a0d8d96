-- ===== src/Page.antt =====
-- TerminalConnection of web/connection.js: the socket of the page, its retries, its pings and the session
-- that the browser remembers. Each callback is a function of the page, the time and what it is called
-- with; what it asks of the browser is a list of requests. `jitter` is the product with the random
-- factor, and the callbacks onState, onSession, onLatency and onExit, which only display, are left out.
pub mod Timing
pub mod KeepAlive
pub mod Leaving
pub mod Sessions
use web_terminal.Prelude.{
  ℕ, ◌+◌, ◌-◌, ◌*◌, ◌^◌, Bool, true, false, Option, none, some, List, [], ◌∷◌, ◌++◌, Bytes, min,
  ltb, if◌then◌else◌,
}
use web_terminal.Prelude.Text.{codes, str_eq}
use web_terminal.Protocol.{ServerControl, op_input}
use web_terminal.Client.{Client, handle_binary}
use web_terminal.Hello.{handle_control}

abbrev pub max_backoff_ms : ℕ
max_backoff_ms = 15000

abbrev pub initial_backoff_ms : ℕ
initial_backoff_ms = 300

abbrev pub pong_timeout_ms : ℕ
pong_timeout_ms = 45000

-- encodeInput
unfoldable pub encode_input : Bytes → Bytes
encode_input bytes = op_input ∷ bytes

-- The readyState of a WebSocket.
pub data Ready : Type 0 where
  connecting ready closing shut : Ready

-- The fields of TerminalConnection; `socket` is the state of #ws, `pinging` says whether #pingTimer is
-- set, and `stored` is what sessionStorage holds.
pub record Page : Type 0 where
  pub socket : Option Ready
  pub session_id : Option Bytes
  pub stream : Client
  pub attempts : ℕ
  pub closed : Bool
  pub pinging : Bool
  pub ping_sent_at : ℕ
  pub last_pong_at : ℕ
  pub cols : ℕ
  pub rows : ℕ
  pub stored : Option Bytes

-- What the page asks of the browser.
pub data Request : Type 0 where
  opens : Request
  sends_hello : ℕ → ℕ → Option (Bytes × ℕ) → Request
  sends_ping : Request
  sends_input : Bytes → Request
  sends_resize : ℕ → ℕ → Request
  closes : Request
  waits : ℕ → Request

-- A page that has been loaded, in a browser that holds a session id.
abbrev pub load : Option Bytes → Page
load stored = record {
  socket = none;
  session_id = none;
  stream = record { offset = 0; shown = [] };
  attempts = 0;
  closed = false;
  pinging = false;
  ping_sent_at = 0;
  last_pong_at = 0;
  cols = 80;
  rows = 24;
  stored = stored;
}

-- #open
unfoldable pub open_socket : Page → Page × List Request
open_socket p = (record p { socket = some connecting }, opens ∷ [])

abbrev pub or_else {ℓ} : {A : Type ℓ} → Option A → Option A → Option A
or_else (some a) b = some a
or_else none b = b

unfoldable pub connect : ℕ → ℕ → Option Bytes → Page → Page × List Request
unfolding open_socket
connect cols rows session_id p = open_socket (record p {
  cols = cols;
  rows = rows;
  session_id = or_else session_id (or_else p.session_id p.stored);
})

abbrev pub is_open : Option Ready → Bool
is_open (some ready) = true
is_open (some connecting) = false
is_open (some closing) = false
is_open (some shut) = false
is_open none = false

-- The hello, with the session and its offset if there is a session.
abbrev pub hello_of : Page → Request
hello_of p =
    sends_hello p.cols p.rows
      (elim p.session_id [ none ↦ none | some id ↦ some (id, p.stream.offset) ])

-- ws.onopen, with #startPing
unfoldable pub on_open : ℕ → Page → Page × List Request
on_open now p =
    (record p { socket = some ready; pinging = true; last_pong_at = now }, hello_of p ∷ [])

-- #handleControl
unfoldable pub on_control : ℕ → ServerControl → Page → Page
on_control now m p =
    let streamed = record p { stream = handle_control p.stream m } in
    if str_eq m.t (codes "welcome")
    then record streamed {
      session_id = some m.session_id;
      stored = some m.session_id;
      attempts = 0;
    }
    else if str_eq m.t (codes "pong")
    then record streamed { last_pong_at = now }
    else if str_eq m.t (codes "exit")
    then record streamed { stored = none }
    else streamed

abbrev pub shuts : Option Ready → Option Ready
shuts none = none
shuts (some connecting) = some closing
shuts (some ready) = some closing
shuts (some closing) = some closing
shuts (some shut) = some shut

-- The delay before a retry, without the random factor.
unfoldable pub backoff : ℕ → ℕ
backoff attempts = min max_backoff_ms (initial_backoff_ms * 2 ^ attempts)

-- A tick of the interval of #startPing.
unfoldable pub on_ping_timer : ℕ → Page → Page × List Request
on_ping_timer now p =
    if is_open p.socket
    then if ltb pong_timeout_ms (now - p.last_pong_at)
      then (record p { socket = shuts p.socket }, closes ∷ [])
      else (record p { ping_sent_at = now }, sends_ping ∷ [])
    else (p, [])

-- The timeout of ws.onclose.
unfoldable pub on_retry : Page → Page × List Request
unfolding open_socket
on_retry p = if p.closed then (p, []) else open_socket p

unfoldable pub send_input : Bytes → Page → List Request
send_input bytes p = if is_open p.socket then sends_input (encode_input bytes) ∷ [] else []

unfoldable pub send_resize : ℕ → ℕ → Page → Page × List Request
send_resize cols rows p = (
  record p { cols = cols; rows = rows },
  if is_open p.socket then sends_resize cols rows ∷ [] else [],
)

unfoldable pub close : Page → Page × List Request
close p = (
  record p { closed = true; pinging = false; socket = shuts p.socket },
  elim p.socket [ none ↦ [] | some r ↦ closes ∷ [] ],
)

-- What happens to a page after its connect. The interval runs while it is set.
pub data Event : Type 0 where
  opened : Event
  control_comes : ServerControl → Event
  binary_comes : Bytes → Event
  closed_socket : Event
  ping_timer : Event
  retry_timer : Event
  types : Bytes → Event
  resizes : ℕ → ℕ → Event
  leaves : Event

module _ (jitter : ℕ → ℕ) where
  -- ws.onclose, with #stopPing
  unfoldable pub on_close : Page → Page × List Request
  unfolding backoff
  on_close p =
      let stopped = record p { socket = some shut; pinging = false } in
      if p.closed
      then (stopped, [])
      else (record stopped { attempts = p.attempts + 1 }, waits (jitter (backoff p.attempts)) ∷ [])

  unfoldable pub happens : ℕ → Event → Page → Page × List Request
  unfolding on_close on_open on_control on_ping_timer on_retry send_input send_resize close
  happens now opened p = on_open now p
  happens now (control_comes m) p = (on_control now m p, [])
  happens now (binary_comes bytes) p = (record p { stream = handle_binary p.stream bytes }, [])
  happens now closed_socket p = on_close p
  happens now ping_timer p = if p.pinging then on_ping_timer now p else (p, [])
  happens now retry_timer p = on_retry p
  happens now (types bytes) p = (p, send_input bytes p)
  happens now (resizes cols rows) p = send_resize cols rows p
  happens now leaves p = close p

  -- What happens in turn, each at its time: the page, and all that it has asked for.
  unfoldable pub happens_all : List (ℕ × Event) → Page → Page × List Request
  unfolding happens
  happens_all [] p = (p, [])
  happens_all ((now, e) ∷ es) p =
      let (q, asked) = happens now e p in let (r, later) = happens_all es q in (r, asked ++ later)
