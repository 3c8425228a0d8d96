-- ===== src/Session.antt =====
-- Session of internal/session/store.go: a terminal session that outlives any one connection. Each
-- critical section is one step, with the time as an argument. A listener stands for its pointer by
-- its number; its delivery and goroutine are a `Runner`.
pub mod Idle
pub mod Exits
pub mod Pump
pub mod Following
pub mod Output
pub mod Attached
use web_terminal.Prelude.{
  ℕ, suc, ◌+◌, ◌*◌, Bool, true, false, not, ◌&&◌, ◌||◌, Option, none, some, List, [], ◌∷◌, ◌++◌,
  map, Bytes, length, ◌==◌, if◌then◌else◌,
}
use web_terminal.Prelude.Int.{ℤ, pos, sub64, ltb_ℤ, leb_ℤ}
use web_terminal.Pty.{Handle, Ptmx, close, kill, resize_window}
use web_terminal.Replay.{ReplayBuffer, end_offset, append}
use web_terminal.Delivery.{
  Runner, Event, enqueues, stops, wakes, write_returns, returned, step, start_runner,
}

abbrev pub buffer_capacity_bytes : ℕ
buffer_capacity_bytes = 4 * 1024 * 1024

abbrev pub reconnect_tail_bytes : ℕ
reconnect_tail_bytes = 256 * 1024

abbrev pub default_output_queue_bytes : ℕ
default_output_queue_bytes = 2 * 1024 * 1024

pub record Listener : Type 0 where
  pub number : ℕ
  pub runner : Runner

pub record Session : Type 0 where
  pub id : Bytes
  pub title : Bytes
  pub created_at : ℕ
  pub handle : Option Handle
  pub ptmx : Option Ptmx
  pub cols : ℕ
  pub rows : ℕ
  pub alive : Bool
  pub exit_code : ℤ
  pub listeners : List Listener
  pub buffer : ReplayBuffer
  -- the zero time.Time is `none`
  pub idle_since : Option ℕ
  pub idle_grace : ℤ
  -- the calls of onExit so far, and the number of the next listener
  pub exits : List (ℕ × ℤ)
  pub next_listener : ℕ

-- l.delivery.enqueue(offset, payload)
unfoldable pub receives : ℤ → Bytes → Listener → Listener
receives offset payload l = record l { runner = step l.runner (enqueues offset payload) }

unfoldable pub fanout : Session → ℤ → Bytes → Session
fanout s offset payload = record s { listeners = map (receives offset payload) s.listeners }

-- A round of the loop of pump that reads a chunk; the bytes read are never none.
unfoldable pub pump_chunk : Session → Bytes → Session
unfolding fanout
pump_chunk s chunk =
    let offset = end_offset s.buffer in
    fanout (record s { buffer = append s.buffer chunk }) offset chunk

unfoldable pub mark_exited : Session → ℤ → Session
mark_exited s code =
    if s.alive
    then record s {
      alive = false;
      exit_code = code;
      handle = elim s.handle [ none ↦ none | some h ↦ some (close h) ];
      exits = s.exits ++ map (λ l. (l.number, code)) s.listeners;
    }
    else s

-- The end of pump: the read has failed.
unfoldable pub pump_end : Session → Session
unfolding mark_exited
pump_end s = mark_exited s (pos 0)

-- A delivery whose goroutine was not started, since the process had exited.
abbrev pub unstarted : ℕ → Runner
unstarted m = record (start_runner m) { phase = returned }

-- The listener that Attach makes; its number is `next_listener`.
abbrev pub new_listener : Session → Listener
new_listener s = record {
  number = s.next_listener;
  runner =
      if s.alive
      then start_runner default_output_queue_bytes
      else unstarted default_output_queue_bytes;
}

unfoldable pub attach : Session → Session
attach s = record s {
  listeners = s.listeners ++ new_listener s ∷ [];
  idle_since = none;
  idle_grace = pos 0;
  exits = if s.alive then s.exits else s.exits ++ (s.next_listener, s.exit_code) ∷ [];
  next_listener = s.next_listener + 1;
}

-- delete(s.listeners, l)
unfoldable pub delete : ℕ → List Listener → List Listener
delete n [] = []
delete n (l ∷ ls) = if l.number == n then delete n ls else l ∷ delete n ls

abbrev pub is_nil {ℓ} : {A : Type ℓ} → List A → Bool
is_nil [] = true
is_nil (x ∷ xs) = false

-- removeListener, at the time `now`. It is the whole of what a detach or a failed delivery does to
-- the session; the stop of the delivery is `Delivery.stop`.
unfoldable pub remove_listener : Session → ℕ → ℕ → Session
remove_listener s now n =
    let rest = delete n s.listeners in
    if is_nil rest
    then record s { listeners = rest; idle_since = some now; idle_grace = pos 0 }
    else record s { listeners = rest }

abbrev pub is_zero_time : Option ℕ → Bool
is_zero_time none = true
is_zero_time (some t) = false

unfoldable pub mark_client_closed : Session → ℤ → Session
mark_client_closed s grace =
    if not (is_nil s.listeners) || is_zero_time s.idle_since
    then s
    else record s { idle_grace = grace }

-- time.Since(t) >= grace, for a time that is not zero
unfoldable pub idle_for : Option ℕ → ℕ → ℤ → Bool
idle_for none now grace = false
idle_for (some t) now grace = leb_ℤ grace (sub64 (pos now) (pos t))

unfoldable orphaned_for : Session → ℕ → ℤ → Bool
unfolding idle_for
orphaned_for s now grace = idle_for s.idle_since now grace

-- The grace that applies to the current idle period.
unfoldable pub applicable_grace : Session → ℤ → ℤ
applicable_grace s default_grace =
    if leb_ℤ s.idle_grace (pos 0) then default_grace else s.idle_grace

unfoldable pub kill_if_idle : Session → ℕ → ℤ → Bool × Session
kill_if_idle s now default_grace =
    let grace = applicable_grace s default_grace in
    if leb_ℤ grace (pos 0) || not (idle_for s.idle_since now grace)
    then (false, s)
    else (true, record s { handle = elim s.handle [ none ↦ none | some h ↦ some (kill h) ] })

abbrev pub is_closed : Option Handle → Bool
is_closed none = false
is_closed (some h) = h.closed

-- A call on the pseudo-terminal's file. Once its handle is closed it fails, and the error is dropped.
unfoldable pub on_file : (Ptmx → Ptmx) → Session → Option Ptmx
on_file f s =
    if is_closed s.handle then s.ptmx else elim s.ptmx [ none ↦ none | some t ↦ some (f t) ]

unfoldable pub write : Session → Bytes → Session
unfolding on_file
write s bytes =
    if s.alive
    then record s { ptmx = on_file (λ f. record f { input = f.input ++ bytes }) s }
    else s

unfoldable pub resize : Session → ℕ → ℕ → Session
unfolding on_file resize_window
resize s cols rows = record s {
  cols = cols;
  rows = rows;
  ptmx = on_file (λ f. resize_window f cols rows) s;
}

-- What the goroutine of a listener and its owner do to a delivery.
pub data Turn : Type 0 where
  woken : Turn
  write_done : Bool → Turn
  halted : Turn

abbrev pub event_of : Turn → Event
event_of woken = wakes
event_of (write_done ok) = write_returns ok
event_of halted = stops

-- What can happen to a session, at a time. The pump returns when it marks the exit: it outputs
-- nothing after that.
pub data Action : Type 0 where
  outputs : Bytes → Action
  exits_now : Action
  attaches : Action
  detaches : ℕ → Action
  client_closes : ℤ → Action
  reaps : ℤ → Action
  writes : Bytes → Action
  resizes : ℕ → ℕ → Action
  delivers : ℕ → Turn → Action

-- A step of the goroutine of a listener.
unfoldable pub deliver : ℕ → Turn → List Listener → List Listener
deliver n e [] = []
deliver n e (l ∷ ls) =
    (if l.number == n then record l { runner = step l.runner (event_of e) } else l) ∷ deliver n e ls

unfoldable pub act : Session → ℕ → Action → Session
act s now (outputs chunk) = if s.alive then pump_chunk s chunk else s
act s now exits_now = pump_end s
act s now attaches = attach s
act s now (detaches n) = remove_listener s now n
act s now (client_closes grace) = mark_client_closed s grace
act s now (reaps grace) = (kill_if_idle s now grace).1
act s now (writes bytes) = write s bytes
act s now (resizes cols rows) = resize s cols rows
act s now (delivers n e) = record s { listeners = deliver n e s.listeners }

unfoldable pub acts : Session → List (ℕ × Action) → Session
acts s [] = s
acts s ((now, a) ∷ rest) = acts (act s now a) rest
