-- ===== src/Hello.antt =====
-- handleHello of internal/web/ws.go: the answer to a client's hello. The messages that it writes are
-- a list; the session it attaches to is in the store under its id, and nothing else happens to the
-- store in between (`Live` and `Reconnect` are about what the pump does meanwhile). The text of an error of
-- StartSession, which the error message ends with, is outside and left out.
pub mod Answer
pub mod Handler
pub mod Live
pub mod Handoff
pub mod Reconnect
pub mod Cut
pub mod Lost
pub mod Journey
pub mod Understood
pub mod Sent
use web_terminal.Prelude.{
  ℕ, suc, ◌+◌, ◌*◌, Bool, true, false, Option, none, some, List, [], ◌∷◌, ◌++◌, Bytes,
  if◌then◌else◌,
}
use web_terminal.Prelude.Int.{ℤ, pos, pos_part, add64, to_u16}
use web_terminal.Prelude.Text.{codes, str_eq}
use web_terminal.Protocol.{ClientControl, ServerControl, encode_output}
use web_terminal.Pty.{Options}
use web_terminal.Replay.{ReplayBuffer, slice_from, tail}
use web_terminal.Snap.{snap_tail}
use web_terminal.Session.{Session, reconnect_tail_bytes, attach, remove_listener, resize}
use web_terminal.Store.{Store, get_live, start_session, reap, insert, update}
use web_terminal.Client.{Client, handle_binary}

abbrev pub reconnect_snap_window_bytes : ℕ
reconnect_snap_window_bytes = 8 * 1024

-- A message to the client.
pub data Message : Type 0 where
  control : ServerControl → Message
  binary : Bytes → Message

abbrev pub blank : ServerControl
blank = record { t = []; session_id = []; offset = none; code = none; message = [] }

abbrev pub welcome : Bytes → ℤ → Message
welcome id offset =
    control (record blank { t = codes "welcome"; session_id = id; offset = some offset })

abbrev pub reset : ℤ → Message
reset offset = control (record blank { t = codes "reset"; offset = some offset })

-- if len(payload) > 0 { writeBinary(EncodeOutput(offset, payload)) }
abbrev pub output_message : ℤ → Bytes → List Message
output_message offset [] = []
output_message offset (x ∷ xs) = binary (encode_output offset (x ∷ xs)) ∷ []

-- The resume path: the offset is in range.
abbrev pub resumed : Bytes → ℤ → Bytes → List Message
resumed id offset bytes = welcome id offset ∷ output_message offset bytes

-- The fresh path: a tail, cut at a safe boundary.
unfoldable pub repainted : Bytes → ReplayBuffer → List Message
repainted id b =
    let (offset, raw) = tail b (pos reconnect_tail_bytes) in
    let (snapped, skipped) = snap_tail raw (pos reconnect_snap_window_bytes) in
    let tail_offset = add64 offset (pos skipped) in
    welcome id tail_offset ∷ reset tail_offset ∷ output_message tail_offset snapped

-- The part of handleHello after the attach; `existing` says that the session was found.
unfoldable pub replay : Bool → Option ℤ → Bytes → ReplayBuffer → List Message
replay false last_offset id b = repainted id b
replay true none id b = repainted id b
replay true (some offset) id b = elim (slice_from b offset) [
  | some bytes ↦ resumed id offset bytes
  | none ↦ repainted id b
]

-- The offset of a message; a welcome and a reset always have one, which is not negative.
abbrev pub offset_or : ℕ → Option ℤ → ℕ
offset_or n none = n
offset_or n (some z) = pos_part z

-- #handleControl of web/connection.js, as far as the stream goes: onReset clears the screen.
unfoldable pub handle_control : Client → ServerControl → Client
handle_control c m =
    if str_eq m.t (codes "welcome")
    then record c { offset = offset_or c.offset m.offset }
    else if str_eq m.t (codes "reset")
    then record { offset = offset_or c.offset m.offset; shown = [] }
    else c

unfoldable pub handle_message : Client → Message → Client
handle_message c (control m) = handle_control c m
handle_message c (binary frame) = handle_binary c frame

unfoldable pub handle_all : Client → List Message → Client
handle_all c [] = c
handle_all c (m ∷ ms) = handle_all (handle_message c m) ms

-- The connection: the session that it shows and its listener there.
pub record Conn : Type 0 where
  pub current : Option (Bytes × ℕ)

-- old(), if there is one.
unfoldable pub detached : ℕ → Option (Bytes × ℕ) → List (Bytes × Session) → List (Bytes × Session)
detached now none m = m
detached now (some (id, n)) m = update id (λ old. remove_listener old now n) m

-- The closure attach of ServeWS without its races: the old listener is detached, the new one kept.
unfoldable pub attach_to : Store → ℕ → Conn → Session → Store × Conn
attach_to st now c s = (
  record st { sessions = update s.id attach (detached now c.current st.sessions) },
  record c { current = some (s.id, s.next_listener) },
)

-- The session of a hello: the one that it names, if that lives, or a new one. `default_command` is
-- DefaultSessionCommand(); `none` is an error of StartSession.
module _ (spawn : Options → Option ℕ) (env default_command : List Bytes) where
  unfoldable pub command_for : Store → List Bytes
  command_for st = elim st.default_command [ [] ↦ default_command | c ∷ cs ↦ c ∷ cs ]

  unfoldable pub find_existing : Store → ClientControl → Option Session
  find_existing st hello = elim hello.session_id [ [] ↦ none | c ∷ cs ↦ get_live st (c ∷ cs) ]

  abbrev pub title_of : List Bytes → Bytes
  title_of [] = []
  title_of (c ∷ cs) = c

  unfoldable pub session_for : Store → ClientControl → Bytes → ℕ → Option (Bool × Session × Store)
  session_for st hello id now = elim (find_existing st hello) [
    | some s ↦ some (true, s, st)
    | none ↦
        elim (start_session spawn env st id now (command_for st) (to_u16 hello.cols)
          (to_u16 hello.rows) (title_of (command_for st))) [
            | none ↦ none
            | some (s, st') ↦ some (false, s, st')
          ]
  ]

  -- handleHello, with the id that newID would return.
  unfoldable pub handle_hello :
      Store → Conn → ClientControl → Bytes → ℕ → Store × Conn × List Message
  handle_hello st c hello id now =
      let st₁ = (reap st now).0 in
      elim (session_for st₁ hello id now) [
        | none ↦ (
          st₁,
          c,
          control (record blank { t = codes "error"; message = codes "failed to start session" })
              ∷ [],
        )
        | some (existing, s, st₂) ↦
            let (st₃, c') = attach_to st₂ now c s in
            let st₄ = record st₃ {
              sessions =
                  update s.id (λ t. resize t (to_u16 hello.cols) (to_u16 hello.rows)) st₃.sessions;
            } in
            (st₄, c', replay existing hello.last_offset s.id s.buffer)
      ]
