-- ===== src/Store.antt =====
-- Store of internal/session/store.go: the live sessions by id, and the reaper. A map is a list of
-- pairs with one pair for a key; the file system, the clock and the random ids are arguments.
pub mod Maps
pub mod Reaping
pub mod Ticks
pub mod Starting
pub mod Buffers
pub mod Order
use web_terminal.Prelude.{
  ℕ, suc, ◌+◌, ◌-◌, ◌/◌, ◌%◌, ltb, Bool, true, false, not, ◌&&◌, ◌||◌, Option, none, some, List, [],
  ◌∷◌, ◌++◌, map, Bytes, length, if◌then◌else◌,
}
use web_terminal.Prelude.Int.{ℤ, pos}
use web_terminal.Prelude.Text.{str_eq}
use web_terminal.Pty.{Options, Handle, Ptmx, start}
use web_terminal.Replay.{ReplayBuffer, new_replay_buffer}
use web_terminal.Session.{Session, buffer_capacity_bytes, pump_end, kill_if_idle}

pub record Store : Type 0 where
  pub sessions : List (Bytes × Session)
  pub default_command : List Bytes
  pub files_root : Bytes
  pub idle_grace : ℤ
  pub close_grace : ℤ

unfoldable pub new_store : List Bytes → Bytes → Store
new_store default_command files_root = record {
  sessions = [];
  default_command = default_command;
  files_root = files_root;
  idle_grace = pos 0;
  close_grace = pos 0;
}

module _ {ℓ} {V : Type ℓ} where
  unfoldable pub lookup : Bytes → List (Bytes × V) → Option V
  lookup k [] = none
  lookup k ((j, v) ∷ m) = if str_eq j k then some v else lookup k m

  -- m[k] = v
  unfoldable pub insert : Bytes → V → List (Bytes × V) → List (Bytes × V)
  insert k v [] = (k, v) ∷ []
  insert k v ((j, w) ∷ m) = if str_eq j k then (k, v) ∷ m else (j, w) ∷ insert k v m

-- The buffer that a session starts with.
abbrev pub new_buffer : ReplayBuffer
new_buffer = record { capacity = buffer_capacity_bytes; chunks = []; stored = 0; end_at = pos 0 }

unfoldable pub new_session : Bytes → Bytes → ℕ → Handle → ℕ → ℕ → Session
new_session id title now handle cols rows = record {
  id = id;
  title = title;
  created_at = now;
  handle = some handle;
  ptmx = some (record { input = []; window = (cols, rows) });
  cols = cols;
  rows = rows;
  alive = true;
  exit_code = pos 0;
  listeners = [];
  buffer = new_buffer;
  idle_since = some now;
  idle_grace = pos 0;
  exits = [];
  next_listener = 0;
}

-- StartSession at the time `now`: `env` is SessionEnv(), `id` is newID(); `none` is the error of
-- pty.Start.
module _ (spawn : Options → Option ℕ) (env : List Bytes) where
  unfoldable pub start_session :
      Store → Bytes → ℕ → List Bytes → ℕ → ℕ → Bytes → Option (Session × Store)
  start_session st id now command cols rows title =
      elim (start spawn
        (record { command = command; cols = cols; rows = rows; cwd = []; env = env })) [
          | none ↦ none
          | some handle ↦
              let s = new_session id title now handle cols rows in
              some (s, record st { sessions = insert id s st.sessions })
        ]

unfoldable pub get_live : Store → Bytes → Option Session
get_live st id = elim (lookup id st.sessions) [
  | none ↦ none
  | some s ↦ if s.alive then some s else none
]

-- Reap visits a session: whether it stays in the map, and the session after the visit.
unfoldable pub visit : ℕ → ℤ → Session → Bool × Session
visit now grace s =
    if s.alive then (let (killed, t) = kill_if_idle s now grace in (not killed, t)) else (false, s)

-- The loop of Reap over the map.
unfoldable pub reap_sessions : ℕ → ℤ → List (Bytes × Session) → List (Bytes × Session)
reap_sessions now grace [] = []
reap_sessions now grace ((id, s) ∷ m) =
    if (visit now grace s).0
    then (id, (visit now grace s).1) ∷ reap_sessions now grace m
    else reap_sessions now grace m

-- The sessions that the loop takes out of the map: the exited ones, and those that it killed.
unfoldable pub reaped_sessions : ℕ → ℤ → List (Bytes × Session) → List Session
reaped_sessions now grace [] = []
reaped_sessions now grace ((id, s) ∷ m) =
    if (visit now grace s).0
    then reaped_sessions now grace m
    else (visit now grace s).1 ∷ reaped_sessions now grace m

-- Reap at the time `now`: the store, and the sessions that were taken out of it.
unfoldable pub reap : Store → ℕ → Store × List Session
reap st now = (
  record st { sessions = reap_sessions now st.idle_grace st.sessions },
  reaped_sessions now st.idle_grace st.sessions,
)

unfoldable pub list : Store → List Session
list st = map (λ (e : Bytes × Session). e.1) st.sessions

-- An action of the session `id`, if the store has it.
unfoldable pub update :
    Bytes → (Session → Session) → List (Bytes × Session) → List (Bytes × Session)
update id f [] = []
update id f ((j, s) ∷ m) = if str_eq j id then (j, f s) ∷ m else (j, s) ∷ update id f m

-- The loop of StartReaper until its context ends, over the times of the ticks.
unfoldable pub reap_ticks : Store → List ℕ → Store
reap_ticks st [] = st
reap_ticks st (now ∷ ticks) = reap_ticks (reap st now).0 ticks

abbrev pub hex_digit : ℕ → ℕ
hex_digit d = if ltb d 10 then b'0' + d else b'a' + (d - 10)

-- hex.EncodeToString
unfoldable pub hex_encode : Bytes → Bytes
hex_encode [] = []
hex_encode (c ∷ cs) = hex_digit (c / 16) ∷ hex_digit (c % 16) ∷ hex_encode cs

-- newID: `random` is what rand.Read gives for eight bytes, `none` its error, and `nanos` the text of
-- the time in nanoseconds.
unfoldable pub new_id : Option Bytes → Bytes → Bytes
unfolding hex_encode
new_id none nanos = nanos
new_id (some random) nanos = hex_encode random
