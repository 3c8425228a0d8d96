-- ===== src/Shared.antt =====
-- The server while it serves any number of connections: the store that ServeWS, handleHello, the pumps
-- of internal/session/store.go and the reaper share. Each operation that takes a lock is one step, and
-- the steps of all of them come in any order.
pub mod Owned
pub mod Sound
pub mod Spared
pub mod Served
pub mod Runs
pub mod Joining
pub mod Handlers
pub mod Serving
use web_terminal.Prelude.{
  ℕ, ◌≡◌, Bool, true, false, ◌&&◌, ◌||◌, Option, none, some, List, [], ◌∷◌, Bytes, ◌==◌,
  if◌then◌else◌,
}
use web_terminal.Prelude.Text.{str_eq}
use web_terminal.Pty.{Options}
use web_terminal.Session.{
  Session, Action, outputs, exits_now, attaches, detaches, client_closes, reaps, writes, resizes,
  delivers, attach, remove_listener, act,
}
use web_terminal.Store.{Store, lookup, update, start_session, reap}

-- The store, and what has happened: which connection attached the listener of a number to a session,
-- and the ids that were given to sessions.
pub record Shared : Type 0 where
  pub store : Store
  pub owner : Bytes → ℕ → Option ℕ
  pub issued : Bytes → Bool

-- A server that has just started.
abbrev pub new_shared : Store → Shared
new_shared st = record { store = st; owner = λ id n. none; issued = λ id. false }

-- Whose step it is: a connection's, one of the process of a session, of its pump and of the deliveries,
-- or the reaper's.
pub data Cause : Type 0 where
  connection : ℕ → Cause
  process : Bytes → Action → Cause
  reaper : Cause

abbrev pub own : Bytes → ℕ → ℕ → (Bytes → ℕ → Option ℕ) → Bytes → ℕ → Option ℕ
own id n i owner j m = if str_eq id j && n == m then some i else owner j m

abbrev pub issue : Bytes → (Bytes → Bool) → Bytes → Bool
issue id issued j = str_eq id j || issued j

-- What a connection does to a session besides attach and detach.
abbrev pub is_client : Action → Bool
is_client (outputs chunk) = false
is_client exits_now = false
is_client attaches = false
is_client (detaches n) = false
is_client (client_closes grace) = true
is_client (reaps grace) = false
is_client (writes bytes) = true
is_client (resizes cols rows) = true
is_client (delivers n e) = false

-- What the process, its pump and the goroutines of the deliveries do to it.
abbrev pub is_process : Action → Bool
is_process (outputs chunk) = true
is_process exits_now = true
is_process attaches = false
is_process (detaches n) = false
is_process (client_closes grace) = false
is_process (reaps grace) = false
is_process (writes bytes) = false
is_process (resizes cols rows) = false
is_process (delivers n e) = true

abbrev pub sessions_of : Shared → List (Bytes × Session)
sessions_of w = w.store.sessions

abbrev pub at_session : Bytes → (Session → Session) → Shared → Shared
at_session id f w = record w {
  store = record (w.store) { sessions = update id f w.store.sessions };
}

-- A step, with whose it is. An id of newID has not been issued before; a connection detaches only a
-- listener that it has attached, when it moves on, when it ends, or when its delivery fails.
pub data Step (spawn : Options → Option ℕ) (env : List Bytes) (w : Shared)
    : Cause → Shared → Type 0 where
  hello_reaps :
      (i now : ℕ) → Step spawn env w (connection i) (record w { store = (reap w.store now).0 })
  tick : (now : ℕ) → Step spawn env w reaper (record w { store = (reap w.store now).0 })
  starts :
      (i now : ℕ) (id : Bytes) (command : List Bytes) (cols rows : ℕ) (title : Bytes) (s : Session)
      (st : Store)
      → w.issued id ≡ false
      → start_session spawn env w.store id now command cols rows title ≡ some (s, st)
      → Step spawn env w (connection i) (record w { store = st; issued = issue id w.issued })
  attaches_to :
      (i : ℕ) (id : Bytes) (s : Session)
      → lookup id w.store.sessions ≡ some s
      → Step spawn env w
          (connection i)
          (record (at_session id attach w) { owner = own id s.next_listener i w.owner })
  -- The session was found, but a reap took it out of the map before the attach: what the connection
  -- does with it is outside the store.
  attaches_late :
      (i : ℕ) (id : Bytes) → lookup id w.store.sessions ≡ none → Step spawn env w (connection i) w
  detaches_from :
      (i now : ℕ) (id : Bytes) (n : ℕ)
      → w.owner id n ≡ some i
      → Step spawn env w (connection i) (at_session id (λ s. remove_listener s now n) w)
  uses :
      (i now : ℕ) (id : Bytes) (a : Action)
      → is_client a ≡ true
      → Step spawn env w (connection i) (at_session id (λ s. act s now a) w)
  goes_on :
      (now : ℕ) (id : Bytes) (a : Action)
      → is_process a ≡ true
      → Step spawn env w (process id a) (at_session id (λ s. act s now a) w)

-- A run, the last step first in the list of what caused it.
pub data Run (spawn : Options → Option ℕ) (env : List Bytes) (w : Shared)
    : List Cause → Shared → Type 0 where
  here : Run spawn env w [] w
  later :
      {cs : List Cause} {c : Cause} {u v : Shared}
      → Run spawn env w cs u
      → Step spawn env u c v
      → Run spawn env w (c ∷ cs) v
