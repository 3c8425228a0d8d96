-- ===== src/Shared/Serving.antt =====
-- Any number of connections, each served by the loop of ServeWS over one store: they read their messages
-- in any order, deliveries fail, processes go on, and the reaper ticks.
pub mod Kept
use web_terminal.Prelude.{
  ℕ, ◌≡◌, ◌≢◌, refl, sym, ap, ◌∙◌, ◌⊎◌, inl, inr, true, false, Option, none, some, List, [], ◌∷◌,
  Bytes, All, ◌==◌, if◌then◌else◌, arith, some_inj, Bool-cases, subst,
}
use web_terminal.Protocol.{ClientControl, Error}
use web_terminal.Pty.{Options}
use web_terminal.Session.{Action, exits_now, act}
use web_terminal.Store.{Store, reap}
use web_terminal.Hello.{Conn}
use web_terminal.Connection.{Serve, new_serve, Incoming, serve_one, on_error}
use web_terminal.Shared.{
  Shared, Cause, connection, process, reaper, Step, tick, goes_on, new_shared, Run, here, later,
  at_session, is_process,
}
use web_terminal.Shared.Owned.{IsSound}
use web_terminal.Shared.Sound.{Step-IsSound, Run-IsSound}
use web_terminal.Shared.Spared.{IsServed}
use web_terminal.Shared.Served.{Step-owner, listener_kept}
use web_terminal.Shared.Runs.{Owns, IsRun}
use web_terminal.Shared.Handlers.{HasRun, other_steps}

-- A connection as it finds the store.
abbrev pub over : Shared → Serve → Serve
over w v = record v { store = w.store }

abbrev pub set : ℕ → Serve → (ℕ → Serve) → ℕ → Serve
set i v peers j = if i == j then v else peers j

module _ (spawn : Options → Option ℕ) (env default_command : List Bytes)
    (unmarshal : Bytes → Option ClientControl) (show : Error → Bytes) where
  -- The store where a run of a connection's steps has ended.
  abbrev pub ended :
      {w : Shared} {i : ℕ} {st : Store} {c : Conn} → IsRun spawn env w i st c → Shared
  ended {st = st} r = record { store = st; owner = r.owner; issued = r.issued }

  -- A turn: a connection reads a message, a delivery of a connection fails, the reaper ticks, or a process
  -- goes on. The store moves by the connection's own steps to where its handler leaves it.
  pub data Turn (w : Shared) (peers : ℕ → Serve) : Cause → Shared → (ℕ → Serve) → Type 0 where
    reads :
        (i now : ℕ) (new : Bytes) (m : Incoming)
        → w.issued new ≡ false
        → (r : HasRun spawn env w i
            (serve_one spawn env default_command unmarshal show now new m (over w (peers i))))
        → Turn w peers (connection i) (ended r) (
            set i
              (serve_one spawn env default_command unmarshal show now new m (over w (peers i)))
              peers)
    fails :
        (i now : ℕ) (id : Bytes) (n : ℕ)
        → w.owner id n ≡ some i
        → (r : HasRun spawn env w i (on_error now id n (over w (peers i))))
        → Turn w peers (connection i) (ended r) (set i (on_error now id n (over w (peers i))) peers)
    ticks : (now : ℕ) → Turn w peers reaper (record w { store = (reap w.store now).0 }) peers
    proceeds :
        (now : ℕ) (id : Bytes) (a : Action)
        → is_process a ≡ true
        → Turn w peers (process id a) (at_session id (λ s. act s now a) w) peers

  pub data Turns (w : Shared) (peers : ℕ → Serve) : List Cause → Shared → (ℕ → Serve) → Type 0 where
    at_first : Turns w peers [] w peers
    then_turns :
        {cs : List Cause} {c : Cause} {u u' : Shared} {q q' : ℕ → Serve}
        → Turns w peers cs u q
        → Turn u q c u' q'
        → Turns w peers (c ∷ cs) u' q'

-- The store is sound, and the listener that each connection shows is its own.
pub record IsServing (w : Shared) (peers : ℕ → Serve) : Type 0 where
  pub sound : IsSound w
  pub owns : (i : ℕ) → Owns w.owner i (peers i).conn.current

-- A server that has just started, whatever connections come.
new_serve-IsServing :
    (st : Store) → st.sessions ≡ [] → IsServing (new_shared st) (λ i. new_serve st)
new_serve-IsServing st none_yet = record {
  sound = Run-IsSound (λ o. none) [] st none_yet here;
  owns = λ i. tt;
}
