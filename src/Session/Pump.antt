-- ===== src/Session/Pump.antt =====
-- pump and fanout of internal/session/store.go in small steps: between the append to the buffer, the
-- copy of the listeners under the mutex, and each enqueue, anything else may happen to the session.
pub mod Rising
pub mod Flow
pub mod Place
pub mod Stages
pub mod Streams
pub mod Whole
use web_terminal.Prelude.{
  ℕ, ◌≡◌, Bool, true, false, List, [], ◌∷◌, ◌++◌, Bytes, ◌==◌, if◌then◌else◌,
}
use web_terminal.Prelude.Int.{ℤ}
use web_terminal.Replay.{append, end_offset}
use web_terminal.Session.{
  Listener, Session, Action, outputs, exits_now, attaches, detaches, client_closes, reaps, writes,
  resizes, delivers, receives, act,
}
use web_terminal.Session.Exits.{numbers}

-- Where the pump is: in a read, after the append of a chunk with the offset before it, or in the loop
-- over the listeners that fanout has copied.
pub data Pumping : Type 0 where
  reading : Pumping
  appended : ℤ → Bytes → Pumping
  copied : ℤ → Bytes → List ℕ → Pumping

pub record Threads : Type 0 where
  pub session : Session
  pub pump : Pumping

-- l.delivery.enqueue(offset, payload) for the listener `n`; one that is not attached any more has
-- been stopped, and takes nothing.
unfoldable pub enqueue_to : ℕ → ℤ → Bytes → List Listener → List Listener
enqueue_to n offset payload [] = []
enqueue_to n offset payload (l ∷ ls) =
    (if l.number == n then receives offset payload l else l) ∷ enqueue_to n offset payload ls

-- The actions that are not the pump's.
abbrev pub is_other : Action → Bool
is_other (outputs chunk) = false
is_other exits_now = true
is_other attaches = true
is_other (detaches n) = true
is_other (client_closes grace) = true
is_other (reaps grace) = true
is_other (writes bytes) = true
is_other (resizes cols rows) = true
is_other (delivers n e) = true

-- A step, with what the process outputs in it.
pub data Step (p : Threads) : Bytes → Threads → Type 0 where
  reads :
      (chunk : Bytes)
      → p.pump ≡ reading
      → p.session.alive ≡ true
      → Step p chunk (record p {
        session = record (p.session) { buffer = append p.session.buffer chunk };
        pump = appended (end_offset p.session.buffer) chunk;
      })
  copies :
      (offset : ℤ) (chunk : Bytes)
      → p.pump ≡ appended offset chunk
      → Step p [] (record p { pump = copied offset chunk (numbers p.session.listeners) })
  enqueues_next :
      (offset : ℤ) (chunk : Bytes) (n : ℕ) (targets : List ℕ)
      → p.pump ≡ copied offset chunk (n ∷ targets)
      → Step p [] (record p {
        session = record (p.session) { listeners = enqueue_to n offset chunk p.session.listeners };
        pump = copied offset chunk targets;
      })
  finishes :
      (offset : ℤ) (chunk : Bytes)
      → p.pump ≡ copied offset chunk []
      → Step p [] (record p { pump = reading })
  -- the exit is marked by the pump, after its loop
  others :
      (now : ℕ) (a : Action)
      → is_other a ≡ true
      → (a ≡ exits_now → p.pump ≡ reading)
      → Step p [] (record p { session = act p.session now a })

pub data Run (p : Threads) : Bytes → Threads → Type 0 where
  here : Run p [] p
  later :
      {out piece : Bytes} {q r : Threads} → Run p out q → Step q piece r → Run p (out ++ piece) r
