-- ===== src/Session/Pump/Flow.antt =====
-- How the listeners follow the output of a process while the pump runs in small steps.
use web_terminal.Prelude.{
  ℕ, ◌≤◌, ◌≡◌, refl, inl, inr, Bool, true, false, List, [], ◌∷◌, ◌++◌, arith, ◌==◌, Bool-cases,
  Bytes, length, All, All-append,
}
use web_terminal.Prelude.Int.{pos}
use web_terminal.Replay.History.{Holds}
use web_terminal.Delivery.{step}
use web_terminal.Session.{
  Turn, event_of, Listener, Session, Action, outputs, exits_now, attaches, detaches, client_closes,
  reaps, writes, resizes, delivers, new_listener, pump_end, mark_exited, attach, delete,
  remove_listener, mark_client_closed, kill_if_idle, write, resize, deliver, act,
}
use web_terminal.Session.Exits.{Between, has}
use web_terminal.Session.Following.{IsFollowing}
use web_terminal.Session.Pump.{Pumping, reading, appended, copied, Threads, is_other}
use web_terminal.Session.Pump.Rising.{Rising}

-- The chunk that is in the buffer and not with every listener yet.
abbrev pub pending : Pumping → Bytes
pending reading = []
pending (appended o chunk) = chunk
pending (copied o chunk targets) = chunk

-- Whether a listener with a number will be given that chunk, if it stays.
abbrev pub awaits : ℕ → Pumping → Bool
awaits n reading = false
awaits n (appended o chunk) = true
awaits n (copied o chunk targets) = has n targets

-- The offset that goes with the chunk, after the output `d`, and the listeners still to be served.
abbrev pub InPlace : Bytes → ℕ → Pumping → Type 0
InPlace d next reading = Unit {0}
InPlace d next (appended o chunk) = o ≡ pos (length d)
InPlace d next (copied o chunk targets) =
    (o ≡ pos (length d)) × ((lo : ℕ) × (hi : ℕ) × Between lo hi targets × (hi ≤ next))

pub InPlace-later :
    (d : Bytes) (next next' : ℕ) (pump : Pumping)
    → next ≤ next'
    → InPlace d next pump
    → InPlace d next' pump
InPlace-later d next next' reading le v = tt
InPlace-later d next next' (appended o chunk) le v = v
InPlace-later d next next' (copied o chunk targets) le (same, (lo, hi, rising, high)) =
    (same, (lo, hi, rising, omega arith))

module _ (P : Bytes → Listener → Type 0) (low : ℕ) (laws : IsFollowing P low) where
  -- A listener that awaits the chunk has the property for the output before it, any other for all.
  abbrev pub At : Bytes → Pumping → Listener → Type 0
  At d pump l =
      (awaits l.number pump ≡ true → P d l)
      × (awaits l.number pump ≡ false → P (d ++ pending pump) l)

  -- The buffer holds the output `d` and the chunk after it, and every listener is where it should be.
  pub record Underway (d : Bytes) (p : Threads) : Type 0 where
    pub holds : Holds p.session.buffer (d ++ pending p.pump)
    pub follow : All (At d p.pump) p.session.listeners
    pub later : low ≤ p.session.next_listener
    pub rising : Rising p.session
    pub place : InPlace d p.session.next_listener p.pump

  At-turn :
      (d : Bytes) (pump : Pumping) (e : Turn) (l : Listener)
      → At d pump l
      → At d pump (record l { runner = step l.runner (event_of e) })
  At-turn d pump e l (waits, served) =
      ((λ b. laws.turns d e l (waits b)), λ b. laws.turns (d ++ pending pump) e l (served b))

  deliver-At :
      (d : Bytes) (pump : Pumping) (n : ℕ) (e : Turn) (ls : List Listener)
      → All (At d pump) ls
      → All (At d pump) (deliver n e ls)
  unfolding deliver
  deliver-At d pump n e [] v = tt
  deliver-At d pump n e (l ∷ ls) v = elim (Bool-cases (l.number == n)) [
    | inl hit ↦ rw hit (At-turn d pump e l v.0, deliver-At d pump n e ls v.1)
    | inr miss ↦ rw miss (v.0, deliver-At d pump n e ls v.1)
  ]

  delete-At :
      (d : Bytes) (pump : Pumping) (n : ℕ) (ls : List Listener)
      → All (At d pump) ls
      → All (At d pump) (delete n ls)
  unfolding delete
  delete-At d pump n [] v = tt
  delete-At d pump n (l ∷ ls) v = elim (Bool-cases (l.number == n)) [
    | inl hit ↦ rw hit (delete-At d pump n ls v.1)
    | inr miss ↦ rw miss (v.0, delete-At d pump n ls v.1)
  ]

  -- What an action of another goroutine leaves.
  pub act-Follow :
      (d : Bytes) (pump : Pumping) (s : Session) (now : ℕ) (a : Action)
      → is_other a ≡ true
      → All (At d pump) s.listeners
      → low ≤ s.next_listener
      → All (At d pump) (act s now a).listeners × ((act s now a).buffer ≡ s.buffer)
  unfolding act pump_end mark_exited attach remove_listener mark_client_closed kill_if_idle write
      resize
  act-Follow d pump s now (outputs chunk) other v le = cc
  act-Follow d pump s now exits_now other v le = ground arith
  act-Follow d pump s now attaches other v le = (
    All-append (At d pump) s.listeners (new_listener s ∷ []) v
        (((λ b. laws.begins d s le), (λ b. laws.begins (d ++ pending pump) s le)), tt),
    refl,
  )
  act-Follow d pump s now (detaches m) other v le = ground (arith, delete-At d pump m s.listeners v)
  act-Follow d pump s now (client_closes grace) other v le = ground arith
  act-Follow d pump s now (reaps grace) other v le = ground arith
  act-Follow d pump s now (writes bytes) other v le = ground arith
  act-Follow d pump s now (resizes cols rows) other v le = ground arith
  act-Follow d pump s now (delivers m e) other v le = (deliver-At d pump m e s.listeners v, refl)
