-- ===== src/Session/Pump/Rising.antt =====
-- The numbers of the listeners of a session, in the small steps of the pump.
use web_terminal.Prelude.{ℕ, suc, ◌≤◌, ◌<◌, ◌≡◌, refl, true, List, [], ◌∷◌, Bytes, All, arith}
use web_terminal.Prelude.Int.{ℤ}
use web_terminal.Session.{
  Listener, Session, Action, outputs, exits_now, attaches, detaches, client_closes, reaps, writes,
  resizes, delivers, new_listener, receives, pump_end, mark_exited, attach, remove_listener,
  mark_client_closed, kill_if_idle, write, resize, act,
}
use web_terminal.Session.Exits.{
  Between, Between-le, Between-snoc, Between-delete, numbers, numbers-snoc, numbers-deliver,
}
use web_terminal.Session.Pump.{enqueue_to, is_other}

-- The numbers of the listeners rise, below the next one.
abbrev pub Rising : Session → Type 0
Rising s = Between 0 s.next_listener (numbers s.listeners)

pub numbers-enqueue_to :
    (n : ℕ) (o : ℤ) (c : Bytes) (ls : List Listener) → numbers (enqueue_to n o c ls) ≡ numbers ls
unfolding enqueue_to receives
numbers-enqueue_to n o c [] = refl
numbers-enqueue_to n o c (l ∷ ls) = ground (arith, numbers-enqueue_to n o c ls)

pub act-Rising :
    (s : Session) (now : ℕ) (a : Action)
    → is_other a ≡ true
    → Rising s
    → Rising (act s now a) × (s.next_listener ≤ (act s now a).next_listener)
unfolding act pump_end mark_exited attach remove_listener mark_client_closed kill_if_idle write
    resize
act-Rising s now (outputs chunk) other v = cc
act-Rising s now exits_now other v = ground arith
act-Rising s now attaches other v = (
  rw (numbers-snoc s.listeners (new_listener s))
      (Between-snoc 0 s.next_listener (numbers s.listeners) v),
  omega arith,
)
act-Rising s now (detaches m) other v =
    ground (arith, Between-delete m 0 s.next_listener s.listeners v)
act-Rising s now (client_closes grace) other v = ground arith
act-Rising s now (reaps grace) other v = ground arith
act-Rising s now (writes bytes) other v = ground arith
act-Rising s now (resizes cols rows) other v = ground arith
act-Rising s now (delivers m e) other v = ground (arith, numbers-deliver m e s.listeners)

pub Rising-below :
    (s : Session) → Rising s → All (λ (l : Listener). l.number < s.next_listener) s.listeners
Rising-below s v = below 0 s.listeners v
  where
    below :
        (lo : ℕ) (ls : List Listener)
        → Between lo s.next_listener (numbers ls)
        → All (λ (l : Listener). l.number < s.next_listener) ls
    below lo [] v = tt
    below lo (l ∷ ls) v =
        (Between-le (suc l.number) s.next_listener (numbers ls) v.1, below (suc l.number) ls v.1)
