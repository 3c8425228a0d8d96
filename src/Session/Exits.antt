-- ===== src/Session/Exits.antt =====
-- Who is told of the exit of a session's process, and how often.
pub mod Steps
use web_terminal.Prelude.{
  ℕ, suc, ◌+◌, ◌≤◌, ◌<◌, ◌≡◌, refl, ap, Bool, true, false, ◌||◌, List, [], ◌∷◌, ◌++◌, map, arith,
  ◌==◌, if◌then◌else◌,
}
use web_terminal.Prelude.Int.{ℤ, pos}
use web_terminal.Replay.{end_offset}
use web_terminal.Session.{
  Turn, receives, new_listener, Listener, Session, Action, outputs, exits_now, attaches, detaches,
  client_closes, reaps, writes, resizes, delivers, fanout, pump_chunk, mark_exited, pump_end,
  attach, delete, remove_listener, mark_client_closed, kill_if_idle, write, resize, deliver, act,
  acts,
}

abbrev pub numbers : List Listener → List ℕ
numbers [] = []
numbers (l ∷ ls) = l.number ∷ numbers ls

abbrev pub has : ℕ → List ℕ → Bool
has n [] = false
has n (m ∷ ms) = m == n || has n ms

-- How often the listener `n` was told.
abbrev pub told : ℕ → List (ℕ × ℤ) → ℕ
told n [] = 0
told n ((m, code) ∷ es) = (if m == n then 1 else 0) + told n es

-- The numbers rise from `lo` and stay below `hi`.
abbrev pub Between : ℕ → ℕ → List ℕ → Type 0
Between lo hi [] = lo ≤ hi
Between lo hi (m ∷ ms) = (lo ≤ m) × Between (suc m) hi ms

Between-weaken : (lo lo' hi : ℕ) (ms : List ℕ) → lo ≤ lo' → Between lo' hi ms → Between lo hi ms
Between-weaken lo lo' hi [] h b = omega arith
Between-weaken lo lo' hi (m ∷ ms) h b = (omega arith, b.1)

pub Between-snoc :
    (lo hi : ℕ) (ms : List ℕ) → Between lo hi ms → Between lo (hi + 1) (ms ++ hi ∷ [])
Between-snoc lo hi [] b = (b, omega arith)
Between-snoc lo hi (m ∷ ms) b = (b.0, Between-snoc (suc m) hi ms b.1)

pub not_has : (n lo hi : ℕ) (ms : List ℕ) → Between lo hi ms → n < lo → has n ms ≡ false
not_has n lo hi [] b h = refl
not_has n lo hi (m ∷ ms) b h = ground (arith, not_has n (suc m) hi ms b.1)

pub Between-le : (lo hi : ℕ) (ms : List ℕ) → Between lo hi ms → lo ≤ hi
Between-le lo hi [] b = b
Between-le lo hi (m ∷ ms) b = omega (arith, Between-le (suc m) hi ms b.1)

pub not_has_above : (n lo hi : ℕ) (ms : List ℕ) → Between lo hi ms → hi ≤ n → has n ms ≡ false
not_has_above n lo hi [] b h = refl
not_has_above n lo hi (m ∷ ms) b h =
    ground (arith, not_has_above n (suc m) hi ms b.1, Between-le (suc m) hi ms b.1)

pub has-snoc : (n k : ℕ) (ms : List ℕ) → has n (ms ++ k ∷ []) ≡ (has n ms || (k == n))
has-snoc n k [] = ground arith
has-snoc n k (m ∷ ms) = ground (arith, has-snoc n k ms)

pub told-append : (n : ℕ) (es fs : List (ℕ × ℤ)) → told n (es ++ fs) ≡ told n es + told n fs
told-append n [] fs = omega arith
told-append n ((m, c) ∷ es) fs = omega (arith, told-append n es fs)

-- Listeners with rising numbers are told once each.
told-map :
    (n lo hi : ℕ) (code : ℤ) (ls : List Listener)
    → Between lo hi (numbers ls)
    → told n (map (λ (l : Listener). (l.number, code)) ls) ≡ (if has n (numbers ls) then 1 else 0)
told-map n lo hi code [] b = refl
told-map n lo hi code (l ∷ ls) b =
    ground (
      arith,
      told-map n (suc l.number) hi code ls b.1,
      not_has n (suc l.number) hi (numbers ls) b.1,
    )

pub numbers-snoc :
    (ls : List Listener) (l : Listener) → numbers (ls ++ l ∷ []) ≡ numbers ls ++ l.number ∷ []
numbers-snoc [] l = refl
numbers-snoc (x ∷ ls) l = ap (◌∷◌ x.number) (numbers-snoc ls l)

pub numbers-receives :
    (o : ℤ) (p : List ℕ) (ls : List Listener) → numbers (map (receives o p) ls) ≡ numbers ls
unfolding receives
numbers-receives o p [] = refl
numbers-receives o p (l ∷ ls) = ap (◌∷◌ l.number) (numbers-receives o p ls)

pub numbers-deliver :
    (n : ℕ) (e : Turn) (ls : List Listener) → numbers (deliver n e ls) ≡ numbers ls
unfolding deliver
numbers-deliver n e [] = refl
numbers-deliver n e (l ∷ ls) = ground (arith, numbers-deliver n e ls)

pub Between-delete :
    (m lo hi : ℕ) (ls : List Listener)
    → Between lo hi (numbers ls)
    → Between lo hi (numbers (delete m ls))
unfolding delete
Between-delete m lo hi [] b = b
Between-delete m lo hi (l ∷ ls) b = ground (
  arith,
  Between-delete m (suc l.number) hi ls b.1,
  Between-weaken lo (suc l.number) hi (numbers (delete m ls)),
)

pub has-delete :
    (n m : ℕ) (ls : List Listener)
    → has n (numbers (delete m ls)) ≡ true
    → has n (numbers ls) ≡ true
unfolding delete
has-delete n m [] h = h
has-delete n m (l ∷ ls) h = ground (arith, has-delete n m ls)

-- What the listener `n` has been told.
pub record Informed (n : ℕ) (s : Session) : Type 0 where
  pub rising : Between 0 s.next_listener (numbers s.listeners)
  pub not_yet : s.alive ≡ true → told n s.exits ≡ 0
  pub once : told n s.exits ≤ 1
  pub attached : s.alive ≡ false → has n (numbers s.listeners) ≡ true → told n s.exits ≡ 1
  pub future : s.next_listener ≤ n → told n s.exits ≡ 0

attach-Informed : (n : ℕ) (s : Session) → Informed n s → Informed n (attach s)
unfolding attach
attach-Informed n s v = ground (
  arith,
  numbers-snoc s.listeners (new_listener s),
  Between-snoc 0 s.next_listener (numbers s.listeners),
  has-snoc n s.next_listener (numbers s.listeners),
  told-append n s.exits ((s.next_listener, s.exit_code) ∷ []),
)

exit-Informed : (n : ℕ) (s : Session) (code : ℤ) → Informed n s → Informed n (mark_exited s code)
unfolding mark_exited
exit-Informed n s code v = ground (
  arith,
  told-append n s.exits (map (λ (l : Listener). (l.number, code)) s.listeners),
  told-map n 0 s.next_listener code s.listeners v.rising,
  not_has_above n 0 s.next_listener (numbers s.listeners) v.rising,
)

act-Informed :
    (n : ℕ) (s : Session) (now : ℕ) (a : Action) → Informed n s → Informed n (act s now a)
unfolding act pump_chunk fanout pump_end remove_listener mark_client_closed kill_if_idle write
    resize
act-Informed n s now (outputs chunk) v =
    ground (arith, numbers-receives (end_offset s.buffer) chunk s.listeners)
act-Informed n s now exits_now v = exit-Informed n s (pos 0) v
act-Informed n s now attaches v = attach-Informed n s v
act-Informed n s now (detaches m) v =
    ground
      (arith, has-delete n m s.listeners, Between-delete m 0 s.next_listener s.listeners v.rising)
act-Informed n s now (client_closes grace) v = ground arith
act-Informed n s now (reaps grace) v = ground arith
act-Informed n s now (writes bytes) v = ground arith
act-Informed n s now (resizes cols rows) v = ground arith
act-Informed n s now (delivers m e) v = ground (arith, numbers-deliver m e s.listeners)

acts-Informed :
    (n : ℕ) (actions : List (ℕ × Action)) (s : Session) → Informed n s → Informed n (acts s actions)
unfolding acts
acts-Informed n [] s v = v
acts-Informed n ((now, a) ∷ rest) s v =
    acts-Informed n rest (act s now a) (act-Informed n s now a v)

-- A session as StartSession makes it has no client yet.
abbrev pub IsFresh : Session → Type 0
IsFresh s = (s.listeners ≡ []) × (s.exits ≡ []) × (s.alive ≡ true)

-- Under any schedule of a new session, each listener is told of the exit at most once; not before
-- it; and once it has happened every listener that is attached has been told, whether it attached
-- before or after.
told_once :
    (n : ℕ) (s : Session) (actions : List (ℕ × Action))
    → IsFresh s
    → let t = acts s actions in
      (told n t.exits ≤ 1)
      × (t.alive ≡ true → told n t.exits ≡ 0)
      × (t.alive ≡ false → has n (numbers t.listeners) ≡ true → told n t.exits ≡ 1)
told_once n s actions f =
    let v = acts-Informed n actions s (fresh f) in (v.once, v.not_yet, v.attached)
  where
    fresh : IsFresh s → Informed n s
    fresh (l, e, a) = record {
      rising = rw l (omega arith);
      not_yet = λ _. rw e;
      once = rw e (omega arith);
      attached = λ d h. ground arith;
      future = λ _. rw e;
    }
