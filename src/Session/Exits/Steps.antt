-- ===== src/Session/Exits/Steps.antt =====
-- markExited and Attach of internal/session/store.go in small steps: the callbacks are called after the
-- mutex is given back, one at a time, and anything else may happen to the session between them.
use web_terminal.Prelude.{
  ℕ, suc, ◌+◌, ◌≤◌, ◌≡◌, refl, sym, ap, ◌∙◌, Bool, true, false, none, some, List, [], ◌∷◌, ◌++◌,
  arith, ◌==◌, if◌then◌else◌,
}
use web_terminal.Prelude.Int.{ℤ, pos}
use web_terminal.Pty.{close}
use web_terminal.Replay.{end_offset}
use web_terminal.Session.{
  Session, Action, outputs, exits_now, attaches, detaches, client_closes, reaps, writes, resizes,
  delivers, new_listener, fanout, pump_chunk, remove_listener, mark_client_closed, kill_if_idle,
  write, resize, act,
}
use web_terminal.Session.Exits.{
  IsFresh, numbers, has, told, told-append, Between, Between-snoc, Between-delete, not_has,
  not_has_above, has-snoc, has-delete, numbers-snoc, numbers-receives, numbers-deliver,
}

-- A session, the listeners that markExited has copied and not told yet, and those whose Attach has
-- found the process exited and has not told them yet.
pub record Exiting : Type 0 where
  pub session : Session
  pub targets : List ℕ
  pub waiting : List ℕ

-- The first section of Attach.
unfoldable pub register : Session → Session
register s = record s {
  listeners = s.listeners ++ new_listener s ∷ [];
  idle_since = none;
  idle_grace = pos 0;
  next_listener = s.next_listener + 1;
}

-- l.onExit(code)
unfoldable pub tell : ℕ → Session → Session
tell n s = record s { exits = s.exits ++ (n, s.exit_code) ∷ [] }

unfoldable pub take_out : ℕ → List ℕ → List ℕ
take_out n [] = []
take_out n (m ∷ ms) = if m == n then ms else m ∷ take_out n ms

-- What happens besides an exit and an attach.
abbrev pub is_between : Action → Bool
is_between (outputs chunk) = true
is_between exits_now = false
is_between attaches = false
is_between (detaches n) = true
is_between (client_closes grace) = true
is_between (reaps grace) = true
is_between (writes bytes) = true
is_between (resizes cols rows) = true
is_between (delivers n e) = true

pub data Step (x : Exiting) : Exiting → Type 0 where
  marks :
      (code : ℤ)
      → x.session.alive ≡ true
      → Step x (record x {
        session = record (x.session) { alive = false; exit_code = code };
        targets = numbers x.session.listeners;
      })
  closes :
      x.session.alive ≡ false
      → Step x (record x {
        session = record (x.session) {
          handle = elim x.session.handle [ none ↦ none | some h ↦ some (close h) ];
        };
      })
  tells :
      (n : ℕ) (rest : List ℕ)
      → x.targets ≡ n ∷ rest
      → Step x (record { session = tell n x.session; targets = rest; waiting = x.waiting })
  registers : Step x (record x {
    session = register x.session;
    waiting = if x.session.alive then x.waiting else x.waiting ++ x.session.next_listener ∷ [];
  })
  replies :
      (n : ℕ)
      → has n x.waiting ≡ true
      → Step x (record x { session = tell n x.session; waiting = take_out n x.waiting })
  others :
      (now : ℕ) (a : Action)
      → is_between a ≡ true
      → Step x (record x { session = act x.session now a })

pub data Reach (s : Session) : Exiting → Type 0 where
  start : Reach s (record { session = s; targets = []; waiting = [] })
  later : {x y : Exiting} → Reach s x → Step x y → Reach s y

-- How often a number is in a list.
abbrev count : ℕ → List ℕ → ℕ
count n [] = 0
count n (m ∷ ms) = (if m == n then 1 else 0) + count n ms

count-rising :
    (n lo hi : ℕ) (ms : List ℕ) → Between lo hi ms → count n ms ≡ (if has n ms then 1 else 0)
count-rising n lo hi [] b = refl
count-rising n lo hi (m ∷ ms) b =
    ground (arith, count-rising n (suc m) hi ms b.1, not_has n (suc m) hi ms b.1)

count-snoc :
    (n k : ℕ) (ms : List ℕ) → count n (ms ++ k ∷ []) ≡ count n ms + (if k == n then 1 else 0)
count-snoc n k [] = omega arith
count-snoc n k (m ∷ ms) = omega (arith, count-snoc n k ms)

count-take_out :
    (n k : ℕ) (ms : List ℕ)
    → has k ms ≡ true
    → count n (take_out k ms) + (if k == n then 1 else 0) ≡ count n ms
unfolding take_out
count-take_out n k [] h = cc
count-take_out n k (m ∷ ms) h = ground (arith, count-take_out n k ms)

-- What the listener `n` has been told, and is about to be told.
record Informed (n : ℕ) (x : Exiting) : Type 0 where
  rising : Between 0 x.session.next_listener (numbers x.session.listeners)
  not_yet :
      x.session.alive ≡ true → told n x.session.exits + count n x.targets + count n x.waiting ≡ 0
  once : told n x.session.exits + count n x.targets + count n x.waiting ≤ 1
  attached :
      x.session.alive ≡ false
      → has n (numbers x.session.listeners) ≡ true
      → told n x.session.exits + count n x.targets + count n x.waiting ≡ 1
  future :
      x.session.next_listener ≤ n
      → told n x.session.exits + count n x.targets + count n x.waiting ≡ 0

rest_keeps :
    (n : ℕ) (s : Session) (now : ℕ) (a : Action)
    → is_between a ≡ true
    → Between 0 s.next_listener (numbers s.listeners)
    → let t = act s now a in
      (t.exits ≡ s.exits)
      × (t.alive ≡ s.alive)
      × (t.next_listener ≡ s.next_listener)
      × Between 0 t.next_listener (numbers t.listeners)
      × (has n (numbers t.listeners) ≡ true → has n (numbers s.listeners) ≡ true)
unfolding act pump_chunk fanout remove_listener mark_client_closed kill_if_idle write resize
rest_keeps n s now (outputs chunk) b v =
    ground (arith, numbers-receives (end_offset s.buffer) chunk s.listeners)
rest_keeps n s now exits_now b v = cc
rest_keeps n s now attaches b v = cc
rest_keeps n s now (detaches m) b v =
    ground (arith, has-delete n m s.listeners, Between-delete m 0 s.next_listener s.listeners v)
rest_keeps n s now (client_closes grace) b v = ground arith
rest_keeps n s now (reaps grace) b v = ground arith
rest_keeps n s now (writes bytes) b v = ground arith
rest_keeps n s now (resizes cols rows) b v = ground arith
rest_keeps n s now (delivers m e) b v = ground (arith, numbers-deliver m e s.listeners)

Step-Informed : (n : ℕ) {x y : Exiting} → Informed n x → Step x y → Informed n y
unfolding register tell
Step-Informed n {x} v (marks code on) = ground (
  arith,
  count-rising n 0 x.session.next_listener (numbers x.session.listeners) v.rising,
  not_has_above n 0 x.session.next_listener (numbers x.session.listeners) v.rising,
)
Step-Informed n {x} v (closes off) = record {
  rising = v.rising;
  not_yet = v.not_yet;
  once = v.once;
  attached = v.attached;
  future = v.future;
}
Step-Informed n {x} v (tells m rest e) =
    ground (arith, ap (count n) e, told-append n x.session.exits ((m, x.session.exit_code) ∷ []))
Step-Informed n {x} v registers = ground (
  arith,
  numbers-snoc x.session.listeners (new_listener x.session),
  Between-snoc 0 x.session.next_listener (numbers x.session.listeners) v.rising,
  has-snoc n x.session.next_listener (numbers x.session.listeners),
  count-snoc n x.session.next_listener x.waiting,
)
Step-Informed n {x} v (replies m h) = ground (
  arith,
  count-take_out n m x.waiting h,
  told-append n x.session.exits ((m, x.session.exit_code) ∷ []),
)
Step-Informed n {x} v (others now a between) =
    let (exits, alive, next, rising, fewer) = rest_keeps n x.session now a between v.rising in
    record {
      rising = rising;
      not_yet = λ on. rw exits (v.not_yet (sym alive ∙ on));
      once = rw exits v.once;
      attached = λ off h. rw exits (v.attached (sym alive ∙ off) (fewer h));
      future = λ high. rw exits (v.future (rw (← next) high));
    }

-- A new session, whose exit is marked and whose callbacks are called in small steps, with anything else
-- between them. Each listener is told of the exit at most once, and not before it; once it is marked
-- and every callback that is due has been called, each listener that is attached has been told.
pub told_once_in_steps :
    (n : ℕ) (s : Session) {x : Exiting}
    → IsFresh s
    → Reach s x
    → (told n x.session.exits ≤ 1)
      × (x.session.alive ≡ true → told n x.session.exits ≡ 0)
      × (x.session.alive ≡ false
          → x.targets ≡ []
          → x.waiting ≡ []
          → has n (numbers x.session.listeners) ≡ true
          → told n x.session.exits ≡ 1)
told_once_in_steps n s {x} f reach =
    let v = informed reach in
    (
      omega (arith, v.once),
      λ on. omega (arith, v.not_yet on),
      λ off t w h. let all = v.attached off h in omega (arith, all, ap (count n) t, ap (count n) w),
    )
  where
    informed : {y : Exiting} → Reach s y → Informed n y
    informed start = record {
      rising = rw (f.0) (omega arith);
      not_yet = λ _. rw (f.1) (omega arith);
      once = rw (f.1) (omega arith);
      attached = λ d h. ground (arith, f);
      future = λ _. rw (f.1) (omega arith);
    }
    informed (later r step) = Step-Informed n (informed r) step
