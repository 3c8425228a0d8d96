-- ===== src/Session/Idle.antt =====
-- When a session is idle, and when the reaper kills it.
use web_terminal.Prelude.{
  ℕ, ◌-◌, ◌^◌, ◌≤◌, ◌<◌, ◌≡◌, ◌≢◌, refl, ◌↔◌, true, false, not, Option, none, some, List, [], ◌∷◌,
  ◌++◌, map, arith, some_inj,
}
use web_terminal.Prelude.Int.{ℤ, pos, ◌≤ℤ◌, sub64-pos, leb_ℤ}
use web_terminal.Replay.{end_offset}
use web_terminal.Session.{
  Turn, receives, Listener, Session, Action, outputs, exits_now, attaches, detaches, client_closes,
  reaps, writes, resizes, delivers, pump_chunk, mark_exited, pump_end, attach, delete, is_nil,
  is_zero_time, remove_listener, mark_client_closed, idle_for, applicable_grace, kill_if_idle,
  write, resize, deliver, act, acts,
}

-- A session has an idle time exactly when no client is attached.
abbrev pub IsIdleWell : Session → Type 0
IsIdleWell s = is_nil s.listeners ≡ not (is_zero_time s.idle_since)

is_nil-map : {A B : Type 0} (f : A → B) (l : List A) → is_nil (map f l) ≡ is_nil l
is_nil-map f [] = refl
is_nil-map f (x ∷ l) = refl

is_nil-append : {A : Type 0} (l : List A) (x : A) → is_nil (l ++ x ∷ []) ≡ false
is_nil-append [] x = refl
is_nil-append (y ∷ l) x = refl

is_nil-deliver : (n : ℕ) (e : Turn) (l : List Listener) → is_nil (deliver n e l) ≡ is_nil l
unfolding deliver
is_nil-deliver n e [] = refl
is_nil-deliver n e (x ∷ l) = refl

-- A listener that is there already is deleted from one that has others or none left.
delete-nil : (n : ℕ) (l : List Listener) → is_nil l ≡ true → is_nil (delete n l) ≡ true
unfolding delete
delete-nil n [] h = refl
delete-nil n (x ∷ l) h = cc

pub act-IsIdleWell : (s : Session) (now : ℕ) (a : Action) → IsIdleWell s → IsIdleWell (act s now a)
unfolding act pump_chunk pump_end mark_exited attach remove_listener mark_client_closed kill_if_idle
    write resize
act-IsIdleWell s now (outputs chunk) v =
    ground (arith, is_nil-map (receives (end_offset s.buffer) chunk) s.listeners)
act-IsIdleWell s now exits_now v = ground arith
act-IsIdleWell s now attaches v = is_nil-append s.listeners _
act-IsIdleWell s now (detaches n) v = ground (arith, delete-nil n s.listeners)
act-IsIdleWell s now (client_closes grace) v = ground arith
act-IsIdleWell s now (reaps grace) v = ground arith
act-IsIdleWell s now (writes bytes) v = ground arith
act-IsIdleWell s now (resizes cols rows) v = ground arith
act-IsIdleWell s now (delivers n e) v = rw (is_nil-deliver n e s.listeners) v

acts-IsIdleWell :
    (actions : List (ℕ × Action)) (s : Session) → IsIdleWell s → IsIdleWell (acts s actions)
unfolding acts
acts-IsIdleWell [] s v = v
acts-IsIdleWell ((now, a) ∷ rest) s v =
    acts-IsIdleWell rest (act s now a) (act-IsIdleWell s now a v)

-- A session whose last client has been gone since `t` for its applicable grace, which is not zero.
pub record IsOrphaned (s : Session) (now : ℕ) (default_grace : ℤ) : Type 0 where
  pub since : ℕ
  pub idle : s.idle_since ≡ some since
  pub bounded : pos 1 ≤ℤ applicable_grace s default_grace
  pub elapsed : applicable_grace s default_grace ≤ℤ pos (now - since)

-- The clock is monotonic, and reads less than 2 ^ 63 nanoseconds.
abbrev pub InPast : Option ℕ → ℕ → Type 0
InPast none now = now < 2 ^ 63
InPast (some t) now = (t ≤ now) × (now < 2 ^ 63)

-- What idle_for tests.
abbrev HasElapsed : Option ℕ → ℕ → ℤ → Type 0
HasElapsed idle now grace = (t : ℕ) × (idle ≡ some t) × (grace ≤ℤ pos (now - t))

idle_for→HasElapsed :
    (idle : Option ℕ) (now : ℕ) (grace : ℤ)
    → InPast idle now
    → idle_for idle now grace ≡ true
    → HasElapsed idle now grace
unfolding idle_for
idle_for→HasElapsed none now grace p e = cc
idle_for→HasElapsed (some t) now grace (le, fits) e =
    (t, refl, leb_ℤ→≤ grace (pos (now - t)) (rw (sub64-pos now t le fits) at e))
  where
    leb_ℤ→≤ : (a b : ℤ) → leb_ℤ a b ≡ true → a ≤ℤ b
    leb_ℤ→≤ a b h = ground arith

HasElapsed→idle_for :
    (idle : Option ℕ) (now : ℕ) (grace : ℤ)
    → InPast idle now
    → HasElapsed idle now grace
    → idle_for idle now grace ≡ true
unfolding idle_for
HasElapsed→idle_for none now grace p (t, e, h) = cc
HasElapsed→idle_for (some u) now grace (le, fits) (t, e, h) =
    rw (sub64-pos now u le fits) (≤→leb_ℤ grace (pos (now - u)) (rw (some_inj e) h))
  where
    ≤→leb_ℤ : (a b : ℤ) → a ≤ℤ b → leb_ℤ a b ≡ true
    ≤→leb_ℤ a b h = ground arith

-- At a time that is not before the session's idle time, the reaper kills a session exactly when it
-- has been orphaned for its applicable grace, and otherwise leaves it as it was.
pub kill_if_idle_iff :
    (s : Session) (now : ℕ) (default_grace : ℤ)
    → InPast s.idle_since now
    → (((kill_if_idle s now default_grace).0 ≡ true) ↔ IsOrphaned s now default_grace)
      × ((kill_if_idle s now default_grace).0 ≡ false → (kill_if_idle s now default_grace).1 ≡ s)
unfolding kill_if_idle
kill_if_idle_iff s now g p = ((there, back), λ e. ground arith)
  where
    there : (kill_if_idle s now g).0 ≡ true → IsOrphaned s now g
    there e =
        let (t, idle, long) =
          idle_for→HasElapsed s.idle_since now (applicable_grace s g) p (ground arith) in
        record { since = t; idle = idle; bounded = ground arith; elapsed = long }

    back : IsOrphaned s now g → (kill_if_idle s now g).0 ≡ true
    back o = ground (
      arith,
      HasElapsed→idle_for s.idle_since now (applicable_grace s g) p (o.since, o.idle, o.elapsed),
    )

-- After any schedule of a session that has an idle time exactly when it has no listener: while a
-- client is attached the reaper does not kill it, and leaves it as it was.
attached_is_safe :
    (s : Session) (actions : List (ℕ × Action)) (now : ℕ) (default_grace : ℤ)
    → IsIdleWell s
    → (acts s actions).listeners ≢ []
    → kill_if_idle (acts s actions) now default_grace ≡ (false, acts s actions)
unfolding kill_if_idle idle_for
attached_is_safe s actions now g v some_client = ground (arith, acts-IsIdleWell actions s v)

-- When the last client has gone and its close was deliberate, a positive close grace applies. If the
-- same listener is removed once more after that, for a late report of its failed write, the default
-- grace applies again, and the idle time starts anew.
late_error_forgets_close :
    (s : Session) (gone late n : ℕ) (grace default_grace : ℤ)
    → is_nil (delete n s.listeners) ≡ true
    → pos 1 ≤ℤ grace
    → let closed = mark_client_closed (remove_listener s gone n) grace in
      (applicable_grace closed default_grace ≡ grace)
      × (closed.idle_since ≡ some gone)
      × (applicable_grace (remove_listener closed late n) default_grace ≡ default_grace)
      × ((remove_listener closed late n).idle_since ≡ some late)
unfolding mark_client_closed remove_listener applicable_grace
late_error_forgets_close s gone late n grace d last h =
    ground (arith, delete-nil n (delete n s.listeners))
