-- ===== src/Session/Following.antt =====
-- A property of the listeners of a session that says how they follow the output of its process: if
-- each step of one listener keeps it, every schedule of the session does.
use web_terminal.Prelude.{
  ℕ, ◌+◌, ◌-◌, ◌^◌, ◌≤◌, ◌<◌, ◌≡◌, sym, ap, ◌∙◌, inl, inr, Bool, true, false, List, [], ◌∷◌, ◌++◌,
  append-nil, append_assoc, arith, ◌==◌, if◌then◌else◌, Bool-cases, Bytes, length, drop, All,
  All-append, All-map, subst, length-append, length-drop, drop-append, drop-all,
}
use web_terminal.Prelude.Int.{pos}
use web_terminal.Replay.{end_offset}
use web_terminal.Replay.History.{Holds, append-Holds}
use web_terminal.Delivery.{enqueues, step, start_runner}
use web_terminal.Delivery.Tracks.{Tracks, step-Tracks, start-Tracks}
use web_terminal.Session.{
  Turn, woken, write_done, halted, event_of, receives, new_listener, unstarted,
  default_output_queue_bytes, Listener, Session, Action, outputs, exits_now, attaches, detaches,
  client_closes, reaps, writes, resizes, delivers, fanout, pump_chunk, mark_exited, pump_end,
  attach, delete, remove_listener, mark_client_closed, kill_if_idle, write, resize, deliver, act,
  acts,
}

-- The listener's delivery follows the output from the offset `base`.
abbrev pub FollowsAt : ℕ → Bytes → Listener → Type 0
FollowsAt base h l = (base ≤ length h) × Tracks base (drop base h) l.runner

pub receives-FollowsAt :
    (base : ℕ) (h chunk : Bytes) (l : Listener)
    → FollowsAt base h l
    → FollowsAt base (h ++ chunk) (receives (pos (length h)) chunk l)
unfolding receives
receives-FollowsAt base h chunk l (within, v) = (
  omega (arith, length-append h chunk),
  subst (λ k. Tracks base k (step l.runner (enqueues (pos (length h)) chunk))) grows stepped,
)
  where
    stepped :
        Tracks base (drop base h ++ (chunk ++ [])) (step l.runner (enqueues (pos (length h)) chunk))
    stepped =
        step-Tracks base (drop base h) l.runner (enqueues (pos (length h)) chunk) []
          (ap pos (omega (arith, length-drop base h)), tt) v

    none_before : 0 ≡ base - length h
    none_before = omega arith

    grows : drop base h ++ (chunk ++ []) ≡ drop base (h ++ chunk)
    grows =
        ap (◌++◌ (drop base h)) (append-nil chunk)
        ∙ ap (λ n. drop base h ++ drop n chunk) none_before
        ∙ sym (drop-append base h chunk)

pub turn-FollowsAt :
    (base : ℕ) (h : Bytes) (e : Turn) (l : Listener)
    → FollowsAt base h l
    → FollowsAt base h (record l { runner = step l.runner (event_of e) })
turn-FollowsAt base h e l (within, v) = (within, turned e)
  where
    turned : (e : Turn) → Tracks base (drop base h) (step l.runner (event_of e))
    turned woken =
        rw append-nil at (step-Tracks base (drop base h) l.runner (event_of woken) [] tt v)
    turned (write_done ok) =
        rw append-nil at
          (step-Tracks base (drop base h) l.runner (event_of (write_done ok)) [] tt v)
    turned halted =
        rw append-nil at (step-Tracks base (drop base h) l.runner (event_of halted) [] tt v)

pub new_listener-FollowsAt : (h : Bytes) (s : Session) → FollowsAt (length h) h (new_listener s)
unfolding start_runner
new_listener-FollowsAt h s =
    (omega arith, rw (drop-all (length h) h (omega arith)) (started s.alive))
  where
    started :
        (alive : Bool)
        → Tracks (length h) [] (
            if alive
            then start_runner default_output_queue_bytes
            else unstarted default_output_queue_bytes)
    started true = start-Tracks (length h) default_output_queue_bytes
    started false = start-Tracks (length h) default_output_queue_bytes

-- What the process outputs in an action.
abbrev pub piece : Bool → Action → Bytes
piece alive (outputs chunk) = if alive then chunk else []
piece alive exits_now = []
piece alive attaches = []
piece alive (detaches n) = []
piece alive (client_closes grace) = []
piece alive (reaps grace) = []
piece alive (writes bytes) = []
piece alive (resizes cols rows) = []
piece alive (delivers n e) = []

-- What the process outputs in a schedule: nothing once its exit is marked.
unfoldable pub produced : Session → List (ℕ × Action) → Bytes
produced s [] = []
produced s ((now, a) ∷ rest) = piece s.alive a ++ produced (act s now a) rest

-- A property of a listener, given the output so far, that the pump and the listener's own goroutine
-- keep, and that new listeners from the number `low` on have.
pub record IsFollowing (P : Bytes → Listener → Type 0) (low : ℕ) : Type 0 where
  pub grows :
      (h chunk : Bytes) (l : Listener) → P h l → P (h ++ chunk) (receives (pos (length h)) chunk l)
  pub turns :
      (h : Bytes) (e : Turn) (l : Listener)
      → P h l
      → P h (record l { runner = step l.runner (event_of e) })
  pub begins : (h : Bytes) (s : Session) → low ≤ s.next_listener → P h (new_listener s)

module _ (P : Bytes → Listener → Type 0) (low : ℕ) (laws : IsFollowing P low) where
  -- The buffer holds the output `h`, and every listener has the property.
  pub record Flowing (h : Bytes) (s : Session) : Type 0 where
    pub holds : Holds s.buffer h
    pub follow : All (P h) s.listeners
    pub later : low ≤ s.next_listener

  deliver-All :
      (h : Bytes) (n : ℕ) (e : Turn) (ls : List Listener)
      → All (P h) ls
      → All (P h) (deliver n e ls)
  unfolding deliver
  deliver-All h n e [] v = tt
  deliver-All h n e (l ∷ ls) v = elim (Bool-cases (l.number == n)) [
    | inl hit ↦ rw hit (laws.turns h e l v.0, deliver-All h n e ls v.1)
    | inr miss ↦ rw miss (v.0, deliver-All h n e ls v.1)
  ]

  delete-All : (h : Bytes) (n : ℕ) (ls : List Listener) → All (P h) ls → All (P h) (delete n ls)
  unfolding delete
  delete-All h n [] v = tt
  delete-All h n (l ∷ ls) v = elim (Bool-cases (l.number == n)) [
    | inl hit ↦ rw hit (delete-All h n ls v.1)
    | inr miss ↦ rw miss (v.0, delete-All h n ls v.1)
  ]

  pump-Flowing :
      (h chunk : Bytes) (s : Session)
      → Flowing h s
      → length h + length chunk < 2 ^ 63
      → Flowing (h ++ chunk) (pump_chunk s chunk)
  unfolding pump_chunk fanout end_offset
  pump-Flowing h chunk s v f = record {
    holds = append-Holds s.buffer h chunk v.holds f;
    follow =
        rw v.holds.ends
          (All-map (P h) (P (h ++ chunk)) _ (λ l w. laws.grows h chunk l w) s.listeners v.follow);
    later = v.later;
  }

  act-Flowing :
      (h : Bytes) (s : Session) (now : ℕ) (a : Action)
      → Flowing h s
      → length h + length (piece s.alive a) < 2 ^ 63
      → Flowing (h ++ piece s.alive a) (act s now a)
  unfolding act pump_end mark_exited attach remove_listener mark_client_closed kill_if_idle write
      resize
  act-Flowing h s now (outputs chunk) v f = elim (Bool-cases s.alive) [
    | inl on ↦ simp on (pump-Flowing h chunk s v (simp on at f))
    | inr off ↦ simp (off, append-nil) v
  ]
  act-Flowing h s now exits_now v f = rw append-nil (ground arith)
  act-Flowing h s now attaches v f = rw append-nil (record {
    holds = v.holds;
    follow =
        All-append (P h) s.listeners (new_listener s ∷ []) v.follow (laws.begins h s v.later, tt);
    later = let low_enough = v.later in omega arith;
  })
  act-Flowing h s now (detaches m) v f =
      rw append-nil (ground (arith, delete-All h m s.listeners v.follow))
  act-Flowing h s now (client_closes grace) v f = rw append-nil (ground arith)
  act-Flowing h s now (reaps grace) v f = rw append-nil (ground arith)
  act-Flowing h s now (writes bytes) v f = rw append-nil (ground arith)
  act-Flowing h s now (resizes cols rows) v f = rw append-nil (ground arith)
  act-Flowing h s now (delivers m e) v f =
      rw append-nil (record {
        holds = v.holds;
        follow = deliver-All h m e s.listeners v.follow;
        later = v.later;
      })

  pub acts-Flowing :
      (actions : List (ℕ × Action)) (h : Bytes) (s : Session)
      → Flowing h s
      → length h + length (produced s actions) < 2 ^ 63
      → Flowing (h ++ produced s actions) (acts s actions)
  unfolding acts produced
  acts-Flowing [] h s v f = rw append-nil v
  acts-Flowing ((now, a) ∷ rest) h s v f =
      rw (← append_assoc h (piece s.alive a) (produced (act s now a) rest)) (
        acts-Flowing rest (h ++ piece s.alive a) (act s now a)
          (act-Flowing h s now a v
            (omega (arith, length-append (piece s.alive a) (produced (act s now a) rest))))
          (omega (
            arith,
            length-append (piece s.alive a) (produced (act s now a) rest),
            length-append h (piece s.alive a),
          )))
