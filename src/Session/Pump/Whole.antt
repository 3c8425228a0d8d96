-- ===== src/Session/Pump/Whole.antt =====
-- The pump in one step against the pump in small steps.
use web_terminal.Prelude.{
  ℕ, suc, ◌≡◌, refl, sym, ap, ap₂, ◌∙◌, true, false, List, [], ◌∷◌, ◌++◌, map, append-nil,
  append_assoc, Bool, Bytes, arith, ◌==◌, if◌then◌else◌, subst,
}
use web_terminal.Prelude.Int.{ℤ}
use web_terminal.Replay.{append, end_offset}
use web_terminal.Session.{
  Listener, Session, Action, outputs, exits_now, attaches, detaches, client_closes, reaps, writes,
  resizes, delivers, receives, fanout, pump_chunk, act, acts,
}
use web_terminal.Session.Following.{piece, produced}
use web_terminal.Session.Exits.{Between, numbers, has, not_has, numbers-receives}
use web_terminal.Session.Pump.{
  reading, copied, Threads, enqueue_to, reads, copies, enqueues_next, finishes, others, Run, here,
  later,
}
use web_terminal.Session.Pump.Rising.{Rising, act-Rising}

-- The loop of fanout over its targets.
enqueue_all : List ℕ → ℤ → Bytes → List Listener → List Listener
enqueue_all [] o c ls = ls
enqueue_all (n ∷ targets) o c ls = enqueue_all targets o c (enqueue_to n o c ls)

-- One listener in that loop.
enqueue_one : List ℕ → ℤ → Bytes → Listener → Listener
enqueue_one [] o c l = l
enqueue_one (n ∷ targets) o c l =
    enqueue_one targets o c (if l.number == n then receives o c l else l)

enqueue_all-cons :
    (targets : List ℕ) (o : ℤ) (c : Bytes) (l : Listener) (ls : List Listener)
    → enqueue_all targets o c (l ∷ ls) ≡ enqueue_one targets o c l ∷ enqueue_all targets o c ls
unfolding enqueue_all enqueue_one enqueue_to
enqueue_all-cons [] o c l ls = refl
enqueue_all-cons (n ∷ targets) o c l ls = enqueue_all-cons targets o c _ (enqueue_to n o c ls)

not_a_target :
    (targets : List ℕ) (o : ℤ) (c : Bytes) (l : Listener)
    → has l.number targets ≡ false
    → enqueue_one targets o c l ≡ l
unfolding enqueue_one
not_a_target [] o c l h = refl
not_a_target (n ∷ targets) o c l h = ground (arith, not_a_target targets o c l)

missed :
    (n : ℕ) (o : ℤ) (c : Bytes) (ls : List Listener)
    → has n (numbers ls) ≡ false
    → enqueue_to n o c ls ≡ ls
unfolding enqueue_to
missed n o c [] h = refl
missed n o c (l ∷ ls) h = ground (arith, missed n o c ls)

-- Listeners with rising numbers are served once each.
all_served :
    (lo hi : ℕ) (o : ℤ) (c : Bytes) (ls : List Listener)
    → Between lo hi (numbers ls)
    → enqueue_all (numbers ls) o c ls ≡ map (receives o c) ls
unfolding enqueue_all enqueue_to receives
all_served lo hi o c [] v = refl
all_served lo hi o c (l ∷ ls) v =
    enqueue_all-cons (numbers ls) o c _ (enqueue_to l.number o c ls)
    ∙ ap₂ ◌∷◌
        (ap (λ b. enqueue_one (numbers ls) o c (if b then receives o c l else l)) (same l.number)
          ∙ not_a_target (numbers ls) o c (receives o c l) last)
        (ap (enqueue_all (numbers ls) o c) (missed l.number o c ls last)
          ∙ all_served (suc l.number) hi o c ls v.1)
  where
    last : has l.number (numbers ls) ≡ false
    last = not_has l.number (suc l.number) hi (numbers ls) v.1 (omega arith)

    same : (n : ℕ) → n == n ≡ true
    same n = ground arith

-- The rest of the loop, from any place of it.
loop_runs :
    (o : ℤ) (chunk : Bytes) (targets : List ℕ) (s : Session) {p : Threads} {out : Bytes}
    → Run p out (record { session = s; pump = copied o chunk targets })
    → Run p out (record {
      session = record s { listeners = enqueue_all targets o chunk s.listeners };
      pump = reading;
    })
unfolding enqueue_all
loop_runs o chunk [] s {p} {out} run =
    subst (λ k. Run p k (record { session = s; pump = reading })) (append-nil out)
      (later run (finishes o chunk refl))
loop_runs o chunk (n ∷ targets) s {p} {out} run =
    loop_runs o chunk targets (record s { listeners = enqueue_to n o chunk s.listeners })
      (subst
        (λ k. Run p k (record {
          session = record s { listeners = enqueue_to n o chunk s.listeners };
          pump = copied o chunk targets;
        }))
        (append-nil out) (later run (enqueues_next o chunk n targets refl)))

-- A round of the pump in one step is a run of small steps with nothing between them, for a session
-- whose process runs and whose listeners have rising numbers.
pump_chunk_runs :
    (s : Session) (chunk : Bytes)
    → s.alive ≡ true
    → Rising s
    → Run
        (record { session = s; pump = reading })
        chunk
        (record { session = pump_chunk s chunk; pump = reading })
unfolding pump_chunk fanout
pump_chunk_runs s chunk on v =
    subst
      (λ ls.
        Run (record { session = s; pump = reading }) chunk
          (record {
            session = record s { listeners = ls; buffer = append s.buffer chunk };
            pump = reading;
          }))
      (all_served 0 s.next_listener (end_offset s.buffer) chunk s.listeners v)
      (loop_runs (end_offset s.buffer) chunk (numbers s.listeners)
        (record s { buffer = append s.buffer chunk })
        (subst
          (λ k.
            Run (record { session = s; pump = reading }) k
              (record {
                session = record s { buffer = append s.buffer chunk };
                pump = copied (end_offset s.buffer) chunk (numbers s.listeners);
              }))
          (append-nil chunk)
          (later (later here (reads chunk refl on)) (copies (end_offset s.buffer) chunk refl))))

pub Run-append : {p q r : Threads} {a b : Bytes} → Run p a q → Run q b r → Run p (a ++ b) r
Run-append {p} {q} {a} first here = subst (λ k. Run p k q) (sym (append-nil a)) first
Run-append {p} {a} first (later {out} {piece} {r = t} run one) =
    subst (λ k. Run p k t) (append_assoc a out piece) (later (Run-append first run) one)

-- An action is a run of small steps.
act_runs :
    (s : Session) (now : ℕ) (a : Action)
    → Rising s
    → Run
        (record { session = s; pump = reading })
        (piece s.alive a)
        (record { session = act s now a; pump = reading })
unfolding act
act_runs s now (outputs chunk) v = by_life s.alive refl
  where
    by_life :
        (alive : Bool)
        → s.alive ≡ alive
        → Run
            (record { session = s; pump = reading })
            (if alive then chunk else [])
            (record { session = if alive then pump_chunk s chunk else s; pump = reading })
    by_life true on = pump_chunk_runs s chunk on v
    by_life false off = here
act_runs s now exits_now v = later here (others now exits_now refl (λ e. refl))
act_runs s now attaches v = later here (others now attaches refl (λ e. refl))
act_runs s now (detaches n) v = later here (others now (detaches n) refl (λ e. refl))
act_runs s now (client_closes g) v = later here (others now (client_closes g) refl (λ e. refl))
act_runs s now (reaps g) v = later here (others now (reaps g) refl (λ e. refl))
act_runs s now (writes b) v = later here (others now (writes b) refl (λ e. refl))
act_runs s now (resizes c r) v = later here (others now (resizes c r) refl (λ e. refl))
act_runs s now (delivers n e) v = later here (others now (delivers n e) refl (λ k. refl))

pub act_keeps_Rising : (s : Session) (now : ℕ) (a : Action) → Rising s → Rising (act s now a)
unfolding act pump_chunk fanout
act_keeps_Rising s now (outputs chunk) v =
    ground (arith, numbers-receives (end_offset s.buffer) chunk s.listeners)
act_keeps_Rising s now exits_now v = (act-Rising s now exits_now refl v).0
act_keeps_Rising s now attaches v = (act-Rising s now attaches refl v).0
act_keeps_Rising s now (detaches n) v = (act-Rising s now (detaches n) refl v).0
act_keeps_Rising s now (client_closes g) v = (act-Rising s now (client_closes g) refl v).0
act_keeps_Rising s now (reaps g) v = (act-Rising s now (reaps g) refl v).0
act_keeps_Rising s now (writes b) v = (act-Rising s now (writes b) refl v).0
act_keeps_Rising s now (resizes c r) v = (act-Rising s now (resizes c r) refl v).0
act_keeps_Rising s now (delivers n e) v = (act-Rising s now (delivers n e) refl v).0

-- For a session whose listeners have rising numbers, every schedule in which a round of the pump is one
-- step is a run of the small steps, with the same output, from a read to a read.
acts_runs :
    (actions : List (ℕ × Action)) (s : Session)
    → Rising s
    → Run
        (record { session = s; pump = reading })
        (produced s actions)
        (record { session = acts s actions; pump = reading })
unfolding acts produced
acts_runs [] s v = here
acts_runs ((now, a) ∷ rest) s v =
    Run-append (act_runs s now a v) (acts_runs rest (act s now a) (act_keeps_Rising s now a v))
