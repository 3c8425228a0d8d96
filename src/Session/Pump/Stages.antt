-- ===== src/Session/Pump/Stages.antt =====
-- Each step of the pump, and a run of them.
use web_terminal.Prelude.{
  ℕ, suc, ◌+◌, ◌^◌, ◌<◌, ◌≡◌, refl, sym, ap, ◌∙◌, inl, inr, true, false, List, [], ◌∷◌, ◌++◌,
  append-nil, append_assoc, arith, ◌==◌, Bool-cases, Bytes, length, All, All-both, All-weaken,
  subst, length-append,
}
use web_terminal.Prelude.Int.{ℤ, pos}
use web_terminal.Replay.{append, end_offset}
use web_terminal.Replay.History.{Holds, append-Holds}
use web_terminal.Session.{Listener, Session, receives}
use web_terminal.Session.Exits.{numbers, has, not_has}
use web_terminal.Session.Following.{IsFollowing}
use web_terminal.Session.Pump.{
  Pumping, reading, appended, copied, Threads, enqueue_to, Step, reads, copies, enqueues_next,
  finishes, others, Run, here, later,
}
use web_terminal.Session.Pump.Rising.{numbers-enqueue_to, act-Rising}
use web_terminal.Session.Pump.Flow.{pending, InPlace-later, At, Underway, act-Follow}

module _ (P : Bytes → Listener → Type 0) (low : ℕ) (laws : IsFollowing P low) where
  enqueue_to-At :
      (d chunk : Bytes) (o : ℤ) (n : ℕ) (targets : List ℕ) (ls : List Listener)
      → o ≡ pos (length d)
      → has n targets ≡ false
      → All (At P low laws d (copied o chunk (n ∷ targets))) ls
      → All (At P low laws d (copied o chunk targets)) (enqueue_to n o chunk ls)
  unfolding enqueue_to receives
  enqueue_to-At d chunk o n targets [] same last v = tt
  enqueue_to-At d chunk o n targets (l ∷ ls) same last (v, rest) =
      elim (Bool-cases (l.number == n)) [
        | inl hit ↦ rw hit (served l v hit, enqueue_to-At d chunk o n targets ls same last rest)
        | inr miss ↦ rw miss (passed l v miss, enqueue_to-At d chunk o n targets ls same last rest)
      ]
    where
      served :
          (l : Listener)
          → At P low laws d (copied o chunk (n ∷ targets)) l
          → l.number == n ≡ true
          → At P low laws d (copied o chunk targets) (receives o chunk l)
      served l v hit = (
        (λ b. absurd (ground (arith, hit, last, b))),
        (λ b.
            subst (λ z. P (d ++ chunk) (receives z chunk l)) (sym same)
              (laws.grows d chunk l (v.0 (ground (arith, hit))))),
      )

      passed :
          (l : Listener)
          → At P low laws d (copied o chunk (n ∷ targets)) l
          → l.number == n ≡ false
          → At P low laws d (copied o chunk targets) l
      passed l v miss = ((λ b. v.0 (ground (arith, miss, b))), (λ b. v.1 (ground (arith, miss, b))))

  numbers-All-has :
      (ls : List Listener) → All (λ (l : Listener). has l.number (numbers ls) ≡ true) ls
  numbers-All-has [] = tt
  numbers-All-has (l ∷ ls) =
      (ground arith, All-weaken _ _ ls (λ k there. ground (arith, there)) (numbers-All-has ls))

  -- The steps of the pump, each from the place in which it is taken.
  reads-Underway :
      (d chunk : Bytes) (s : Session)
      → length d + length chunk < 2 ^ 63
      → Underway P low laws d (record { session = s; pump = reading })
      → Underway P low laws d (record {
        session = record s { buffer = append s.buffer chunk };
        pump = appended (end_offset s.buffer) chunk;
      })
  unfolding end_offset
  reads-Underway d chunk s fits v = record {
    holds = append-Holds s.buffer d chunk (subst (Holds s.buffer) (append-nil d) v.holds) fits;
    follow =
        All-weaken (At P low laws d reading)
          (At P low laws d (appended (end_offset s.buffer) chunk)) s.listeners
          (λ l (waits, served). ((λ b. subst (λ k. P k l) (append-nil d) (served refl)), (λ b. cc)))
          v.follow;
    later = v.later;
    rising = v.rising;
    place = v.holds.ends ∙ ap (λ k. pos (length k)) (append-nil d);
  }

  copies-Underway :
      (d chunk : Bytes) (o : ℤ) (s : Session)
      → Underway P low laws d (record { session = s; pump = appended o chunk })
      → Underway P low laws d (record { session = s; pump = copied o chunk (numbers s.listeners) })
  copies-Underway d chunk o s v = record {
    holds = v.holds;
    follow =
        All-weaken _ (At P low laws d (copied o chunk (numbers s.listeners))) s.listeners
          (λ l ((waits, served), there).
            ((λ b. waits refl), (λ b. absurd (ground (arith, there, b)))))
          (All-both _ _ s.listeners v.follow (numbers-All-has s.listeners));
    later = v.later;
    rising = v.rising;
    place = (v.place, (0, s.next_listener, v.rising, omega arith));
  }

  enqueues-Underway :
      (d chunk : Bytes) (o : ℤ) (n : ℕ) (targets : List ℕ) (s : Session)
      → Underway P low laws d (record { session = s; pump = copied o chunk (n ∷ targets) })
      → Underway P low laws d (record {
        session = record s { listeners = enqueue_to n o chunk s.listeners };
        pump = copied o chunk targets;
      })
  enqueues-Underway d chunk o n targets s v =
      let (same, (lo, hi, between, high)) = v.place in
      record {
        holds = v.holds;
        follow =
            enqueue_to-At d chunk o n targets s.listeners same
              (not_has n (suc n) hi targets between.1 (omega arith)) v.follow;
        later = v.later;
        rising = rw (numbers-enqueue_to n o chunk s.listeners) v.rising;
        place = (same, (suc n, hi, between.1, high));
      }

  finishes-Underway :
      (d chunk : Bytes) (o : ℤ) (s : Session)
      → Underway P low laws d (record { session = s; pump = copied o chunk [] })
      → Underway P low laws (d ++ chunk) (record { session = s; pump = reading })
  finishes-Underway d chunk o s v = record {
    holds = subst (Holds s.buffer) (sym (append-nil (d ++ chunk))) v.holds;
    follow =
        All-weaken (At P low laws d (copied o chunk [])) (At P low laws (d ++ chunk) reading)
          s.listeners
          (λ l (waits, served).
            ((λ b. cc), (λ b. subst (λ k. P k l) (sym (append-nil (d ++ chunk))) (served refl))))
          v.follow;
    later = v.later;
    rising = v.rising;
    place = tt;
  }

  in_phase :
      (d : Bytes) (p : Threads) {pump : Pumping}
      → p.pump ≡ pump
      → Underway P low laws d p
      → Underway P low laws d (record { session = p.session; pump = pump })
  in_phase d p at v =
      subst (λ k. Underway P low laws d (record { session = p.session; pump = k })) at v

  -- A step, with the output before it and after it.
  Step-Underway :
      {p : Threads} {piece : Bytes} {q : Threads} (d : Bytes)
      → Step p piece q
      → length (d ++ pending p.pump) + length piece < 2 ^ 63
      → Underway P low laws d p
      → (d' : Bytes) × (d' ++ pending q.pump ≡ (d ++ pending p.pump) ++ piece)
        × Underway P low laws d' q
  Step-Underway {p} d (reads chunk at on) fits v = (
    d,
    sym (ap (λ k. (d ++ pending k) ++ chunk) at ∙ ap (λ k. k ++ chunk) (append-nil d)),
    reads-Underway d chunk p.session (simp (at, append-nil) at fits) (in_phase d p at v),
  )
  Step-Underway {p} d (copies o chunk at) fits v = (
    d,
    ap (λ k. d ++ pending k) (sym at) ∙ sym (append-nil (d ++ pending p.pump)),
    copies-Underway d chunk o p.session (in_phase d p at v),
  )
  Step-Underway {p} d (enqueues_next o chunk n targets at) fits v = (
    d,
    ap (λ k. d ++ pending k) (sym at) ∙ sym (append-nil (d ++ pending p.pump)),
    enqueues-Underway d chunk o n targets p.session (in_phase d p at v),
  )
  Step-Underway {p} d (finishes o chunk at) fits v = (
    d ++ chunk,
    append-nil (d ++ chunk)
        ∙ ap (λ k. d ++ pending k) (sym at)
        ∙ sym (append-nil (d ++ pending p.pump)),
    finishes-Underway d chunk o p.session (in_phase d p at v),
  )
  Step-Underway {p} d (others now a other exit) fits v =
      let (follow, same) = act-Follow P low laws d p.pump p.session now a other v.follow v.later in
      let (rising, higher) = act-Rising p.session now a other v.rising in
      (
        d,
        sym (append-nil (d ++ pending p.pump)),
        record {
          holds = subst (λ b. Holds b (d ++ pending p.pump)) (sym same) v.holds;
          follow = follow;
          later = let before = v.later in omega arith;
          rising = rising;
          place = InPlace-later d p.session.next_listener _ p.pump higher v.place;
        },
      )

  -- A run.
  pub Run-Underway :
      {p : Threads} {out : Bytes} {q : Threads} (d : Bytes)
      → Run p out q
      → length (d ++ pending p.pump) + length out < 2 ^ 63
      → Underway P low laws d p
      → (d' : Bytes) × (d' ++ pending q.pump ≡ (d ++ pending p.pump) ++ out)
        × Underway P low laws d' q
  Run-Underway {p} d here fits v = (d, sym (append-nil (d ++ pending p.pump)), v)
  Run-Underway {p} d (later {out} {piece} run one) fits v =
      let (d₁, e₁, v₁) = Run-Underway d run (omega (arith, length-append out piece)) v in
      let (d₂, e₂, v₂) =
        Step-Underway d₁ one
          (omega
            (arith, ap length e₁, length-append (d ++ pending p.pump) out, length-append out piece))
          v₁ in
      (d₂, e₂ ∙ ap (λ k. k ++ piece) e₁ ∙ append_assoc (d ++ pending p.pump) out piece, v₂)
