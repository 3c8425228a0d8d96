-- ===== src/Delivery/Tracks.antt =====
-- A delivery and its goroutine: every step follows the stream.
use web_terminal.Prelude.{
  ℕ, ◌+◌, ◌≡◌, refl, ◌∙◌, ap, inl, inr, Bool, true, false, List, [], ◌∷◌, ◌++◌, append-nil,
  append_assoc, Bytes, arith, length, length-append, Bool-cases, subst,
}
use web_terminal.Prelude.Int.{ℤ, pos}
use web_terminal.Delivery.Frames.{payloads, Contiguous, output, InOrder, in_flight, queued}
use web_terminal.Delivery.Queue.{Streams, frame_laws, cut-Streams, enqueue-Streams}
use web_terminal.Delivery.{
  DeliveryState, running, stopped, overflowed, is_running, is_empty, stop, mark_failed, left, drain,
  Phase, draining, writing, returned, Runner, fail, after_drain, wake_in, write_in, Event, enqueues,
  stops, wakes, write_returns, step, run, start_runner,
}

-- The frames written and the one in flight.
abbrev pub sent : Runner → List (ℤ × Bytes)
sent r = r.written ++ in_flight r.phase

abbrev pub Tracks : ℕ → Bytes → Runner → Type 0
Tracks base h r = Streams base h (sent r) r.delivery

-- A write that fails gives up its batch and the queue.
fail-Tracks : (base : ℕ) (h : Bytes) (r : Runner) → Tracks base h r → Tracks base h (fail r)
unfolding fail mark_failed stop
fail-Tracks base h r v =
    rw append-nil (cut-Streams base h r.written (in_flight r.phase) r.delivery v)

stop-Tracks :
    (base : ℕ) (h : Bytes) (r : Runner)
    → Tracks base h r
    → Tracks base h (record r { delivery = stop r.delivery })
stop-Tracks base h r v = cut-Streams base h (sent r) [] r.delivery (rw append-nil v)

at_phase :
    (base : ℕ) (h : Bytes) (r : Runner) {phase : Phase}
    → r.phase ≡ phase
    → Tracks base h r
    → Streams base h (r.written ++ in_flight phase) r.delivery
at_phase base h r e v = subst (λ p. Streams base h (r.written ++ in_flight p) r.delivery) e v

left-Tracks :
    (base : ℕ) (h : Bytes) (r : Runner) (s : DeliveryState)
    → r.phase ≡ draining
    → Tracks base h r
    → Tracks base h (after_drain r (left s, r.delivery))
unfolding after_drain
left-Tracks base h r running e v = v
left-Tracks base h r stopped e v = at_phase base h r e v
left-Tracks base h r overflowed e v = fail-Tracks base h r v

-- A batch moves from the queue to the write.
batch-Tracks :
    (base : ℕ) (h : Bytes) (r : Runner)
    → r.phase ≡ draining
    → is_empty r.delivery.pending ≡ false
    → Tracks base h r
    → Tracks base h (record r {
      delivery = record (r.delivery) { pending = []; start_offset = pos 0 };
      phase = writing r.delivery.start_offset r.delivery.pending;
    })
batch-Tracks base h r e some v = record {
  contiguous = simp frame_laws (moved v'.contiguous);
  lost = v'.lost;
  whole = simp frame_laws (simp frame_laws at (whole_moved v'.whole));
  live = v'.live;
}
  where
    v' : Streams base h (r.written ++ []) r.delivery
    v' = at_phase base h r e v

    moved :
        Contiguous base ((r.written ++ []) ++ queued r.delivery)
        → Contiguous base (r.written ++ (r.delivery.start_offset, r.delivery.pending) ∷ [])
    moved c = simp (some, append-nil) at c

    whole_moved :
        payloads ((r.written ++ []) ++ queued r.delivery) ++ v'.lost ≡ h
        → payloads (r.written ++ (r.delivery.start_offset, r.delivery.pending) ∷ []) ++ v'.lost ≡ h
    whole_moved c = simp (some, append-nil) at c

wake-Tracks :
    (base : ℕ) (h : Bytes) (r : Runner) (phase : Phase)
    → r.phase ≡ phase
    → Tracks base h r
    → Tracks base h (wake_in phase r)
unfolding wake_in drain
wake-Tracks base h r draining e v = elim (Bool-cases (is_running r.delivery.state)) [
  | inl on ↦ elim (Bool-cases (is_empty r.delivery.pending)) [
    | inl empty ↦ simp (on, empty) (unfold after_drain in v)
    | inr some ↦ simp (on, some) (unfold after_drain in batch-Tracks base h r e some v)
  ]
  | inr off ↦ simp off (left-Tracks base h r r.delivery.state e v)
]
wake-Tracks base h r (writing o bs) e v = v
wake-Tracks base h r returned e v = v

write-Tracks :
    (base : ℕ) (h : Bytes) (r : Runner) (phase : Phase) (ok : Bool)
    → r.phase ≡ phase
    → Tracks base h r
    → Tracks base h (write_in phase ok r)
unfolding write_in
write-Tracks base h r draining ok e v = v
write-Tracks base h r (writing o bs) true e v = rw append-nil (at_phase base h r e v)
write-Tracks base h r (writing o bs) false e v = fail-Tracks base h r v
write-Tracks base h r returned ok e v = v

pub step-Tracks :
    (base : ℕ) (h : Bytes) (r : Runner) (e : Event) (es : List Event)
    → InOrder (base + length h) (e ∷ es)
    → Tracks base h r
    → Tracks base (h ++ output (e ∷ [])) (step r e)
unfolding step
step-Tracks base h r (enqueues o p) es (at, _) v =
    rw append-nil (enqueue-Streams base h (sent r) r.delivery v o p at)
step-Tracks base h r stops es w v = rw append-nil (stop-Tracks base h r v)
step-Tracks base h r wakes es w v = rw append-nil (wake-Tracks base h r r.phase refl v)
step-Tracks base h r (write_returns ok) es w v =
    rw append-nil (write-Tracks base h r r.phase ok refl v)

rest_InOrder :
    (base : ℕ) (h : Bytes) (e : Event) (es : List Event)
    → InOrder (base + length h) (e ∷ es)
    → InOrder (base + length (h ++ output (e ∷ []))) es
rest_InOrder base h (enqueues o p) es (at, w) =
    subst (λ n. InOrder n es) (omega (arith, length-append h (p ++ []), length-append p [])) w
rest_InOrder base h stops es w = rw append-nil w
rest_InOrder base h wakes es w = rw append-nil w
rest_InOrder base h (write_returns ok) es w = rw append-nil w

output-cons : (e : Event) (es : List Event) → output (e ∷ []) ++ output es ≡ output (e ∷ es)
output-cons (enqueues o p) es = ap (λ k. k ++ output es) (append-nil p)
output-cons stops es = refl
output-cons wakes es = refl
output-cons (write_returns ok) es = refl

pub run-Tracks :
    (base : ℕ) (es : List Event) (h : Bytes) (r : Runner)
    → InOrder (base + length h) es
    → Tracks base h r
    → Tracks base (h ++ output es) (run r es)
unfolding run
run-Tracks base [] h r w v = rw append-nil v
run-Tracks base (e ∷ es) h r w v =
    subst (λ k. Tracks base k (run (step r e) es))
      (append_assoc h (output (e ∷ [])) (output es) ∙ ap (◌++◌ h) (output-cons e es))
      (run-Tracks base es (h ++ output (e ∷ [])) (step r e) (rest_InOrder base h e es w)
        (step-Tracks base h r e es w v))

pub start-Tracks : (base m : ℕ) → Tracks base [] (start_runner m)
unfolding start_runner
start-Tracks base m = record { contiguous = tt; lost = []; whole = refl; live = λ _. refl }
