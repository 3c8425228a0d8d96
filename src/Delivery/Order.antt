-- ===== src/Delivery/Order.antt =====
-- The lifecycle of a delivery: its bound, its single report of an error, its end.
use web_terminal.Prelude.{
  ℕ, ◌≤◌, ◌≡◌, ◌≢◌, refl, ◌⊎◌, inl, inr, Bool, List, [], ◌∷◌, ◌++◌, Bytes, arith, length,
}
use web_terminal.Prelude.Int.{ℤ}
use web_terminal.Delivery.Frames.{in_flight}
use web_terminal.Delivery.{
  running, stopped, enqueue, stop, mark_failed, drain, Phase, draining, writing, returned, Runner,
  fail, after_drain, wake_in, write_in, Event, enqueues, stops, wakes, write_returns, step, run,
  start_runner,
}

-- What holds of a delivery and its goroutine at any time.
pub record Sound (m : ℕ) (r : Runner) : Type 0 where
  limit : r.delivery.max_bytes ≡ m
  pub bounded : r.delivery.state ≡ running → length r.delivery.pending ≤ m
  emptied : r.delivery.state ≡ stopped → r.delivery.pending ≡ []
  pub reported :
      ((r.errors ≡ 0) × (r.phase ≡ returned → r.delivery.state ≡ stopped))
      ⊎ ((r.errors ≡ 1) × (r.phase ≡ returned) × (r.delivery.state ≡ stopped))

enqueue-Sound :
    (m : ℕ) (r : Runner) (o : ℤ) (p : Bytes) → Sound m r → Sound m (step r (enqueues o p))
unfolding step enqueue
enqueue-Sound m r o p v = ground arith

stop-Sound : (m : ℕ) (r : Runner) → Sound m r → Sound m (step r stops)
unfolding step stop
stop-Sound m r v = ground arith

wake-Sound : (m : ℕ) (r : Runner) → Sound m r → Sound m (step r wakes)
unfolding step wake_in drain after_drain fail mark_failed
wake-Sound m r v = ground arith

write-Sound : (m : ℕ) (r : Runner) (ok : Bool) → Sound m r → Sound m (step r (write_returns ok))
unfolding step write_in fail mark_failed
write-Sound m r ok v = ground arith

step-Sound : (m : ℕ) (r : Runner) (e : Event) → Sound m r → Sound m (step r e)
step-Sound m r (enqueues o p) v = enqueue-Sound m r o p v
step-Sound m r stops v = stop-Sound m r v
step-Sound m r wakes v = wake-Sound m r v
step-Sound m r (write_returns ok) v = write-Sound m r ok v

run-Sound : (m : ℕ) (es : List Event) (r : Runner) → Sound m r → Sound m (run r es)
unfolding run
run-Sound m [] r v = v
run-Sound m (e ∷ es) r v = run-Sound m es (step r e) (step-Sound m r e v)

start-Sound : (m : ℕ) → Sound m (start_runner m)
unfolding start_runner
start-Sound m = record {
  limit = refl;
  bounded = λ _. omega arith;
  emptied = λ e. refl;
  reported = inl (refl, λ e. cc);
}

-- Under every schedule: a running delivery queues at most `max_bytes`, a stopped one nothing;
-- onError is called at most once, and the goroutine that called it, or has returned at all, leaves
-- the delivery stopped.
pub run-start-Sound : (m : ℕ) (es : List Event) → Sound m (run (start_runner m) es)
run-start-Sound m es = run-Sound m es (start_runner m) (start-Sound m)

-- Nothing more can be written.
abbrev Quiet : List (ℤ × Bytes) → Runner → Type 0
Quiet w r =
    (r.delivery.state ≢ running) × (r.phase ≡ draining ⊎ r.phase ≡ returned) × (r.written ≡ w)

step-Quiet : (w : List (ℤ × Bytes)) (r : Runner) (e : Event) → Quiet w r → Quiet w (step r e)
unfolding step enqueue stop wake_in drain after_drain write_in fail mark_failed
step-Quiet w r (enqueues o p) v = ground arith
step-Quiet w r stops v = ground arith
step-Quiet w r wakes v = ground arith
step-Quiet w r (write_returns ok) v = ground arith

run-Quiet :
    (w : List (ℤ × Bytes)) (es : List Event) (r : Runner) → Quiet w r → (run r es).written ≡ w
unfolding run
run-Quiet w [] r v = v.2
run-Quiet w (e ∷ es) r v = run-Quiet w es (step r e) (step-Quiet w r e v)

-- A goroutine in the write of a batch, with the delivery stopped under it.
abbrev Finishing : List (ℤ × Bytes) → ℤ → Bytes → Runner → Type 0
Finishing w o bs r = (r.delivery.state ≢ running) × (r.phase ≡ writing o bs) × (r.written ≡ w)

step-Finishing :
    (w : List (ℤ × Bytes)) (o : ℤ) (bs : Bytes) (r : Runner) (e : Event)
    → Finishing w o bs r
    → Finishing w o bs (step r e) ⊎ Quiet w (step r e) ⊎ Quiet (w ++ (o, bs) ∷ []) (step r e)
unfolding step enqueue stop wake_in drain after_drain write_in fail mark_failed
step-Finishing w o bs r (enqueues o' p) v = ground arith
step-Finishing w o bs r stops v = ground arith
step-Finishing w o bs r wakes v = ground arith
step-Finishing w o bs r (write_returns ok) v = ground arith

run-Finishing :
    (w : List (ℤ × Bytes)) (o : ℤ) (bs : Bytes) (es : List Event) (r : Runner)
    → Finishing w o bs r
    → ((run r es).written ≡ w) ⊎ ((run r es).written ≡ w ++ (o, bs) ∷ [])
unfolding run
run-Finishing w o bs [] r v = inl v.2
run-Finishing w o bs (e ∷ es) r v = elim (step-Finishing w o bs r e v) [
  | inl f ↦ run-Finishing w o bs es (step r e) f
  | inr later ↦ elim later [
    | inl q ↦ inl (run-Quiet w es (step r e) q)
    | inr q ↦ inr (run-Quiet _ es (step r e) q)
  ]
]

halts_in :
    (r : Runner) (phase : Phase) (es : List Event)
    → r.phase ≡ phase
    → let q = run (step r stops) es in
      (q.written ≡ r.written) ⊎ (q.written ≡ r.written ++ in_flight phase)
unfolding step stop
halts_in r draining es e = inl (run-Quiet r.written es _ ((λ k. cc), inl e, refl))
halts_in r (writing o bs) es e = run-Finishing r.written o bs es _ ((λ k. cc), e, refl)
halts_in r returned es e = inl (run-Quiet r.written es _ ((λ k. cc), inr e, refl))

-- After stop, at whatever point of the goroutine and whatever happens then, no queued byte is
-- written any more: at most the batch whose write was in progress is added to the frames.
stop_halts :
    (r : Runner) (es : List Event)
    → let q = run (step r stops) es in
      (q.written ≡ r.written) ⊎ (q.written ≡ r.written ++ in_flight r.phase)
stop_halts r es = halts_in r r.phase es refl
