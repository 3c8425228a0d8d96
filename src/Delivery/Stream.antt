-- ===== src/Delivery/Stream.antt =====
-- The frames that a delivery writes, against the output that was enqueued.
use web_terminal.Prelude.{
  ℕ, ◌≡◌, sym, ◌∙◌, ap, true, List, [], ◌∷◌, ◌++◌, append-nil, append_assoc, Bytes, arith, subst,
}
use native.Mathlib.Nat.{add-zero}
use web_terminal.Delivery.Frames.{payloads, Contiguous, output, InOrder, in_flight, payloads-append}
use web_terminal.Delivery.Queue.{is_empty→nil, cut-Streams, all_there}
use web_terminal.Delivery.Tracks.{sent, Tracks, run-Tracks, start-Tracks}
use web_terminal.Delivery.{
  running, is_running, stop, drain, draining, Runner, after_drain, wake_in, write_in, Event, wakes,
  write_returns, step, run, start_runner,
}

-- A pass of the loop of run that waits or writes its batch.
drain-write :
    (r : Runner)
    → r.phase ≡ draining
    → r.delivery.state ≡ running
    → payloads (run r (wakes ∷ write_returns true ∷ [])).written
      ≡ payloads r.written ++ r.delivery.pending
unfolding run step wake_in drain after_drain write_in
drain-write r idle on = ground (
  arith,
  payloads-append r.written ((r.delivery.start_offset, r.delivery.pending) ∷ []),
  append-nil r.delivery.pending,
  append-nil (payloads r.written),
  is_empty→nil r.delivery.pending,
)

-- What a delivery that follows a stream has written of it.
pub Tracks-written :
    (base : ℕ) (h : Bytes) (r : Runner)
    → Tracks base h r
    → Contiguous base r.written × ((rest : Bytes) × (payloads r.written ++ rest ≡ h))
unfolding stop
Tracks-written base h r tracked =
    let v = cut-Streams base h r.written (in_flight r.phase) r.delivery tracked in
    (rw append-nil at v.contiguous, (v.lost, rw append-nil at v.whole))

-- While it is running, what is written, in flight and queued is all of the stream.
pub Tracks-running :
    (base : ℕ) (h : Bytes) (r : Runner)
    → Tracks base h r
    → r.delivery.state ≡ running
    → payloads r.written ++ (payloads (in_flight r.phase) ++ r.delivery.pending) ≡ h
Tracks-running base h r tracked on =
    sym (append_assoc (payloads r.written) (payloads (in_flight r.phase)) r.delivery.pending)
    ∙ ap (λ k. k ++ r.delivery.pending) (sym (payloads-append r.written (in_flight r.phase)))
    ∙ all_there base h (sent r) r.delivery tracked (ap is_running on)

module _ (base m : ℕ) (es : List Event) (order : InOrder base es) where
  tracked : Tracks base (output es) (run (start_runner m) es)
  tracked = run-Tracks base es [] (start_runner m) (rw (add-zero) order) (start-Tracks base m)

  -- Whatever the schedule of a new delivery's enqueues, wakes, writes, failures and stops, if each
  -- chunk is enqueued at the offset where the one before it ends: the frames written are contiguous
  -- from the first offset on, and their bytes are a prefix of the output enqueued.
  pub written_prefix :
      let r = run (start_runner m) es in
      Contiguous base r.written × ((rest : Bytes) × (payloads r.written ++ rest ≡ output es))
  written_prefix = Tracks-written base (output es) (run (start_runner m) es) tracked

  -- Under such a schedule, while the delivery is running, no byte is missing: the frames written, the
  -- batch in flight and the queue are in this order all of the output enqueued.
  nothing_lost :
      let r = run (start_runner m) es in
      r.delivery.state ≡ running
      → payloads r.written ++ (payloads (in_flight r.phase) ++ r.delivery.pending) ≡ output es
  nothing_lost on = Tracks-running base (output es) (run (start_runner m) es) tracked on

  -- After such a schedule, if the goroutine is in drain with the delivery running, and then gets the
  -- lock and its write succeeds, all of the output enqueued has been written, in order.
  caught_up :
      let r = run (start_runner m) es in
      r.phase ≡ draining
      → r.delivery.state ≡ running
      → payloads (run r (wakes ∷ write_returns true ∷ [])).written ≡ output es
  caught_up idle on =
      drain-write _ idle on
      ∙ subst
          (λ p. payloads r.written ++ (payloads (in_flight p) ++ r.delivery.pending) ≡ output es)
          idle (nothing_lost on)
    where
      r : Runner
      r = run (start_runner m) es
