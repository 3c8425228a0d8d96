-- ===== src/Delivery/Queue.antt =====
-- The queue of a delivery, against the stream that was enqueued in it.
use web_terminal.Prelude.{
  ℕ, ◌+◌, ◌≡◌, refl, sym, ◌∙◌, ap, inl, inr, Bool, true, false, List, [], ◌∷◌, ◌++◌, append-nil,
  append_assoc, Bytes, arith, length, length-append, if◌then◌else◌, Bool-cases, subst,
}
use web_terminal.Prelude.Int.{ℤ, pos}
use web_terminal.Delivery.Frames.{
  payloads, Contiguous, output, InOrder, in_flight, queued, payloads-append, next_start,
  Contiguous-append, Contiguous-split,
}
use web_terminal.Delivery.{DeliveryState, OutputDelivery, is_running, is_empty, enqueue, stop}

-- The frames `fs` and the queue of `d` are the stream `h` from `base`, but for a rest that is lost
-- once the delivery has left the running state.
pub record Streams (base : ℕ) (h : Bytes) (fs : List (ℤ × Bytes)) (d : OutputDelivery)
    : Type 0 where
  pub contiguous : Contiguous base (fs ++ queued d)
  pub lost : Bytes
  pub whole : payloads (fs ++ queued d) ++ lost ≡ h
  pub live : is_running d.state ≡ true → lost ≡ []

-- The queue after a chunk was added.
abbrev pub extended : OutputDelivery → ℤ → Bytes → DeliveryState → OutputDelivery
extended d o p s = record d {
  pending = d.pending ++ p;
  start_offset = if is_empty d.pending then o else d.start_offset;
  state = s;
}

payloads-queued : (d : OutputDelivery) → payloads (queued d) ≡ d.pending
payloads-queued d = go d.pending
  where
    go : (p : Bytes) → payloads (if is_empty p then [] else (d.start_offset, p) ∷ []) ≡ p
    go [] = refl
    go (x ∷ xs) = append-nil (x ∷ xs)

-- Everything enqueued is in the frames or in the queue, whatever the queue's offset.
payloads-frames :
    (fs : List (ℤ × Bytes)) (d : OutputDelivery)
    → payloads (fs ++ queued d) ≡ payloads fs ++ d.pending
payloads-frames fs d = payloads-append fs (queued d) ∙ ap (◌++◌ (payloads fs)) (payloads-queued d)

pub is_empty→nil : (p : Bytes) → is_empty p ≡ true → p ≡ []
is_empty→nil [] e = refl
is_empty→nil (x ∷ xs) e = cc

queue_head :
    (d : OutputDelivery) (n : ℕ)
    → is_empty d.pending ≡ false
    → Contiguous n (queued d)
    → d.start_offset ≡ pos n
queue_head d n e c = (go c).0
  where
    go : Contiguous n (queued d) → (d.start_offset ≡ pos n) × Unit {0}
    go c = rw e at c

pub ruleset frame_laws = (payloads-append, append_assoc, append-nil)

-- Dropping the queue, and the last frames too, loses bytes at the end only.
pub cut-Streams :
    (base : ℕ) (h : Bytes) (fs gs : List (ℤ × Bytes)) (d : OutputDelivery)
    → Streams base h (fs ++ gs) d
    → Streams base h fs (stop d)
unfolding stop
cut-Streams base h fs gs d v = record {
  contiguous =
      rw append-nil
        (Contiguous-split base fs gs
          (Contiguous-split base (fs ++ gs) (queued d) v.contiguous).0).0;
  lost = payloads gs ++ (payloads (queued d) ++ v.lost);
  whole = simp frame_laws (simp frame_laws at v.whole);
  live = λ e. cc;
}

module _ (base : ℕ) (h : Bytes) (fs : List (ℤ × Bytes)) (d : OutputDelivery)
    (v : Streams base h fs d) where
  pub all_there : is_running d.state ≡ true → payloads fs ++ d.pending ≡ h
  all_there r =
      sym (payloads-frames fs d)
      ∙ sym (append-nil (payloads (fs ++ queued d)))
      ∙ ap (◌++◌ (payloads (fs ++ queued d))) (sym (v.live r))
      ∙ v.whole

  queue_start :
      (o : ℤ)
      → is_running d.state ≡ true
      → o ≡ pos (base + length h)
      → (if is_empty d.pending then o else d.start_offset) ≡ pos (base + length (payloads fs))
  queue_start o r e = elim (Bool-cases (is_empty d.pending)) [
    | inl empty ↦ rw empty (e ∙ ap (λ n. pos (base + n)) (ap length (sym (none_queued empty))))
    | inr some ↦ rw some (queue_head d _ some (Contiguous-split base fs (queued d) v.contiguous).1)
  ]
    where
      none_queued : is_empty d.pending ≡ true → payloads fs ≡ h
      none_queued empty =
          sym (append-nil (payloads fs))
          ∙ ap (◌++◌ (payloads fs)) (sym (is_empty→nil d.pending empty))
          ∙ all_there r

  pub grown :
      (o : ℤ) (p : Bytes)
      → is_running d.state ≡ true
      → o ≡ pos (base + length h)
      → (s : DeliveryState) → is_empty (d.pending ++ p) ≡ false
      → Streams base (h ++ p) fs (extended d o p s)
  grown o p r e s ne = record {
    contiguous = rw ne (
        Contiguous-append base fs _ (Contiguous-split base fs (queued d) v.contiguous).0
          (queue_start o r e, tt));
    lost = [];
    whole =
        append-nil _
        ∙ payloads-frames fs (extended d o p s)
        ∙ sym (append_assoc (payloads fs) d.pending p)
        ∙ ap (λ k. k ++ p) (all_there r);
    live = λ _. refl;
  }

  -- An output of the pump, at the offset where the stream ends.
  pub enqueue-Streams :
      (o : ℤ) (p : Bytes) → o ≡ pos (base + length h) → Streams base (h ++ p) fs (enqueue d o p)
  unfolding enqueue
  enqueue-Streams o [] e = rw append-nil v
  enqueue-Streams o (x ∷ xs) e = elim (Bool-cases (is_running d.state)) [
    | inl r ↦ rw r (grown o (x ∷ xs) r e _ (not_empty d.pending))
    | inr r ↦ rw r (record {
      contiguous = v.contiguous;
      lost = v.lost ++ (x ∷ xs);
      whole =
          sym (append_assoc (payloads (fs ++ queued d)) v.lost (x ∷ xs))
          ∙ ap (λ k. k ++ (x ∷ xs)) v.whole;
      live = λ k. absurd (true-false (sym k ∙ r));
    })
  ]
    where
      not_empty : (q : Bytes) → is_empty (q ++ (x ∷ xs)) ≡ false
      not_empty [] = refl
      not_empty (y ∷ q) = refl

      true-false : true ≡ false → ⊥
      true-false k = cc
