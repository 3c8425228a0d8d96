-- ===== src/Delivery/Frames.antt =====
-- Frames, their bytes and their offsets; schedules and the output that they enqueue.
use web_terminal.Prelude.{
  ℕ, ◌+◌, ◌≡◌, refl, sym, ◌∙◌, ap, List, [], ◌∷◌, ◌++◌, append_assoc, Bytes, arith, length,
  length-append, if◌then◌else◌, subst,
}
use web_terminal.Prelude.Int.{ℤ, pos}
use web_terminal.Delivery.{
  OutputDelivery, is_empty, Phase, draining, writing, returned, Event, enqueues, stops, wakes,
  write_returns,
}

-- A frame is an offset and its bytes; the bytes of frames in order.
abbrev pub payloads : List (ℤ × Bytes) → Bytes
payloads [] = []
payloads ((o, p) ∷ fs) = p ++ payloads fs

-- The frames begin at `n` and each begins where the one before it ends.
abbrev pub Contiguous : ℕ → List (ℤ × Bytes) → Type 0
Contiguous n [] = Unit {0}
Contiguous n ((o, p) ∷ fs) = (o ≡ pos n) × Contiguous (n + length p) fs

-- The output that a schedule enqueues.
abbrev pub output : List Event → Bytes
output [] = []
output (enqueues o p ∷ es) = p ++ output es
output (stops ∷ es) = output es
output (wakes ∷ es) = output es
output (write_returns ok ∷ es) = output es

-- Each chunk is enqueued at the offset where the one before it ends: what the pump does.
abbrev pub InOrder : ℕ → List Event → Type 0
InOrder n [] = Unit {0}
InOrder n (enqueues o p ∷ es) = (o ≡ pos n) × InOrder (n + length p) es
InOrder n (stops ∷ es) = InOrder n es
InOrder n (wakes ∷ es) = InOrder n es
InOrder n (write_returns ok ∷ es) = InOrder n es

abbrev pub in_flight : Phase → List (ℤ × Bytes)
in_flight draining = []
in_flight (writing o bs) = (o, bs) ∷ []
in_flight returned = []

abbrev pub queued : OutputDelivery → List (ℤ × Bytes)
queued d = if is_empty d.pending then [] else (d.start_offset, d.pending) ∷ []

pub payloads-append : (fs gs : List (ℤ × Bytes)) → payloads (fs ++ gs) ≡ payloads fs ++ payloads gs
payloads-append [] gs = refl
payloads-append ((o, p) ∷ fs) gs =
    ap (◌++◌ p) (payloads-append fs gs) ∙ sym (append_assoc p (payloads fs) (payloads gs))

plus_assoc : (a b c : ℕ) → a + (b + c) ≡ a + b + c
plus_assoc a b c = omega arith

-- Where the frames after `(o, p) ∷ fs` begin.
pub next_start :
    (n : ℕ) (p : Bytes) (fs : List (ℤ × Bytes))
    → n + length (p ++ payloads fs) ≡ n + length p + length (payloads fs)
next_start n p fs = omega (arith, length-append p (payloads fs))

pub Contiguous-append :
    (n : ℕ) (fs gs : List (ℤ × Bytes))
    → Contiguous n fs
    → Contiguous (n + length (payloads fs)) gs
    → Contiguous n (fs ++ gs)
Contiguous-append n [] gs c d = subst (λ k. Contiguous k gs) (zero_end n) d
  where
    zero_end : (n : ℕ) → n + 0 ≡ n
    zero_end n = omega arith
Contiguous-append n ((o, p) ∷ fs) gs (e, c) d = (
  e,
  Contiguous-append (n + length p) fs gs c (subst (λ k. Contiguous k gs) (next_start n p fs) d),
)

pub Contiguous-split :
    (n : ℕ) (fs gs : List (ℤ × Bytes))
    → Contiguous n (fs ++ gs)
    → Contiguous n fs × Contiguous (n + length (payloads fs)) gs
Contiguous-split n [] gs c = (tt, subst (λ k. Contiguous k gs) (end_zero n) c)
  where
    end_zero : (n : ℕ) → n ≡ n + 0
    end_zero n = omega arith
Contiguous-split n ((o, p) ∷ fs) gs (e, c) =
    let (l, r) = Contiguous-split (n + length p) fs gs c in
    ((e, l), subst (λ k. Contiguous k gs) (sym (next_start n p fs)) r)
