-- ===== src/Replay/Evict.antt =====
-- The loop of evictLocked: it ends by its own test, and it drops the oldest bytes only.
use web_terminal.Prelude.{
  ℕ, zero, suc, ◌+◌, ◌-◌, ◌≤◌, ◌<◌, ◌≡◌, refl, inl, inr, ◌∙◌, none, some, List, [], ◌∷◌, Bytes,
  arith, length, drop, concat, Option-cases, length-append, length-drop, drop-append, drop-drop,
  drop-all, ap, min, subst,
}
use web_terminal.Replay.{ReplayBuffer, evict_round, evict_rounds, evict_locked}

-- The `stored` field counts the bytes of the chunks.
abbrev pub IsCounted : ReplayBuffer → Type 0
IsCounted b = b.stored ≡ length (concat b.chunks)

-- The rounds that the loop has left, at most.
abbrev rounds : ReplayBuffer → ℕ
rounds b = length b.chunks + min 1 (b.stored - b.capacity)

-- `b'` keeps a suffix of the bytes of `b`, no shorter than the capacity, and all else.
pub record Evicts (b b' : ReplayBuffer) : Type 0 where
  pub counted : IsCounted b'
  pub kept : concat b'.chunks ≡ drop (b.stored - b'.stored) (concat b.chunks)
  pub fewer : b'.stored ≤ b.stored
  pub enough : min b.stored b.capacity ≤ b'.stored
  pub same_capacity : b'.capacity ≡ b.capacity
  pub same_end : b'.end_at ≡ b.end_at

join : (a b c : ℕ) → c ≤ b → b ≤ a → a - b + (b - c) ≡ a - c
join a b c h k = omega arith

Evicts-trans : {a b c : ReplayBuffer} → Evicts a b → Evicts b c → Evicts a c
Evicts-trans {a} {b} {c} p q = record {
  counted = q.counted;
  kept =
      q.kept
      ∙ ap (drop (b.stored - c.stored)) p.kept
      ∙ drop-drop (b.stored - c.stored) (a.stored - b.stored) (concat a.chunks)
      ∙ ap (λ n. drop n (concat a.chunks)) (join a.stored b.stored c.stored q.fewer p.fewer);
  fewer = omega arith;
  enough = omega arith;
  same_capacity = q.same_capacity ∙ p.same_capacity;
  same_end = q.same_end ∙ p.same_end;
}

evict_round-Evicts :
    (chunks : List Bytes) (b b' : ReplayBuffer)
    → b.chunks ≡ chunks
    → IsCounted b
    → evict_round b ≡ some b'
    → Evicts b b' × (rounds b' < rounds b)
unfolding evict_round
evict_round-Evicts [] b b' e n h = ground arith
evict_round-Evicts (head ∷ rest) b b' e n h = ground (
  arith,
  drop-append (b.stored - b.capacity) head (concat rest),
  drop-append (length head) head (concat rest),
  drop-all (length head) head,
  length-append head (concat rest),
  length-append (drop (b.stored - b.capacity) head) (concat rest),
  length-drop (b.stored - b.capacity) head,
)

evict_round-none :
    (chunks : List Bytes) (b : ReplayBuffer)
    → b.chunks ≡ chunks
    → IsCounted b
    → evict_round b ≡ none
    → b.stored ≤ b.capacity
unfolding evict_round
evict_round-none [] b e n h = ground arith
evict_round-none (head ∷ rest) b e n h = ground arith

Evicts-refl : (b : ReplayBuffer) → IsCounted b → Evicts b b
Evicts-refl b n = record {
  counted = n;
  kept = ap (λ k. drop k (concat b.chunks)) (self b.stored);
  fewer = omega arith;
  enough = omega arith;
  same_capacity = refl;
  same_end = refl;
}
  where
    self : (k : ℕ) → 0 ≡ k - k
    self k = omega arith

evict_rounds-Evicts :
    (fuel : ℕ) (b : ReplayBuffer)
    → IsCounted b
    → rounds b < fuel
    → Evicts b (evict_rounds fuel b)
      × (evict_round (evict_rounds fuel b) ≡ none)
      × ((evict_rounds fuel b).stored ≤ b.capacity)
unfolding evict_rounds
evict_rounds-Evicts zero b n h = absurd (omega arith)
evict_rounds-Evicts (suc fuel) b n h = elim (Option-cases (evict_round b)) [
  | inl e ↦ rw (e, evict_rounds) (Evicts-refl b n, e, evict_round-none b.chunks b refl n e)
  | inr (b', e) ↦
      let (step, fall) = evict_round-Evicts b.chunks b b' refl n e in
      let (p, q, r) = evict_rounds-Evicts fuel b' step.counted (omega arith) in
      rw (e, evict_rounds)
        (
          Evicts-trans step p,
          q,
          subst (λ k. (evict_rounds fuel b').stored ≤ k) step.same_capacity r,
        )
]

-- On a buffer whose `stored` counts the bytes of its chunks, evictLocked ends because the test of its
-- loop fails, not for want of rounds; it keeps a suffix of the retained bytes that fits the capacity
-- and is no shorter than it has to be.
pub evict_locked-Evicts :
    (b : ReplayBuffer)
    → IsCounted b
    → Evicts b (evict_locked b)
      × (evict_round (evict_locked b) ≡ none)
      × ((evict_locked b).stored ≡ min b.stored b.capacity)
unfolding evict_locked
evict_locked-Evicts b n =
    let (p, q, r) = evict_rounds-Evicts (length b.chunks + 2) b n (omega arith) in
    let low = p.enough in let high = p.fewer in (p, q, omega arith)
