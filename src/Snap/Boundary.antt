-- ===== src/Snap/Boundary.antt =====
-- Where SnapTailToSafeBoundary cuts.
use web_terminal.Prelude.{
  ℕ, zero, suc, ◌+◌, ◌-◌, ◌^◌, ◌≤◌, ◌<◌, ◌≡◌, ◌≢◌, refl, sym, ◌⊎◌, inl, inr, true, false, Option,
  none, some, [], ◌∷◌, Bytes, arith, length, get_elem?, drop, some_inj, Bool-cases, get_elem?-none,
  dec_lt, ℕ_discrete, ap, lt→ltb, not_lt→ltb,
}
use web_terminal.Prelude.Int.{pos, sub64-pos, sub64-negsuc}
use web_terminal.Snap.{
  is_newline, last_newline, is_continuation, leading_continuations, budget_start_of, snap_tail,
}

-- Byte `i` is the last newline of the bytes at or after `low`.
pub record IsLastNewline (bytes : Bytes) (low i : ℕ) : Type 0 where
  pub here : get_elem? bytes i ≡ some b'\n'
  pub in_window : low ≤ i
  pub latest : (j : ℕ) → i < j → get_elem? bytes j ≢ some b'\n'

-- No byte at or after `low` is a newline.
abbrev pub NoNewline : Bytes → ℕ → Type 0
NoNewline bytes low = (j : ℕ) → low ≤ j → get_elem? bytes j ≢ some b'\n'

-- The first `n` bytes are continuation bytes, and the one after them, if any, is not.
pub record SkipsContinuations (bytes : Bytes) (n : ℕ) : Type 0 where
  pub within : n ≤ length bytes
  pub skipped : (j : ℕ) (c : ℕ) → j < n → get_elem? bytes j ≡ some c → is_continuation c ≡ true
  pub stops : (c : ℕ) → get_elem? bytes n ≡ some c → is_continuation c ≡ false

SkipsContinuations-cons :
    (c : ℕ) (cs : Bytes) (n : ℕ)
    → is_continuation c ≡ true
    → SkipsContinuations cs n
    → SkipsContinuations (c ∷ cs) (suc n)
SkipsContinuations-cons c cs n h v = record {
  within = omega (arith, v.within);
  skipped = skip;
  stops = v.stops;
}
  where
    skip : (j d : ℕ) → j < suc n → get_elem? (c ∷ cs) j ≡ some d → is_continuation d ≡ true
    skip zero d l e = rw (some_inj (sym e)) h
    skip (suc j) d l e = v.skipped j d (omega arith) e

leading_continuations-Skips :
    (bytes : Bytes) → SkipsContinuations bytes (leading_continuations bytes)
unfolding leading_continuations
leading_continuations-Skips [] = record {
  within = omega arith;
  skipped = λ j c h e. cc;
  stops = λ c e. cc;
}
leading_continuations-Skips (c ∷ cs) = elim (Bool-cases (is_continuation c)) [
  | inl h ↦ rw h (SkipsContinuations-cons c cs _ h (leading_continuations-Skips cs))
  | inr h ↦ rw h (record {
    within = omega arith;
    skipped = λ j d l e. elim l [ ];
    stops = λ d e. rw (some_inj (sym e)) h;
  })
]

is_newline_cases :
    (o : Option ℕ)
    → ((is_newline o ≡ true) × (o ≡ some b'\n')) ⊎ ((is_newline o ≡ false) × (o ≢ some b'\n'))
is_newline_cases none = inr (refl, λ e. cc)
is_newline_cases (some c) = elim (ℕ_discrete c b'\n') [
  | yes e ↦ inl (ground arith, ap some e)
  | no e ↦ inr (ground arith, λ h. e (some_inj h))
]

-- What the search from index `n` down finds, if nothing from `n` on is a newline.
last_newline_lem :
    (bytes : Bytes) (low n : ℕ)
    → NoNewline bytes n
    → ((i : ℕ) × (last_newline bytes low n ≡ some i) × IsLastNewline bytes low i)
      ⊎ ((last_newline bytes low n ≡ none) × NoNewline bytes low)
unfolding last_newline
last_newline_lem bytes low zero f = inr (refl, λ j h. f j (omega arith))
last_newline_lem bytes low (suc n) f = elim (dec_lt n low) [
  | yes p ↦ rw (lt→ltb n low p) (inr (refl, λ j h. f j (omega arith)))
  | no p ↦ elim (is_newline_cases (get_elem? bytes n)) [
    | inl (t, e) ↦
        rw (not_lt→ltb n low p, t)
          (inl (n, refl, record { here = e; in_window = omega arith; latest = λ j h. f j h }))
    | inr (t, e) ↦
        rw (not_lt→ltb n low p, t) (last_newline_lem bytes low n (λ j h. widen j h e (dec_lt n j)))
  ]
]
  where
    widen :
        (j : ℕ)
        → n ≤ j
        → get_elem? bytes n ≢ some b'\n'
        → Dec (n < j)
        → get_elem? bytes j ≢ some b'\n'
    widen j h e (yes p) = f j p
    widen j h e (no p) = let same : j ≡ n = omega arith in rw same e

-- What SnapTailToSafeBoundary returns for a tail and the number of bytes that it may look back.
pub data IsBoundary (bytes : Bytes) (low : ℕ) (out : Bytes × ℕ) : Type 0 where
  after_newline :
      (i : ℕ)
      → IsLastNewline bytes low i
      → out ≡ (drop (i + 1) bytes, i + 1)
      → IsBoundary bytes low out
  no_newline :
      (n : ℕ)
      → NoNewline bytes low
      → SkipsContinuations bytes n
      → out ≡ (drop n bytes, n)
      → IsBoundary bytes low out

budget_start_lem : (n m : ℕ) → n < 2 ^ 63 → m < 2 ^ 63 → budget_start_of n (pos m) ≡ pos (n - m)
unfolding budget_start_of
budget_start_lem n m f g = elim (dec_lt n m) [
  | yes p ↦ rw (sub64-negsuc n m p g) (ground arith)
  | no p ↦ rw (sub64-pos n m (omega arith) f) (ground arith)
]

-- With fewer than 2 ^ 63 bytes and a window `m` below 2 ^ 63: the cut is just after the last newline
-- of the last `m` bytes, if these have one; else at the start of the tail, past its leading
-- continuation bytes. What is returned is the tail from the cut on, with the number of bytes before
-- the cut.
pub snap_tail-IsBoundary :
    (bytes : Bytes) (m : ℕ)
    → length bytes < 2 ^ 63
    → m < 2 ^ 63
    → IsBoundary bytes (length bytes - m) (snap_tail bytes (pos m))
unfolding snap_tail leading_continuations
snap_tail-IsBoundary [] m f g = no_newline 0 (λ j h e. cc) (leading_continuations-Skips []) refl
snap_tail-IsBoundary (c ∷ cs) m f g =
    (elim (last_newline_lem (c ∷ cs) (suc (length cs) - m) (suc (length cs)) nothing_after) [
      | inl (i, e, v) ↦
          rw (budget_start_lem (suc (length cs)) m f g, e, snap_tail) (after_newline i v refl)
      | inr (e, v) ↦
          rw (budget_start_lem (suc (length cs)) m f g, e, snap_tail)
            (no_newline (leading_continuations (c ∷ cs)) v (leading_continuations-Skips (c ∷ cs))
              refl)
    ])
  where
    nothing_after : NoNewline (c ∷ cs) (suc (length cs))
    nothing_after j h e = let none_there = get_elem?-none (c ∷ cs) j h in cc
