-- ===== src/Replay/Slice.antt =====
-- SliceFrom and Tail, against the output of the session.
use web_terminal.Prelude.{
  ℕ, zero, ◌+◌, ◌-◌, ◌^◌, ◌≤◌, ◌<◌, ◌≡◌, ◌∙◌, ap, ◌&&◌, inl, inr, Option, none, some, List, [], ◌∷◌,
  ◌++◌, append_assoc, Bytes, arith, length, drop, replicate, concat, leb, min, if◌then◌else◌,
  length-append, length-drop, length-replicate, drop-append, take-all, take-append_self,
  drop-append_self, drop-replicate, drop-drop, drop-nil, drop-all, drop-eq, Bool-cases, dec_lt,
}
use web_terminal.Prelude.Int.{ℤ, pos, negsuc, add64-pos, sub64, sub64-pos, sub64-negsuc, ltb_ℤ}
use web_terminal.Replay.{
  ReplayBuffer, copy_at, copy_chunks, slice_from, slice_from_locked, tail, or_empty,
}
use web_terminal.Replay.History.{Holds, take_right}

-- A copy into the zero bytes that follow `out` overwrites the first of them.
copy_at-replicate :
    (out src : Bytes) (k : ℕ)
    → length src ≤ k
    → copy_at (out ++ replicate k 0) (length out) src
      ≡ ((out ++ src) ++ replicate (k - length src) 0, length src)
unfolding copy_at
copy_at-replicate out src k h = rw (
  count,
  take-append_self out (replicate k 0),
  take-all (length src) src (omega arith),
  ← drop-drop (length src) (length out) (out ++ replicate k 0),
  drop-append_self out (replicate k 0),
  drop-replicate {A = ℕ} (length src) k 0,
)
  where
    count : min (length (out ++ replicate k 0) - length out) (length src) ≡ length src
    count = omega (arith, length-append out (replicate k 0), length-replicate k (zero))

-- The index in a chunk at `p` from which the loop copies.
chunk_start :
    (o p : ℕ)
    → o < 2 ^ 63
    → (if ltb_ℤ (pos p) (pos o) then sub64 (pos o) (pos p) else pos 0) ≡ pos (o - p)
unfolding sub64
chunk_start o p g = ground arith

-- What is wanted of a chunk and of those after it.
drop-chunk :
    (o p : ℕ) (c rest : Bytes)
    → drop (o - p) (c ++ rest) ≡ drop (o - p) c ++ drop (o - (p + length c)) rest
drop-chunk o p c rest =
    drop-append (o - p) c rest ∙ ap (λ n. drop (o - p) c ++ drop n rest) (minus_add o p (length c))
  where
    minus_add : (a b k : ℕ) → a - b - k ≡ a - (b + k)
    minus_add a b k = omega arith

-- The loop appends to the bytes copied so far what lies at or after the offset `o`.
copy_chunks_lem :
    (o : ℕ) (chunks : List Bytes) (p : ℕ) (out : Bytes) (k : ℕ)
    → p + length (concat chunks) < 2 ^ 63
    → o < 2 ^ 63
    → k ≡ length (drop (o - p) (concat chunks))
    → copy_chunks (pos o) chunks (pos p) (length out) (out ++ replicate k 0)
      ≡ out ++ drop (o - p) (concat chunks)
unfolding copy_chunks
copy_chunks_lem o [] p out k f g e =
    rw (drop-nil (o - p)) (ap (λ i. out ++ replicate i 0) (e ∙ ap length (drop-nil (o - p))))
copy_chunks_lem o (c ∷ cs) p out k f g e =
    rw
      (
        add64-pos p (length c) (omega (arith, length-append c (concat cs))),
        chunk_start o p g,
        copy_at-replicate out src k (omega (arith, parts)),
      )
      (elim (Bool-cases (ltb_ℤ (pos o) (pos (p + length c)))) [
        | inl more ↦
            rw
              (
                more,
                ← length-append out src,
                drop-chunk o p c (concat cs),
                ← append_assoc out src (drop (o - (p + length c)) (concat cs)),
              )
              (copy_chunks_lem o cs (p + length c) (out ++ src) (k - length src)
                (omega (arith, length-append c (concat cs))) g (omega (arith, parts)))
        | inr past ↦
            rw (past, drop-chunk o p c (concat cs), drop-all (o - p) c (ground arith))
              (copy_chunks_lem o cs (p + length c) out k
                (omega (arith, length-append c (concat cs))) g
                (omega (arith, parts, ap length (drop-all (o - p) c (ground arith)))))
      ])
  where
    src : Bytes
    src = drop (o - p) c

    parts : k ≡ length src + length (drop (o - (p + length c)) (concat cs))
    parts = e ∙ ap length (drop-chunk o p c (concat cs)) ∙ length-append src _

-- What a session of output `h` can still replay from an offset, with `n` bytes retained.
unfoldable pub retained_from : ℕ → Bytes → ℤ → Option Bytes
retained_from n h (negsuc i) = none
retained_from n h (pos o) =
    if leb (length h - n) o && leb o (length h) then some (drop o h) else none

-- The later of two starts: `m` bytes before the end `a`, which may be negative, and `n` bytes.
later_start :
    (a m n : ℕ)
    → m < 2 ^ 63
    → a < 2 ^ 63
    → (if ltb_ℤ (sub64 (pos a) (pos m)) (pos (a - n)) then pos (a - n) else sub64 (pos a) (pos m))
      ≡ pos (a - min m n)
later_start a m n f g = elim (dec_lt a m) [
  | yes p ↦ rw (sub64-negsuc a m p f) (ground arith)
  | no p ↦ rw (sub64-pos a m (omega arith) g) (ground arith)
]

module _ (b : ReplayBuffer) (h : Bytes) (v : Holds b h) where
  start_eq : sub64 b.end_at (pos b.stored) ≡ pos (length h - b.capacity)
  start_eq =
      let low = v.counted in
      let small = v.fits in
      rw v.ends (
        sub64-pos (length h) b.stored (omega arith) small
        ∙ ap pos (minus_min (length h) b.capacity b.stored low))
    where
      minus_min : (a n s : ℕ) → s ≡ min n a → a - s ≡ a - n
      minus_min a n s e = omega arith

  copied :
      (o : ℕ)
      → length h - b.capacity ≤ o
      → o ≤ length h
      → copy_chunks (pos o) b.chunks (pos (length h - b.capacity)) 0 (replicate (length h - o) 0)
        ≡ drop o h
  copied o low high =
      copy_chunks_lem o b.chunks s [] (length h - o)
        (omega (arith, ap length v.bytes, length-drop s h, v.fits)) (omega (arith, v.fits))
        (omega (arith, ap length wanted, length-drop o h))
      ∙ wanted
    where
      s : ℕ
      s = length h - b.capacity

      wanted : drop (o - s) (concat b.chunks) ≡ drop o h
      wanted =
          ap (drop (o - s)) v.bytes
          ∙ drop-drop (o - s) s h
          ∙ drop-eq (s + (o - s)) o h (omega arith)

  slice_from_locked_lem :
      (offset : ℤ) → slice_from_locked b offset ≡ retained_from b.capacity h offset
  unfolding slice_from_locked retained_from
  slice_from_locked_lem (negsuc i) = rw (start_eq, v.ends) (ground arith)
  slice_from_locked_lem (pos o) =
      rw (start_eq, v.ends) (ground (arith, copied o, sub64-pos (length h) o, v.fits))

  -- For a buffer that holds the last bytes of an output: SliceFrom returns the output's bytes from an
  -- offset on when that offset lies in the retained range, and nil otherwise, also for a negative
  -- offset or one past the end.
  pub slice_from_lem : (offset : ℤ) → slice_from b offset ≡ retained_from b.capacity h offset
  unfolding slice_from
  slice_from_lem offset = slice_from_locked_lem offset

  tail_offset :
      (m : ℕ)
      → m < 2 ^ 63
      → (if ltb_ℤ (sub64 b.end_at (pos m)) (sub64 b.end_at (pos b.stored))
          then sub64 b.end_at (pos b.stored)
          else sub64 b.end_at (pos m))
        ≡ pos (length h - min m b.capacity)
  tail_offset m f = rw (start_eq, v.ends) (later_start (length h) m b.capacity f v.fits)

  retained_right :
      (k : ℕ)
      → or_empty (retained_from b.capacity h (pos (length h - min k b.capacity)))
        ≡ take_right (min k b.capacity) h
  unfolding retained_from
  retained_right k = ground arith

  -- For a buffer that holds the last bytes of an output: Tail returns the last bytes of the output,
  -- as many as are asked for, fewer than 2 ^ 63, and the capacity allows, and the offset of the first
  -- of them.
  pub tail_lem :
      (m : ℕ)
      → m < 2 ^ 63
      → tail b (pos m) ≡ (pos (length h - min m b.capacity), take_right (min m b.capacity) h)
  unfolding tail
  tail_lem m f =
      rw (
        tail_offset m f,
        slice_from_locked_lem (pos (length h - min m b.capacity)),
        retained_right m,
      )
