-- ===== src/Replay.antt =====
-- internal/session/replay.go: ReplayBuffer, the bounded ring of trailing output bytes with
-- cumulative offsets, and SnapTailToSafeBoundary. The mutex makes each method one atomic step, so a
-- method is a function of the buffer. Offsets are int64 and wrap; a length is a number.
pub mod Evict
pub mod History
pub mod Slice
use web_terminal.Prelude.{
  ℕ, zero, suc, ◌+◌, ◌-◌, ◌||◌, Option, none, some, List, [], ◌∷◌, ◌++◌, Bytes, length, take, drop,
  replicate, ltb, leb, if◌then◌else◌, min,
}
use web_terminal.Prelude.Int.{ℤ, pos, pos_part, add64, sub64, ltb_ℤ, leb_ℤ}

-- `end` of the source is `end_at`.
pub record ReplayBuffer : Type 0 where
  pub capacity : ℕ
  pub chunks : List Bytes
  pub stored : ℕ
  pub end_at : ℤ

-- NewReplayBuffer; `none` is its panic.
unfoldable pub new_replay_buffer : ℤ → Option ReplayBuffer
new_replay_buffer capacity =
    if leb_ℤ capacity (pos 0)
    then none
    else some (record { capacity = pos_part capacity; chunks = []; stored = 0; end_at = pos 0 })

unfoldable pub start_offset : ReplayBuffer → ℤ
start_offset b = sub64 b.end_at (pos b.stored)

unfoldable pub end_offset : ReplayBuffer → ℤ
end_offset b = b.end_at

-- One round of the loop of evictLocked; `none` when the loop's test fails.
unfoldable pub evict_round : ReplayBuffer → Option ReplayBuffer
evict_round b = elim b.chunks [
  | [] ↦ none
  | head ∷ rest ↦
      let excess = b.stored - b.capacity in
      if ltb b.capacity b.stored
      then (if leb (length head) excess
          then some (record b { chunks = rest; stored = b.stored - length head })
          else some (record b { chunks = drop excess head ∷ rest; stored = b.stored - excess }))
      else none
]

unfoldable pub evict_rounds : ℕ → ReplayBuffer → ReplayBuffer
evict_rounds zero b = b
evict_rounds (suc fuel) b = elim (evict_round b) [ none ↦ b | some b' ↦ evict_rounds fuel b' ]

-- evictLocked. A round drops a chunk, but for the last, which cuts one.
unfoldable pub evict_locked : ReplayBuffer → ReplayBuffer
evict_locked b = evict_rounds (length b.chunks + 2) b

unfoldable pub append : ReplayBuffer → Bytes → ReplayBuffer
append b [] = b
append b (x ∷ xs) =
    let chunk : Bytes = x ∷ xs in
    let kept =
      if ltb b.capacity (length chunk) then drop (length chunk - b.capacity) chunk else chunk in
    evict_locked (record b {
      chunks = b.chunks ++ kept ∷ [];
      stored = b.stored + length kept;
      end_at = add64 b.end_at (pos (length chunk));
    })

-- copy(dst[at:], src): the new destination and the count copied.
unfoldable pub copy_at : Bytes → ℕ → Bytes → Bytes × ℕ
copy_at dst at src =
    let n = min (length dst - at) (length src) in
    (take at dst ++ take n src ++ drop (at + n) dst, n)

-- The loop of sliceFromLocked over the chunks, with its variables `result`, `written`, `position`.
unfoldable pub copy_chunks : ℤ → List Bytes → ℤ → ℕ → Bytes → Bytes
copy_chunks offset [] position written result = result
copy_chunks offset (chunk ∷ chunks) position written result =
    let chunk_end = add64 position (pos (length chunk)) in
    let start = if ltb_ℤ position offset then sub64 offset position else pos 0 in
    let copied = copy_at result written (drop (pos_part start) chunk) in
    copy_chunks offset chunks chunk_end
      (if ltb_ℤ offset chunk_end then written + copied.1 else written)
      (if ltb_ℤ offset chunk_end then copied.0 else result)

-- sliceFromLocked; `none` is nil, which an empty slice is not.
unfoldable pub slice_from_locked : ReplayBuffer → ℤ → Option Bytes
slice_from_locked b offset =
    let start = sub64 b.end_at (pos b.stored) in
    if ltb_ℤ offset start || ltb_ℤ b.end_at offset
    then none
    else some (copy_chunks offset b.chunks start 0 (replicate (pos_part (sub64 b.end_at offset)) 0))

unfoldable pub slice_from : ReplayBuffer → ℤ → Option Bytes
slice_from b offset = slice_from_locked b offset

abbrev pub or_empty : Option Bytes → Bytes
or_empty none = []
or_empty (some bs) = bs

unfoldable pub tail : ReplayBuffer → ℤ → ℤ × Bytes
tail b max_bytes =
    let wanted = sub64 b.end_at max_bytes in
    let start = sub64 b.end_at (pos b.stored) in
    let offset = if ltb_ℤ wanted start then start else wanted in
    (offset, or_empty (slice_from_locked b offset))
