-- ===== src/Snap.antt =====
-- SnapTailToSafeBoundary of internal/session/replay.go: the boundary of a tail from which a
-- terminal may be repainted.
pub mod Boundary
use Prim.Native.Nat.{bit_and}
use web_terminal.Prelude.{
  ℕ, zero, suc, ◌+◌, Bool, Option, none, some, List, [], ◌∷◌, Bytes, length, get_elem?, drop, ltb,
  ◌==◌, if◌then◌else◌,
}
use web_terminal.Prelude.Int.{ℤ, pos, pos_part, sub64, ltb_ℤ}

-- data[i] == '\n'
abbrev pub is_newline : Option ℕ → Bool
is_newline none = Bool.false
is_newline (some c) = c == b'\n'

-- The loop `for i := …; i >= budgetStart; i--` with `i + 1` as its argument: the index of the last
-- newline at or after `budget_start`.
unfoldable pub last_newline : Bytes → ℕ → ℕ → Option ℕ
last_newline bytes budget_start zero = none
last_newline bytes budget_start (suc i) =
    let rest = last_newline bytes budget_start i in
    if ltb i budget_start then none else if is_newline (get_elem? bytes i) then some i else rest

-- data[start]&0xc0 == 0x80
unfoldable pub is_continuation : ℕ → Bool
is_continuation c = bit_and c 0xc0 == 0x80

-- The loop that skips leading continuation bytes: how many it skips.
unfoldable pub leading_continuations : Bytes → ℕ
leading_continuations [] = 0
leading_continuations (c ∷ bytes) =
    if is_continuation c then suc (leading_continuations bytes) else 0

unfoldable pub budget_start_of : ℕ → ℤ → ℤ
budget_start_of n max_bytes =
    let start = sub64 (pos n) max_bytes in if ltb_ℤ start (pos 0) then pos 0 else start

-- The trimmed tail and the number of bytes skipped.
unfoldable pub snap_tail : Bytes → ℤ → Bytes × ℕ
snap_tail [] max_bytes = ([], 0)
snap_tail (c ∷ cs) max_bytes =
    let bytes : Bytes = c ∷ cs in
    let budget_start = pos_part (budget_start_of (length bytes) max_bytes) in
    let start = leading_continuations bytes in
    elim (last_newline bytes budget_start (length bytes)) [
      | some i ↦ (drop (i + 1) bytes, i + 1)
      | none ↦ (drop start bytes, start)
    ]
