-- ===== src/Tests/Buffer.antt =====
-- The replay buffer and the tail's boundary, on a buffer of four bytes.
use web_terminal.Prelude.{◌≡◌, refl, some, none, List, [], ◌∷◌, Bytes, arith}
use web_terminal.Prelude.Int.{pos, sub64, add64}
use web_terminal.Replay.{
  ReplayBuffer, new_replay_buffer, append, slice_from, slice_from_locked, copy_chunks, copy_at,
  tail, evict_round, evict_rounds, evict_locked,
}
use web_terminal.Replay.Evict.{Evicts, evict_locked-Evicts}
use web_terminal.Replay.History.{Holds, append_all, history_retained}
use web_terminal.Replay.Slice.{retained_from, slice_from_lem, tail_lem}
use web_terminal.Snap.{snap_tail, last_newline, budget_start_of}
use web_terminal.Snap.Boundary.{IsBoundary, snap_tail-IsBoundary}

abbrev empty_four : ReplayBuffer
empty_four = record { capacity = 4; chunks = []; stored = 0; end_at = pos 0 }

abbrev two_chunks : List Bytes
two_chunks = (1 ∷ 2 ∷ 3 ∷ []) ∷ (4 ∷ 5 ∷ []) ∷ []

abbrev whole : Bytes
whole = 1 ∷ 2 ∷ 3 ∷ 4 ∷ 5 ∷ []

-- What is left of them.
abbrev four : ReplayBuffer
four = record {
  capacity = 4;
  chunks = (2 ∷ 3 ∷ []) ∷ (4 ∷ 5 ∷ []) ∷ [];
  stored = 4;
  end_at = pos 5;
}

append-two_chunks : append_all empty_four two_chunks ≡ four
unfolding append_all append evict_locked evict_rounds evict_round add64
append-two_chunks = refl

slice_in_range : slice_from four (pos 3) ≡ some (4 ∷ 5 ∷ [])
unfolding slice_from slice_from_locked copy_chunks copy_at sub64 add64
slice_in_range = refl

snap_at_newline : snap_tail (65 ∷ 10 ∷ 66 ∷ []) (pos 8) ≡ (66 ∷ [], 2)
unfolding snap_tail last_newline budget_start_of sub64
snap_at_newline = refl

four-Holds : Holds four whole
four-Holds = record {
  positive = omega arith;
  bytes = refl;
  counted = refl;
  ends = refl;
  fits = omega arith;
}

overfull : ReplayBuffer
overfull = record {
  capacity = 4;
  chunks = (1 ∷ 2 ∷ 3 ∷ []) ∷ (4 ∷ 5 ∷ []) ∷ [];
  stored = 5;
  end_at = pos 5;
}

evict_locked-Evicts_example :
    Evicts overfull (evict_locked overfull)
    × (evict_round (evict_locked overfull) ≡ none)
    × ((evict_locked overfull).stored ≡ 4)
unfolding overfull
evict_locked-Evicts_example = evict_locked-Evicts overfull refl

history_retained_example : Holds (append_all empty_four two_chunks) whole
unfolding new_replay_buffer
history_retained_example = history_retained 4 empty_four two_chunks refl (omega arith)

slice_from_lem_example : slice_from four (pos 3) ≡ some (4 ∷ 5 ∷ [])
unfolding retained_from
slice_from_lem_example = slice_from_lem four whole four-Holds (pos 3)

tail_lem_example : tail four (pos 2) ≡ (pos 3, 4 ∷ 5 ∷ [])
tail_lem_example = tail_lem four whole four-Holds 2 (omega arith)

snap_tail-IsBoundary_example :
    IsBoundary (65 ∷ 10 ∷ 66 ∷ []) 0 (snap_tail (65 ∷ 10 ∷ 66 ∷ []) (pos 8))
snap_tail-IsBoundary_example =
    snap_tail-IsBoundary (65 ∷ 10 ∷ 66 ∷ []) 8 (omega arith) (omega arith)
