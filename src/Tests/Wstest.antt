-- ===== src/Tests/Wstest.antt =====
-- The command's search, and its count against a server whose second frame is new and whose first
-- frame overlaps the replay by one byte.
use web_terminal.Prelude.{
  zero, suc, ◌≡◌, ◌≢◌, ◌↔◌, refl, true, none, some, List, [], ◌∷◌, Bytes, map, arith,
}
use web_terminal.Prelude.Int.{ℤ, pos, negsuc}
use web_terminal.Prelude.Text.{codes}
use web_terminal.Protocol.{ServerControl}
use web_terminal.Replay.{ReplayBuffer, slice_from}
use web_terminal.Replay.History.{Holds}
use web_terminal.Client.{Client}
use web_terminal.Client.Frames.{Synced}
use web_terminal.Hello.{blank, replay}
use web_terminal.Wstest.{contains, await_resume}
use web_terminal.Wstest.Search.{Occurs, contains_iff}
use web_terminal.Wstest.Resume.{reading_of, resume_check_iff}

contains_iff_example :
    (contains (codes "a GO") (codes "GO") ≡ true)
    ↔ ((codes "a GO" ≢ []) × Occurs (codes "a GO") (codes "GO"))
contains_iff_example = contains_iff (codes "a GO") (codes "GO")

abbrev marshal : ServerControl → Bytes
marshal m = []

abbrev shown : Client
shown = record { offset = 2; shown = 65 ∷ 66 ∷ [] }

shown-Synced : Synced 0 (65 ∷ 66 ∷ 67 ∷ []) shown
shown-Synced = record { shows = refl; counts = refl; within = omega arith }

abbrev frames : List (ℤ × Bytes)
frames = (pos 1, 66 ∷ 67 ∷ []) ∷ []

-- A text for an offset that is not negative, and its decoding in a welcome to the session "a".
abbrev write_offset : ServerControl → Bytes
write_offset m = elim m.offset [
  | none ↦ []
  | some z ↦ elim z [ pos n ↦ 0 ∷ n ∷ [] | negsuc n ↦ 1 ∷ n ∷ [] ]
]

abbrev a_welcome : ℤ → ServerControl
a_welcome o = record blank { t = codes "welcome"; session_id = codes "a"; offset = some o }

abbrev read_offset : Bytes → ServerControl
read_offset (zero ∷ n ∷ []) = a_welcome (pos n)
read_offset (suc k ∷ n ∷ []) = a_welcome (negsuc n)
read_offset bytes = blank

read_written : (o : ℤ) → read_offset (write_offset (a_welcome o)) ≡ a_welcome o
read_written (pos n) = refl
read_written (negsuc n) = refl

abbrev four_bytes : ReplayBuffer
four_bytes = record {
  capacity = 4;
  chunks = (66 ∷ 67 ∷ 10 ∷ 68 ∷ []) ∷ [];
  stored = 4;
  end_at = pos 5;
}

four_bytes-Holds : Holds four_bytes (65 ∷ 66 ∷ 67 ∷ 10 ∷ 68 ∷ [])
four_bytes-Holds = record {
  positive = omega arith;
  bytes = refl;
  counted = refl;
  ends = refl;
  fits = omega arith;
}

resume_check_iff_example :
    ((await_resume read_offset
        (codes "a")
        (pos 3)
        (map (reading_of write_offset) (replay true (some (pos 3)) (codes "a") four_bytes))).0
      ≡ true)
    ↔ (slice_from four_bytes (pos 3) ≢ none)
resume_check_iff_example =
    resume_check_iff write_offset read_offset (codes "a") read_written four_bytes
      (65 ∷ 66 ∷ 67 ∷ 10 ∷ 68 ∷ []) (pos 3) four_bytes-Holds (omega arith)
