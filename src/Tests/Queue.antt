-- ===== src/Tests/Queue.antt =====
-- A delivery that starts at offset 7: a chunk is taken while another arrives.
use web_terminal.Prelude.{◌≡◌, refl, true, List, [], ◌∷◌, ◌++◌, Bytes}
use web_terminal.Prelude.Int.{pos}
use web_terminal.Delivery.{
  Event, enqueues, wakes, write_returns, Runner, run, step, start_runner, enqueue, wake_in, drain,
  after_drain, write_in,
}
use web_terminal.Delivery.Frames.{payloads, Contiguous}
use web_terminal.Delivery.Stream.{written_prefix}
use web_terminal.Delivery.Order.{Sound, run-start-Sound}

abbrev schedule : List Event
schedule =
    enqueues (pos 7) (1 ∷ 2 ∷ []) ∷ wakes ∷ enqueues (pos 9) (3 ∷ []) ∷ write_returns true ∷ []

abbrev result : Runner
result = run (start_runner 100) schedule

one_frame : result.written ≡ (pos 7, 1 ∷ 2 ∷ []) ∷ []
unfolding run step start_runner enqueue wake_in drain after_drain write_in
one_frame = refl

written_prefix_example :
    Contiguous 7 result.written
    × ((rest : Bytes) × (payloads result.written ++ rest ≡ 1 ∷ 2 ∷ 3 ∷ []))
written_prefix_example = written_prefix 7 100 schedule (refl, (refl, tt))

run-start-Sound_example : Sound 2 (run (start_runner 2) schedule)
run-start-Sound_example = run-start-Sound 2 schedule
