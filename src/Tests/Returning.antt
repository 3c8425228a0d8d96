-- ===== src/Tests/Returning.antt =====
-- A client that has two bytes of a session's five comes back; the process writes a byte before the
-- client is attached and a byte after the answer is read.
use web_terminal.Prelude.{take, ℕ, ◌≡◌, refl, true, none, some, [], ◌∷◌, ◌++◌, Bytes, arith, inl}
use web_terminal.Prelude.Int.{pos, add64}
use web_terminal.Delivery.{
  draining, step, start_runner, new_output_delivery, enqueue, wake_in, drain, after_drain, write_in,
}
use web_terminal.Replay.{append, end_offset, evict_locked, evict_rounds, evict_round}
use web_terminal.Replay.History.{Holds}
use web_terminal.Client.{Client}
use web_terminal.Client.Frames.{Synced}
use web_terminal.Session.{
  Session, Listener, delivers, woken, write_done, act, attach, deliver, receives,
}
use web_terminal.Prelude.{◌≤◌}
use web_terminal.Prelude.Int.{ℤ}
use web_terminal.Session.Pump.{
  reading, appended, copied, Threads, enqueue_to, Run, here, later, reads, copies, enqueues_next,
  finishes, others,
}
use web_terminal.Session.Pump.Place.{IsStreamed}
use web_terminal.Prelude.{List}
use web_terminal.Session.{Action, outputs, attaches, pump_chunk, fanout}
use web_terminal.Session.Following.{produced}
use web_terminal.Session.Pump.Whole.{Run-append}
use web_terminal.Session.Pump.Streams.{attached_anytime}
use web_terminal.Session.Attached.{find_listener, HasDrained}
use web_terminal.Hello.{replay, handle_all}
use web_terminal.Hello.Live.{live}
use web_terminal.Hello.Journey.{new_page, Journey, loads, passes, visits, IsUnbroken}
use web_terminal.Hello.Answer.{Repaints}
use web_terminal.Hello.Journey.CatchUp.{journey_catches_up}
use web_terminal.Hello.Journey.InStep.{journey_in_step}
use web_terminal.Hello.Reconnect.{resume_streams}

abbrev output_so_far : Bytes
output_so_far = 65 ∷ 66 ∷ 67 ∷ 10 ∷ 68 ∷ []

abbrev shell : Session
shell = record {
  id = 97 ∷ [];
  title = [];
  created_at = 100;
  handle = none;
  ptmx = none;
  cols = 80;
  rows = 24;
  alive = true;
  exit_code = pos 0;
  listeners = [];
  buffer = record {
    capacity = 4;
    chunks = (66 ∷ 67 ∷ 10 ∷ 68 ∷ []) ∷ [];
    stored = 4;
    end_at = pos 5;
  };
  idle_since = some 100;
  idle_grace = pos 0;
  exits = [];
  next_listener = 0;
}

shell-Holds : Holds shell.buffer output_so_far
shell-Holds = record {
  positive = omega arith;
  bytes = refl;
  counted = refl;
  ends = refl;
  fits = omega arith;
}

abbrev returning : Client
returning = record { offset = 2; shown = 65 ∷ 66 ∷ [] }

returning-Synced : Synced 0 output_so_far returning
returning-Synced = record { shows = refl; counts = refl; within = omega arith }

-- The process writes a byte; the client is attached while its listeners are not copied yet.
abbrev at_start : Threads
at_start = record { session = shell; pump = reading }

abbrev at_append : Threads
at_append = record {
  session = record shell { buffer = append shell.buffer (69 ∷ []) };
  pump = appended (end_offset shell.buffer) (69 ∷ []);
}

to_append : Run at_start (69 ∷ []) at_append
to_append = later here (reads (69 ∷ []) refl refl)

-- The answer is read after the copy.
abbrev at_read : Threads
at_read = record {
  session = attach at_append.session;
  pump = copied (end_offset shell.buffer) (69 ∷ []) (0 ∷ []);
}

to_read : Run (record at_append { session = attach at_append.session }) [] at_read
unfolding attach
to_read = later here (copies (end_offset shell.buffer) (69 ∷ []) refl)

-- The byte is enqueued, another one follows it, and both are written.
abbrev served : Session → ℤ → Bytes → Session
served s offset chunk = record s { listeners = enqueue_to 0 offset chunk s.listeners }

abbrev first_served : Session
first_served = served at_read.session (end_offset shell.buffer) (69 ∷ [])

abbrev both_served : Session
both_served =
    served (record first_served { buffer = append first_served.buffer (70 ∷ []) })
      (end_offset first_served.buffer) (70 ∷ [])

abbrev in_the_end : Threads
in_the_end = record {
  session = act (act both_served 120 (delivers 0 woken)) 121 (delivers 0 (write_done true));
  pump = reading;
}

to_end : Run at_read (70 ∷ []) in_the_end
unfolding attach enqueue_to receives
to_end =
    later
      (later
        (later
          (later
            (later
              (later
                (later (later here (enqueues_next (end_offset shell.buffer) (69 ∷ []) 0 [] refl))
                  (finishes (end_offset shell.buffer) (69 ∷ []) refl))
                (reads (70 ∷ []) refl refl))
              (copies (end_offset first_served.buffer) (70 ∷ []) refl))
            (enqueues_next (end_offset first_served.buffer) (70 ∷ []) 0 [] refl))
          (finishes (end_offset first_served.buffer) (70 ∷ []) refl))
        (others 120 (delivers 0 woken) refl (λ e. refl)))
      (others 121 (delivers 0 (write_done true)) refl (λ e. refl))

-- Its listener after that.
abbrev attached : Listener
attached = record {
  number = 0;
  runner = record {
    delivery = new_output_delivery 2097152;
    phase = draining;
    written = (pos 5, 69 ∷ 70 ∷ []) ∷ [];
    errors = 0;
  };
}

found : find_listener 0 in_the_end.session.listeners ≡ some attached
unfolding find_listener act attach deliver enqueue_to receives start_runner step enqueue wake_in
    drain after_drain write_in end_offset
found = refl

answered : at_read.session.buffer ≡ record {
  capacity = 4;
  chunks = (67 ∷ 10 ∷ 68 ∷ []) ∷ (69 ∷ []) ∷ [];
  stored = 4;
  end_at = pos 6;
}
unfolding attach append evict_locked evict_rounds evict_round add64
answered = refl

returning-at_append : Synced 0 (output_so_far ++ 69 ∷ []) returning
returning-at_append = record { shows = refl; counts = refl; within = omega arith }

resume_streams_example :
    let c' = handle_all returning (
      replay true (some (pos 2)) (97 ∷ []) at_read.session.buffer
      ++ live attached.runner.written) in
    Synced 0 (output_so_far ++ 69 ∷ 70 ∷ []) c'
    × (in_the_end.pump ≡ reading → HasDrained attached → c'.offset ≡ 7)
resume_streams_example =
    resume_streams shell output_so_far shell-Holds (omega arith) to_append to_read to_end attached
      (omega arith) found (97 ∷ []) 0 returning returning-at_append (rw answered (omega arith))

attached_anytime_example :
    Holds in_the_end.session.buffer (output_so_far ++ 69 ∷ 70 ∷ [])
    × ((l : Listener)
        → find_listener 0 in_the_end.session.listeners ≡ some l
        → (base : ℕ) × (base ≤ 6)
          × IsStreamed base (output_so_far ++ 69 ∷ 70 ∷ []) in_the_end.pump l)
attached_anytime_example =
    attached_anytime shell output_so_far shell-Holds (omega arith) to_append
      (Run-append to_read to_end) (omega arith)

abbrev visit : List (ℕ × Action)
visit = (110, attaches) ∷ (120, outputs (69 ∷ [])) ∷ (130, delivers 0 woken) ∷ []

visit_output : produced shell visit ≡ 69 ∷ []
unfolding produced act attach pump_chunk fanout
visit_output = refl

-- The page is loaded; it comes while the pump is at work, and loses the connection after two messages.
abbrev lost_again : Client
lost_again =
    handle_all new_page
      (take 2 (replay true none (97 ∷ []) at_read.session.buffer ++ live attached.runner.written))

abbrev journey : Journey shell output_so_far (69 ∷ 70 ∷ []) in_the_end lost_again
journey =
    visits (passes loads to_append) to_read to_end attached found true none (97 ∷ []) 2 (inl refl)
      (λ gone two. two_one two)
  where
    two_one : ◌≡◌ {A = ℕ} 2 1 → ⊥
    two_one e = omega arith

journey_in_step_example :
    (base : ℕ) × Synced base (output_so_far ++ 69 ∷ 70 ∷ []) lost_again
    × (IsUnbroken journey → base ≡ 0)
journey_in_step_example =
    journey_in_step shell output_so_far shell-Holds (omega arith) journey (omega arith)

-- It comes back after the process has written, and keeps the connection.
abbrev first_part : Journey shell output_so_far (69 ∷ []) at_append new_page
first_part = passes loads to_append

journey_catches_up_example :
    let c' =
      handle_all new_page
        (replay true none (97 ∷ []) at_read.session.buffer ++ live attached.runner.written) in
    (base : ℕ) × Synced base (output_so_far ++ 69 ∷ 70 ∷ []) c'
    × (IsUnbroken first_part
        → ¬ (Repaints at_read.session.buffer (output_so_far ++ 69 ∷ []) true none)
        → base ≡ 0)
    × (in_the_end.pump ≡ reading → HasDrained attached → c'.offset ≡ 7)
journey_catches_up_example =
    journey_catches_up shell output_so_far shell-Holds (omega arith) first_part to_read to_end
      attached (omega arith) found true none (97 ∷ []) (inl refl)
