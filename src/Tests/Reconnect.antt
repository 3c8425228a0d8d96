-- ===== src/Tests/Reconnect.antt =====
-- A client that has two bytes of a session's five comes back.
use web_terminal.Prelude.{
  ◌<◌, ◌≤◌, take, drop, ◌≡◌, refl, true, false, some, none, List, [], ◌∷◌, ◌++◌, Bytes, arith, inl,
}
use web_terminal.Prelude.Int.{ℤ, pos}
use web_terminal.Prelude.Text.{codes}
use web_terminal.Protocol.{ClientControl}
use web_terminal.Pty.{Ptmx, Handle}
use web_terminal.Replay.{ReplayBuffer}
use web_terminal.Replay.History.{Holds}
use web_terminal.Client.{Client}
use web_terminal.Client.Frames.{Synced}
use web_terminal.Session.{Session, kill_if_idle, applicable_grace}
use web_terminal.Store.{Store, lookup, reap, get_live, reap_sessions, visit}
use web_terminal.Hello.{Conn, replay, handle_all, handle_hello, find_existing}
use web_terminal.Hello.Handler.{hello_resumes, joined_by}
use web_terminal.Hello.Lost.{cut_welcome_skips, overtaken_answer_repeats}
use web_terminal.Hello.Live.{live, gap_wedges, overtaken_answer_wedges}

abbrev output_so_far : Bytes
output_so_far = 65 ∷ 66 ∷ 67 ∷ 10 ∷ 68 ∷ []

abbrev four_bytes : ReplayBuffer
four_bytes = record {
  capacity = 4;
  chunks = (66 ∷ 67 ∷ 10 ∷ 68 ∷ []) ∷ [];
  stored = 4;
  end_at = pos 5;
}

four_bytes-Holds : Holds four_bytes output_so_far
four_bytes-Holds = record {
  positive = omega arith;
  bytes = refl;
  counted = refl;
  ends = refl;
  fits = omega arith;
}

abbrev returning : Client
returning = record { offset = 2; shown = 65 ∷ 66 ∷ [] }

returning-Synced : Synced 0 output_so_far returning
returning-Synced = record { shows = refl; counts = refl; within = omega arith }

abbrev late_frames : List (ℤ × Bytes)
late_frames = (pos 3, 10 ∷ 68 ∷ []) ∷ []

late_frames_dropped : handle_all returning (live late_frames) ≡ returning
late_frames_dropped = gap_wedges 3 late_frames returning (omega arith) (omega arith) (refl, tt)

abbrev new_client : Client
new_client = record { offset = 0; shown = [] }

overtaken_answer_wedges_example :
    let c' =
      handle_all new_client
        (live ((pos 5, 69 ∷ []) ∷ []) ++ replay false none (97 ∷ []) four_bytes) in
    (c'.offset ≡ 5) × (handle_all c' (live ((pos 6, 70 ∷ []) ∷ [])) ≡ c')
overtaken_answer_wedges_example =
    overtaken_answer_wedges four_bytes output_so_far (97 ∷ []) (69 ∷ []) new_client false none
      ((pos 6, 70 ∷ []) ∷ []) four_bytes-Holds (omega arith) (λ e. cc) (inl refl) (refl, tt)

cut_welcome_skips_example :
    let c' = handle_all new_client (take 1 (replay true (some (pos 0)) (97 ∷ []) four_bytes)) in
    (0 < c'.offset)
    × (c'.offset ≤ 5)
    × (handle_all c' (replay true (some (pos c'.offset)) (97 ∷ []) four_bytes)
        ≡ record { offset = 5; shown = drop c'.offset output_so_far })
cut_welcome_skips_example =
    cut_welcome_skips four_bytes output_so_far (97 ∷ []) new_client four_bytes-Holds (omega arith)
      (omega arith)

abbrev up_to_date : Client
up_to_date = record { offset = 4; shown = 65 ∷ 66 ∷ 67 ∷ 10 ∷ [] }

overtaken_answer_repeats_example :
    handle_all up_to_date
      (live ((pos 4, 68 ∷ []) ∷ []) ++ replay true (some (pos 4)) (97 ∷ []) four_bytes)
    ≡ record { offset = 5; shown = 65 ∷ 66 ∷ 67 ∷ 10 ∷ 68 ∷ 68 ∷ [] }
overtaken_answer_repeats_example =
    overtaken_answer_repeats four_bytes (65 ∷ 66 ∷ 67 ∷ 10 ∷ []) (68 ∷ []) (97 ∷ []) up_to_date
      four_bytes-Holds (omega arith) refl (omega arith)

abbrev process : Handle
process = record { pid = 42; closed = false; closes = 0; kills = 0 }

abbrev shell_file : Ptmx
shell_file = record { input = []; window = (120, 40) }

abbrev shell : Session
shell = record {
  id = 97 ∷ [];
  title = [];
  created_at = 100;
  handle = some process;
  ptmx = some shell_file;
  cols = 80;
  rows = 24;
  alive = true;
  exit_code = pos 0;
  listeners = [];
  buffer = four_bytes;
  idle_since = some 100;
  idle_grace = pos 0;
  exits = [];
  next_listener = 0;
}

abbrev one_session : Store
one_session = record {
  sessions = (97 ∷ [], shell) ∷ [];
  default_command = [];
  files_root = [];
  idle_grace = pos 0;
  close_grace = pos 0;
}

abbrev hello : ClientControl
hello = record {
  t = codes "hello";
  session_id = 97 ∷ [];
  last_offset = some (pos 2);
  cols = pos 80;
  rows = pos 24;
}

abbrev no_session : Conn
no_session = record { current = none }

still_there : find_existing (λ o. some 43) [] [] (reap one_session 105).0 hello ≡ some shell
unfolding find_existing get_live lookup reap reap_sessions visit kill_if_idle applicable_grace
still_there = refl

stored_there : lookup shell.id (reap one_session 105).0.sessions ≡ some shell
unfolding lookup reap reap_sessions visit kill_if_idle applicable_grace
stored_there = refl

hello_resumes_example :
    let (st', c', messages) =
      handle_hello (λ o. some 43) [] [] one_session no_session hello (98 ∷ []) 105 in
    let client' = handle_all returning messages in
    (lookup shell.id st'.sessions ≡ some (joined_by shell shell_file 80 24))
    × (c'.current ≡ some (shell.id, shell.next_listener))
    × Synced 0 output_so_far client'
    × (client'.offset ≡ 5)
hello_resumes_example =
    hello_resumes (λ o. some 43) [] [] one_session no_session hello (98 ∷ []) 105 shell shell_file
      output_so_far 0 returning still_there stored_there refl refl refl refl four_bytes-Holds
      (omega arith) returning-Synced (omega arith)

abbrev fresh_hello : ClientControl
fresh_hello = record {
  t = codes "hello";
  session_id = [];
  last_offset = none;
  cols = pos 80;
  rows = pos 24;
}
