-- ===== src/Tests/Lifecycle.antt =====
-- A session of the shell "a" in a store: a client comes, the process writes, the client leaves, the
-- reaper comes.
use web_terminal.Prelude.{◌≡◌, ◌≤◌, refl, true, false, some, none, [], ◌∷◌, arith}
use web_terminal.Prelude.Int.{pos, sub64}
use web_terminal.Pty.{Handle}
use web_terminal.Replay.History.{Holds}
use web_terminal.Session.{Session, kill_if_idle, applicable_grace, idle_for}
use web_terminal.Session.Exits.Steps.{
  Exiting, register, tell, take_out, Reach, start, later, marks, tells, registers, replies,
  told_once_in_steps,
}
use web_terminal.Session.Exits.{told, numbers, has}
use web_terminal.Store.{Store, new_session, new_buffer}

abbrev process : Handle
process = record { pid = 42; closed = false; closes = 0; kills = 0 }

abbrev shell : Session
shell = record {
  id = 97 ∷ [];
  title = [];
  created_at = 100;
  handle = some process;
  ptmx = none;
  cols = 80;
  rows = 24;
  alive = true;
  exit_code = pos 0;
  listeners = [];
  buffer = new_buffer;
  idle_since = some 100;
  idle_grace = pos 0;
  exits = [];
  next_listener = 0;
}

shell_is_new :
    new_session (97 ∷ []) [] 100 process 80 24
    ≡ record shell { ptmx = some (record { input = []; window = (80, 24) }) }
unfolding new_session
shell_is_new = refl

new_buffer-Holds : Holds new_buffer []
new_buffer-Holds = record {
  positive = omega arith;
  bytes = refl;
  counted = refl;
  ends = refl;
  fits = omega arith;
}

reaper_kills : (kill_if_idle shell 900 (pos 10)).0 ≡ true
unfolding kill_if_idle applicable_grace idle_for sub64
reaper_kills = refl

abbrev one_session : Store
one_session = record {
  sessions = (97 ∷ [], shell) ∷ [];
  default_command = [];
  files_root = [];
  idle_grace = pos 10;
  close_grace = pos 5;
}

-- A client comes, the process exits, a second client comes, and both are told.
abbrev both_told : Exiting
both_told = record {
  session =
      tell 1 (tell 0 (register (record (register shell) { alive = false; exit_code = pos 0 })));
  targets = [];
  waiting = [];
}

both_told-Reach : Reach shell both_told
unfolding register take_out tell
both_told-Reach =
    later
      (later (later (later (later start registers) (marks (pos 0) refl)) registers)
        (tells 0 [] refl))
      (replies 1 refl)

told_once_in_steps_example :
    (told 1 both_told.session.exits ≤ 1)
    × (both_told.session.alive ≡ true → told 1 both_told.session.exits ≡ 0)
    × (both_told.session.alive ≡ false
        → both_told.targets ≡ []
        → both_told.waiting ≡ []
        → has 1 (numbers both_told.session.listeners) ≡ true
        → told 1 both_told.session.exits ≡ 1)
told_once_in_steps_example = told_once_in_steps 1 shell (refl, refl, refl) both_told-Reach
