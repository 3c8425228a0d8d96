-- ===== src/Tests/Serving.antt =====
-- A connection that shows the session "a" of a store, and is its only client.
use web_terminal.Store.Starting.{new_buffer-Holds}
use web_terminal.Connection.Sent.{IsSound, sends_understood}
use web_terminal.Prelude.{
  List, ℕ, ◌≡◌, refl, true, false, some, none, Option, [], ◌∷◌, Bytes, arith,
}
use web_terminal.Prelude.Int.{pos}
use web_terminal.Prelude.Text.{codes}
use web_terminal.Protocol.{ClientControl, Error}
use web_terminal.Session.{Session, delete, is_nil, applicable_grace}
use web_terminal.Delivery.{start_runner}
use web_terminal.Store.{Store, lookup, new_buffer}
use web_terminal.Connection.{
  Serve, new_serve, text, binary_frame, read_fails, returns, serve_all, on_error,
}
use web_terminal.Connection.Loop.{close_grace_applies}
use web_terminal.Connection.Ends.{loop_ends, loop_detaches}
use web_terminal.Connection.{try_again_later}
use web_terminal.Connection.{Happening, reads, delivery_fails, served}

abbrev shell : Session
shell = record {
  id = 97 ∷ [];
  title = [];
  created_at = 100;
  handle = some (record { pid = 42; closed = false; closes = 0; kills = 0 });
  ptmx = some (record { input = []; window = (80, 24) });
  cols = 80;
  rows = 24;
  alive = true;
  exit_code = pos 0;
  listeners = record { number = 0; runner = start_runner 10 } ∷ [];
  buffer = new_buffer;
  idle_since = none;
  idle_grace = pos 0;
  exits = [];
  next_listener = 1;
}

abbrev one_session : Store
one_session = record {
  sessions = (97 ∷ [], shell) ∷ [];
  default_command = [];
  files_root = [];
  idle_grace = pos 60;
  close_grace = pos 5;
}

abbrev showing : Serve
showing = record (new_serve one_session) { conn = record { current = some (97 ∷ [], 0) } }

-- A decoder that knows no text, and an error's text.
abbrev unmarshal : Bytes → Option ClientControl
unmarshal bytes = none

abbrev show : Error → Bytes
show e = 33 ∷ []

abbrev hello : ClientControl
hello = record {
  t = codes "hello";
  session_id = 97 ∷ [];
  last_offset = none;
  cols = pos 80;
  rows = pos 24;
}

shell_there : lookup (97 ∷ []) one_session.sessions ≡ some shell
unfolding lookup
shell_there = refl

last_client : is_nil (delete 0 shell.listeners) ≡ true
unfolding delete
last_client = refl

-- Input, a failing delivery, a frame that is no input, and the end.
abbrev happenings : List Happening
happenings =
    reads 110 (98 ∷ []) (binary_frame (2 ∷ 108 ∷ []))
    ∷ delivery_fails 115 (97 ∷ []) 0
    ∷ reads 120 (99 ∷ []) (binary_frame (7 ∷ []))
    ∷ reads 130 (100 ∷ []) (read_fails true)
    ∷ []

loop_ends_example :
    let w = served (λ o. some 42) [] [] unmarshal show happenings (new_serve one_session) in
    (w.done ≡ true) × (w.closed ≡ some try_again_later)
loop_ends_example = loop_ends (λ o. some 42) [] [] unmarshal show happenings one_session

loop_detaches_example :
    (served (λ o. some 42) [] [] unmarshal show happenings (new_serve one_session)).conn.current
    ≡ none
loop_detaches_example =
    loop_detaches (λ o. some 42) [] [] unmarshal show happenings one_session refl refl

close_grace_applies_example :
    (t : Session) × (lookup (97 ∷ []) (returns 200 true showing).store.sessions ≡ some t)
    × (t.idle_since ≡ some 200)
    × (applicable_grace t (pos 60) ≡ pos 5)
close_grace_applies_example =
    close_grace_applies 200 0 true showing (97 ∷ []) shell (pos 60) refl refl shell_there
      last_client (omega arith)

-- A decoder that reads every text as the hello.
abbrev greets : Bytes → Option ClientControl
greets bytes = some hello

new_serve-IsSound : IsSound (new_serve one_session)
new_serve-IsSound = record {
  sent = tt;
  stored = (record { output = []; holds = new_buffer-Holds; small = omega arith }, tt);
}

sends_understood_example :
    let w =
      serve_all
        (λ o. some 42)
        []
        []
        greets
        show
        ((110, 98 ∷ [], text []) ∷ (120, 99 ∷ [], binary_frame (7 ∷ [])) ∷ [])
        (new_serve one_session) in
    IsSound w × ((now : ℕ) (id : Bytes) (n : ℕ) → IsSound (on_error now id n w))
sends_understood_example =
    sends_understood (λ o. some 42) [] [] greets show
      ((110, 98 ∷ [], text []) ∷ (120, 99 ∷ [], binary_frame (7 ∷ [])) ∷ []) (new_serve one_session)
      new_serve-IsSound
