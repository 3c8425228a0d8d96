-- ===== src/Tests/Sharing.antt =====
-- Two connections over one store: the first shows the session "a"; the second comes to it and leaves.
use web_terminal.Prelude.{
  ap, ◌==◌, if◌then◌else◌, subst, inl, inr, Bool-cases, some_inj, sym, ◌∙◌, ℕ, ◌≡◌, refl, Bool,
  true, false, some, none, Option, [], ◌∷◌, Bytes, arith,
}
use web_terminal.Prelude.Int.{pos}
use web_terminal.Prelude.Text.{str_eq, str_eq→≡}
use web_terminal.Protocol.{ClientControl, Error}
use web_terminal.Session.{Session, attach}
use web_terminal.Delivery.{start_runner}
use web_terminal.Store.{Store, lookup, new_buffer, reap, insert, new_session, start_session}
use web_terminal.Pty.{start}
use web_terminal.Connection.{Incoming, binary_frame, Serve, new_serve, serve_one}
use web_terminal.Shared.{
  connection, Shared, connection, reaper, Run, here, later, new_shared, tick, attaches_to, own,
  issue, Step, starts, at_session,
}
use web_terminal.Shared.Owned.{IsOwned, IsSound}
use web_terminal.Shared.Sound.{Run-IsSound}
use web_terminal.Shared.Spared.{IsServed}
use web_terminal.Shared.Served.{listener_kept}
use web_terminal.Shared.Handlers.{HasRun, serve_one_run}
use web_terminal.Shared.Runs.{Owns}
use web_terminal.Shared.Serving.{Turn, over, set, IsServing, at_first, then_turns, reads, ticks}
use web_terminal.Shared.Serving.Kept.{clients_kept}

abbrev shell : Session
shell = record {
  id = 97 ∷ [];
  title = [];
  created_at = 100;
  handle = some (record { pid = 42; closed = false; closes = 0; kills = 0 });
  ptmx = some (record { input = []; window = (80, 24) });
  cols = 80;
  rows = 24;
  alive = true;
  exit_code = pos 0;
  listeners = record { number = 0; runner = start_runner 10 } ∷ [];
  buffer = new_buffer;
  idle_since = none;
  idle_grace = pos 0;
  exits = [];
  next_listener = 1;
}

abbrev one_session : Store
one_session = record {
  sessions = (97 ∷ [], shell) ∷ [];
  default_command = [];
  files_root = [];
  idle_grace = pos 60;
  close_grace = pos 5;
}

abbrev owner : Bytes → ℕ → Option ℕ
owner = own (97 ∷ []) 0 1 (λ id n. none)

abbrev issued : Bytes → Bool
issued id = str_eq (97 ∷ []) id

abbrev one_connection : Shared
one_connection = record { store = one_session; owner = owner; issued = issued }

shell-IsOwned : IsOwned owner issued (97 ∷ []) shell
shell-IsOwned = record {
  keyed = refl;
  idle = refl;
  rising = omega arith;
  given = refl;
  low = λ n i e. ground arith;
  owned = λ n h e. ground arith;
}

one_connection-IsSound : IsSound one_connection
unfolding lookup
one_connection-IsSound = record {
  unique = (refl, tt);
  each = λ id s e. elim (Bool-cases (str_eq (97 ∷ []) id)) [
    | inl hit ↦
        subst (IsOwned owner issued id) (some_inj (sym (found id hit) ∙ e))
          (subst (λ k. IsOwned owner issued k shell) (str_eq→≡ (97 ∷ []) id hit) shell-IsOwned)
    | inr miss ↦ absurd (none-some (sym (not_found id miss) ∙ e))
  ];
  known = λ id n i e. ground (arith);
}
  where
    none-some : {s : Session} → none ≡ some s → ⊥
    none-some e = cc

    found : (id : Bytes) → str_eq (97 ∷ []) id ≡ true → lookup id one_session.sessions ≡ some shell
    found id hit = rw hit refl

    not_found : (id : Bytes) → str_eq (97 ∷ []) id ≡ false → lookup id one_session.sessions ≡ none
    not_found id miss = rw miss refl

shell-IsServed : IsServed one_session (97 ∷ []) 0
unfolding lookup
shell-IsServed = record { session = shell; there = refl; runs = refl; registered = refl }

-- The second connection attaches, and the reaper comes.
abbrev two_connections : Shared
two_connections = record (at_session (97 ∷ []) attach one_connection) {
  owner = own (97 ∷ []) 1 2 owner;
}

abbrev reaped : Shared
reaped = record two_connections { store = (reap two_connections.store 900).0 }

second_comes : Run (λ o. some 43) [] one_connection (reaper ∷ connection 2 ∷ []) reaped
unfolding lookup
second_comes = later (later here (attaches_to 2 (97 ∷ []) shell refl)) (tick 900)

listener_kept_example :
    IsSound reaped × IsServed reaped.store (97 ∷ []) 0 × (reaped.owner (97 ∷ []) 0 ≡ some 1)
listener_kept_example =
    listener_kept (λ o. some 43) [] (97 ∷ []) 0 1 one_connection-IsSound refl shell-IsServed
      second_comes (((λ e. cc), (λ e. cc)), (((λ e. cc), (λ e. cc)), tt))

-- A decoder that knows no text, and an error's text.
abbrev unmarshal : Bytes → Option ClientControl
unmarshal bytes = none

abbrev show : Error → Bytes
show e = 33 ∷ []

abbrev second : Serve
second = new_serve one_session

-- A server at its start, on which the first connection starts a session, attaches, and the reaper comes.
abbrev at_start : Store
at_start = record one_session { sessions = [] }

abbrev started : Session
started = record shell {
  handle = some (record { pid = 43; closed = false; closes = 0; kills = 0 });
  listeners = [];
  idle_since = some 100;
  next_listener = 0;
}

abbrev with_started : Shared
with_started = record {
  store = record at_start { sessions = (97 ∷ [], started) ∷ [] };
  owner = λ id n. none;
  issued = issue (97 ∷ []) (λ id. false);
}

abbrev attached : Shared
attached = record (at_session (97 ∷ []) attach with_started) {
  owner = own (97 ∷ []) 0 1 (λ id n. none);
}

abbrev visited : Shared
visited = record attached { store = (reap attached.store 900).0 }

first_comes :
    Run (λ o. some 43) [] (new_shared at_start) (reaper ∷ connection 1 ∷ connection 1 ∷ []) visited
unfolding lookup
first_comes = later (later (later here starting) (attaches_to 1 (97 ∷ []) started refl)) (tick 900)
  where
    starting : Step (λ o. some 43) [] (new_shared at_start) (connection 1) with_started
    starting =
        starts 1 100 (97 ∷ []) ((115 ∷ []) ∷ []) 80 24 [] started with_started.store refl
          (unfold start_session start new_session insert in refl)

Run-IsSound_example : IsSound visited
Run-IsSound_example = Run-IsSound (λ o. some 43) [] at_start refl first_comes

-- The first connection shows the session, and the second has just come.
abbrev first : Serve
first = record (new_serve one_session) { conn = record { current = some (97 ∷ [], 0) } }

abbrev two_peers : ℕ → Serve
two_peers i = if i == 1 then first else second

two_peers-IsServing : IsServing one_connection two_peers
two_peers-IsServing = record { sound = one_connection-IsSound; owns = shown }
  where
    shown : (i : ℕ) → Owns owner i (two_peers i).conn.current
    shown i = elim (Bool-cases (i == 1)) [
      | inl hit ↦ rw hit (ap some (one_is i hit))
      | inr miss ↦ rw miss tt
    ]
      where
        one_is : (i : ℕ) → i == 1 ≡ true → 1 ≡ i
        one_is i hit = ground (arith, hit)

-- The second connection sends a frame that is refused, and the reaper comes.
abbrev refused : Serve
refused = serve_one (λ o. some 43) [] [] unmarshal show 900 (98 ∷ []) (binary_frame (7 ∷ [])) second

abbrev second_refused : HasRun (λ o. some 43) [] one_connection 2 refused
second_refused =
    serve_one_run (λ o. some 43) [] [] unmarshal show owner issued second 2 one_connection-IsSound
      tt 900 (98 ∷ []) (binary_frame (7 ∷ [])) refl

abbrev afterwards : Shared
afterwards = record {
  store = (reap refused.store 1000).0;
  owner = second_refused.owner;
  issued = second_refused.issued;
}

clients_kept_example :
    IsServing afterwards (set 2 refused two_peers)
    × IsServed afterwards.store (97 ∷ []) 0
    × (set 2 refused two_peers 1 ≡ first)
    × ((j now : ℕ) (new : Bytes) (m : Incoming)
        → afterwards.issued new ≡ false
        → (u' : Shared) × Turn
            (λ o. some 43)
            []
            []
            unmarshal
            show
            afterwards
            (set 2 refused two_peers)
            (connection j)
            u'
            (set j
              (serve_one
                (λ o. some 43)
                []
                []
                unmarshal
                show
                now
                new
                m
                (over afterwards (set 2 refused two_peers j)))
              (set 2 refused two_peers)))
clients_kept_example =
    clients_kept (λ o. some 43) [] [] unmarshal show (97 ∷ []) 0 1 two_peers-IsServing refl
      shell-IsServed
      (then_turns
        (then_turns at_first (reads 2 900 (98 ∷ []) (binary_frame (7 ∷ [])) refl second_refused))
        (ticks 1000))
      (((λ e. cc), (λ e. cc)), (((λ e. cc), (λ e. cc)), tt))
