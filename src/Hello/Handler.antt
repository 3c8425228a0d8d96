-- ===== src/Hello/Handler.antt =====
-- handleHello as a whole: reap, find or start, attach, answer.
use mathlib.Core.Option
use web_terminal.Prelude.{
  ℕ, ◌+◌, ◌-◌, ◌^◌, false, ◌++◌, if◌then◌else◌, ◌≤◌, ◌≡◌, sym, ap, ◌∙◌, true, Option, none, some,
  List, [], ◌∷◌, Bytes, length, arith, subst,
}
use web_terminal.Prelude.Int.{pos, to_u16}
use web_terminal.Prelude.Text.{codes}
use web_terminal.Protocol.{ClientControl}
use web_terminal.Pty.{Options, Ptmx, start, resize_window}
use web_terminal.Delivery.{Runner, running, draining, start_runner, new_output_delivery}
use web_terminal.Client.{Client}
use web_terminal.Client.Frames.{Synced}
use web_terminal.Replay.History.{Holds}
use web_terminal.Session.{Session, attach, resize, is_closed, on_file}
use web_terminal.Store.{get_live, Store, lookup, reap, start_session, update}
use web_terminal.Store.Maps.{lookup-update}
use web_terminal.Hello.{
  control, blank, replay, detached, Conn, attach_to, find_existing, session_for, command_for,
  handle_hello, handle_all,
}
use web_terminal.Hello.Answer.{resume_continues}

start_fails :
    (spawn : Options → Option ℕ) (opts : Options)
    → ((o : Options) → spawn o ≡ none)
    → start spawn opts ≡ none
unfolding start
start_fails spawn opts fails = ground (arith, fails opts)

lookup-update_twice :
    (id : Bytes) (f g : Session → Session) (m : List (Bytes × Session)) (s : Session)
    → lookup id m ≡ some s
    → lookup id (update id g (update id f m)) ≡ some (g (f s))
lookup-update_twice id f g m s e =
    lookup-update id g (update id f m)
    ∙ ap (Option.map g) (lookup-update id f m ∙ ap (Option.map f) e)

-- The delivery of a listener at its start: an empty queue of 2 MiB, and a goroutine that runs.
abbrev pub empty_runner : Runner
empty_runner = record {
  delivery = record { max_bytes = 2097152; pending = []; start_offset = pos 0; state = running };
  phase = draining;
  written = [];
  errors = 0;
}

-- A session as it is once a client has joined it, with all that has changed.
abbrev pub joined_by : Session → Ptmx → ℕ → ℕ → Session
joined_by s f cols rows = record s {
  listeners = s.listeners ++ record { number = s.next_listener; runner = empty_runner } ∷ [];
  idle_since = none;
  idle_grace = pos 0;
  next_listener = s.next_listener + 1;
  cols = cols;
  rows = rows;
  ptmx = some (record f { window = (cols, rows) });
}

attach_then_resize :
    (s : Session) (f : Ptmx) (cols rows : ℕ)
    → s.alive ≡ true
    → is_closed s.handle ≡ false
    → s.ptmx ≡ some f
    → resize (attach s) cols rows ≡ joined_by s f cols rows
unfolding attach resize on_file resize_window start_runner new_output_delivery
attach_then_resize s f cols rows on unclosed file = ground arith

module _ (spawn : Options → Option ℕ) (env default_command : List Bytes) where
  -- A hello that names a session which lives after the reap is answered from that session.
  found :
      (st : Store) (c : Conn) (hello : ClientControl) (id : Bytes) (now : ℕ) (s : Session)
      → find_existing spawn env default_command (reap st now).0 hello ≡ some s
      → (handle_hello spawn env default_command st c hello id now).2
        ≡ replay true hello.last_offset s.id s.buffer
  unfolding handle_hello session_for attach_to
  found st c hello id now s e = ground arith

  found_alive :
      (st : Store) (hello : ClientControl) (s : Session)
      → find_existing spawn env default_command st hello ≡ some s
      → s.alive ≡ true
  unfolding find_existing get_live
  found_alive st hello s e = by_id hello.session_id e
    where
      alive_of :
          (o : Option Session)
          → elim o [ none ↦ none | some t ↦ if t.alive then some t else none ] ≡ some s
          → s.alive ≡ true
      alive_of none e = cc
      alive_of (some t) e = ground arith

      by_id :
          (k : Bytes)
          → elim k [ [] ↦ none | c ∷ cs ↦ get_live st (c ∷ cs) ] ≡ some s
          → s.alive ≡ true
      by_id [] e = cc
      by_id (c ∷ cs) e = alive_of (lookup (c ∷ cs) st.sessions) e

  -- A hello for a new session whose command cannot be started is answered with an error message
  -- alone: it attaches to nothing, and the store is as the reap left it.
  failed_start :
      (st : Store) (c : Conn) (hello : ClientControl) (id : Bytes) (now : ℕ)
      → hello.session_id ≡ []
      → ((opts : Options) → spawn opts ≡ none)
      → handle_hello spawn env default_command st c hello id now ≡ (
        (reap st now).0,
        c,
        control (record blank { t = codes "error"; message = codes "failed to start session" })
            ∷ [],
      )
  unfolding handle_hello session_for find_existing start_session
  failed_start st c hello id now e fails = ground (
    arith,
    start_fails spawn
        (record {
          command = command_for spawn env default_command (reap st now).0;
          cols = to_u16 hello.cols;
          rows = to_u16 hello.rows;
          cwd = [];
          env = env;
        })
        fails,
  )

  stored :
      (st : Store) (c : Conn) (hello : ClientControl) (id : Bytes) (now : ℕ) (s : Session)
      → find_existing spawn env default_command (reap st now).0 hello ≡ some s
      → c.current ≡ none
      → (handle_hello spawn env default_command st c hello id now).0.sessions
        ≡ update s.id
            (λ t. resize t (to_u16 hello.cols) (to_u16 hello.rows))
            (update s.id attach (reap st now).0.sessions)
  unfolding handle_hello session_for attach_to detached
  stored st c hello id now s e first = ground arith

  connected :
      (st : Store) (c : Conn) (hello : ClientControl) (id : Bytes) (now : ℕ) (s : Session)
      → find_existing spawn env default_command (reap st now).0 hello ≡ some s
      → (handle_hello spawn env default_command st c hello id now).1.current
        ≡ some (s.id, s.next_listener)
  unfolding handle_hello session_for attach_to
  connected st c hello id now s e = ground arith

  -- The first hello of a connection that names a session alive after the reap, whose pseudo-terminal is
  -- open, from a client in step with that session's output (of at most 2 ^ 53 bytes) at an offset
  -- still retained. In the store the session then has the listeners that it had and one more, with
  -- the next number, an empty running queue of 2 MiB and nothing written; it has no idle time, it and
  -- its pseudo-terminal have the client's window size, and the rest of it is as it was. The connection
  -- shows that listener, and the messages leave the client in step, with the end of the output as its
  -- offset.
  pub hello_resumes :
      (st : Store) (c : Conn) (hello : ClientControl) (id : Bytes) (now : ℕ) (s : Session)
      (f : Ptmx) (h : Bytes) (base : ℕ) (client : Client)
      → find_existing spawn env default_command (reap st now).0 hello ≡ some s
      → lookup s.id (reap st now).0.sessions ≡ some s
      → is_closed s.handle ≡ false
      → s.ptmx ≡ some f
      → c.current ≡ none
      → hello.last_offset ≡ some (pos client.offset)
      → Holds s.buffer h
      → length h ≤ 2 ^ 53
      → Synced base h client
      → length h - s.buffer.capacity ≤ client.offset
      → let (st', c', messages) = handle_hello spawn env default_command st c hello id now in
        let client' = handle_all client messages in
        (lookup s.id st'.sessions ≡ some (joined_by s f (to_u16 hello.cols) (to_u16 hello.rows)))
        × (c'.current ≡ some (s.id, s.next_listener))
        × Synced base h client'
        × (client'.offset ≡ length h)
  hello_resumes st c hello id now s f h base client e there unclosed file first last v small synced
        retained =
      (
        ap (lookup s.id) (stored st c hello id now s e first)
            ∙ lookup-update_twice s.id attach
                (λ t. resize t (to_u16 hello.cols) (to_u16 hello.rows)) (reap st now).0.sessions s
                there
            ∙ ap some (
                attach_then_resize s f (to_u16 hello.cols) (to_u16 hello.rows)
                  (found_alive (reap st now).0 hello s e) unclosed file),
        connected st c hello id now s e,
        subst (λ ms. Synced base h (handle_all client ms)) (sym messages) answer.0,
        ap (λ ms. (handle_all client ms).offset) messages ∙ answer.1,
      )
    where
      messages :
          (handle_hello spawn env default_command st c hello id now).2
          ≡ replay true (some (pos client.offset)) s.id s.buffer
      messages = found st c hello id now s e ∙ ap (λ o. replay true o s.id s.buffer) last

      answer :
          let c' = handle_all client (replay true (some (pos client.offset)) s.id s.buffer) in
          Synced base h c' × (c'.offset ≡ length h)
      answer = resume_continues s.buffer h v small s.id base client synced retained
