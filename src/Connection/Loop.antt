-- ===== src/Connection/Loop.antt =====
-- What the end of a connection's loop leaves of its session.
use web_terminal.Prelude.{
  ℕ, ◌≡◌, Bool, true, false, Option, some, List, Bytes, arith, if◌then◌else◌,
}
use web_terminal.Prelude.Int.{ℤ, pos, ◌≤ℤ◌}
use web_terminal.Protocol.{ClientControl, Error}
use web_terminal.Pty.{Options}
use web_terminal.Session.{
  Session, delete, is_nil, remove_listener, mark_client_closed, applicable_grace,
}
use web_terminal.Store.{lookup, update}
use web_terminal.Store.Maps.{lookup-update}
use web_terminal.Hello.{detached}
use web_terminal.Connection.{Serve, close_with, on_current, cleanup, returns, send, serve_control}

-- The last client of a session leaves by closing, or is cut off.
left_alone :
    (s : Session) (now n : ℕ) (close_grace default_grace : ℤ)
    → is_nil (delete n s.listeners) ≡ true
    → pos 1 ≤ℤ close_grace
    → (applicable_grace (mark_client_closed (remove_listener s now n) close_grace) default_grace
        ≡ close_grace)
      × ((mark_client_closed (remove_listener s now n) close_grace).idle_since ≡ some now)
      × (applicable_grace (remove_listener s now n) default_grace ≡ default_grace)
      × ((remove_listener s now n).idle_since ≡ some now)
unfolding remove_listener mark_client_closed applicable_grace
left_alone s now n g d last h = ground arith

left_sessions :
    (now n : ℕ) (clean : Bool) (v : Serve) (shown : Bytes) (s : Session)
    → v.cleaned ≡ false
    → v.conn.current ≡ some (shown, n)
    → lookup shown v.store.sessions ≡ some s
    → lookup shown (returns now clean v).store.sessions
      ≡ some (
          if clean
          then mark_client_closed (remove_listener s now n) v.store.close_grace
          else remove_listener s now n)
unfolding returns cleanup close_with on_current detached
left_sessions now n clean v shown s fresh c there = ground (
  arith,
  lookup-update shown (λ t. remove_listener t now n) v.store.sessions,
  lookup-update shown (λ t. mark_client_closed t v.store.close_grace)
      (update shown (λ t. remove_listener t now n) v.store.sessions),
)

-- When the loop of a connection returns that is the last client of its session: the session's idle
-- time starts now, and its applicable grace is the store's positive close grace if the peer closed
-- the connection, and the reaper's default grace if it was cut off.
pub close_grace_applies :
    (now n : ℕ) (clean : Bool) (v : Serve) (shown : Bytes) (s : Session) (default_grace : ℤ)
    → v.cleaned ≡ false
    → v.conn.current ≡ some (shown, n)
    → lookup shown v.store.sessions ≡ some s
    → is_nil (delete n s.listeners) ≡ true
    → pos 1 ≤ℤ v.store.close_grace
    → (t : Session) × (lookup shown (returns now clean v).store.sessions ≡ some t)
      × (t.idle_since ≡ some now)
      × (applicable_grace t default_grace ≡ (if clean then v.store.close_grace else default_grace))
close_grace_applies now n true v shown s d fresh c there last h =
    let (grace, since, _, _) = left_alone s now n v.store.close_grace d last h in
    (_, left_sessions now n true v shown s fresh c there, since, grace)
close_grace_applies now n false v shown s d fresh c there last h =
    let (_, _, grace, since) = left_alone s now n v.store.close_grace d last h in
    (_, left_sessions now n false v shown s fresh c there, since, grace)

module _ (spawn : Options → Option ℕ) (env default_command : List Bytes)
    (unmarshal : Bytes → Option ClientControl) (show : Error → Bytes) where
  pub serve_control-keeps :
      (now : ℕ) (id : Bytes) (c : ClientControl) (v : Serve)
      → ((serve_control spawn env default_command unmarshal show now id c v).cleaned ≡ v.cleaned)
        × ((serve_control spawn env default_command unmarshal show now id c v).done ≡ v.done)
  unfolding serve_control on_current send
  serve_control-keeps now id c v = ground arith
