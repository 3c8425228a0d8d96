-- ===== src/Connection/Sent.antt =====
-- What a connection sends, whatever it reads.
use web_terminal.Prelude.{
  ℕ, ◌≡◌, refl, Bool, false, Option, none, some, List, [], ◌∷◌, ◌++◌, Bytes, All, All-append, arith,
  if◌then◌else◌, if_cases,
}
use web_terminal.Prelude.Int.{to_u16}
use web_terminal.Prelude.Text.{codes, str_eq}
use web_terminal.Protocol.{
  ClientControl, Error, Result, ok, err, parse_client_control, decode_input,
}
use web_terminal.Pty.{Options}
use web_terminal.Session.{Session, remove_listener, mark_client_closed, write}
use web_terminal.Store.{update}
use web_terminal.Store.Buffers.{
  AllStored, remove_listener-KeepsBuffer, mark_client_closed-KeepsBuffer, write-KeepsBuffer,
  resize-KeepsBuffer, update-AllStored,
}
use web_terminal.Hello.{Message, detached, handle_hello}
use web_terminal.Connection.{
  CloseStatus, policy_violation, try_again_later, normal_closure, Serve, Incoming, text,
  binary_frame, read_fails, close_with, on_current, cleanup, returns, send, refuses, on_error,
  serve_control, serve_one, serve_all,
}
use web_terminal.Hello.Understood.{IsUnderstood}
use web_terminal.Hello.Sent.{detached-AllStored, handle_hello-IsUnderstood}

-- A connection that has sent only what the browser understands, with a store of sessions whose output
-- is at most 2 ^ 53 bytes so far.
pub record IsSound (v : Serve) : Type 0 where
  pub sent : All IsUnderstood v.sent
  pub stored : AllStored v.store.sessions

on_current-IsSound :
    (f : Session → Session) (v : Serve)
    → ((s : Session) → (f s).buffer ≡ s.buffer)
    → IsSound v
    → IsSound (on_current f v)
unfolding on_current
on_current-IsSound f v keeps w = by_current v.conn.current
  where
    by_current :
        (current : Option (Bytes × ℕ))
        → IsSound (elim current [
          | none ↦ v
          | some (id, n) ↦ record v {
            store = record (v.store) { sessions = update id f v.store.sessions };
          }
        ])
    by_current none = w
    by_current (some (id, n)) = record {
      sent = w.sent;
      stored = update-AllStored id f v.store.sessions keeps w.stored;
    }

send-IsSound : (m : Message) (v : Serve) → IsUnderstood m → IsSound v → IsSound (send m v)
unfolding send
send-IsSound m v u w = record {
  sent = All-append IsUnderstood v.sent (m ∷ []) w.sent (u, tt);
  stored = w.stored;
}

close_with-IsSound : (status : CloseStatus) (v : Serve) → IsSound v → IsSound (close_with status v)
unfolding close_with
close_with-IsSound status v w = record { sent = w.sent; stored = w.stored }

cleanup-IsSound : (now : ℕ) (clean : Bool) (v : Serve) → IsSound v → IsSound (cleanup now clean v)
unfolding cleanup
cleanup-IsSound now clean v w =
    if_cases IsSound v.cleaned v _ (λ again. w)
      (λ first. record { sent = marked-IsSound.sent; stored = marked-IsSound.stored })
  where
    left : Serve
    left = record v {
      store = record (v.store) { sessions = detached now v.conn.current v.store.sessions };
    }

    left-IsSound : IsSound left
    left-IsSound = record {
      sent = w.sent;
      stored = detached-AllStored now v.conn.current v.store.sessions w.stored;
    }

    marked-IsSound :
        IsSound
          (if clean then on_current (λ s. mark_client_closed s v.store.close_grace) left else left)
    marked-IsSound =
        if_cases IsSound clean _ left
          (λ closed.
            on_current-IsSound (λ s. mark_client_closed s v.store.close_grace) left
              (mark_client_closed-KeepsBuffer v.store.close_grace) left-IsSound)
          (λ dropped. left-IsSound)

returns-IsSound : (now : ℕ) (clean : Bool) (v : Serve) → IsSound v → IsSound (returns now clean v)
unfolding returns
returns-IsSound now clean v w =
    let u =
      close_with-IsSound normal_closure (cleanup now clean v) (cleanup-IsSound now clean v w) in
    record { sent = u.sent; stored = u.stored }

refuses-IsSound :
    (now : ℕ) (message : Bytes) (v : Serve) → IsSound v → IsSound (refuses now message v)
unfolding refuses
refuses-IsSound now message v w =
    returns-IsSound now false _ (
      close_with-IsSound policy_violation _ (send-IsSound _ v (refl, λ e. absurd (ground arith)) w))

on_error-IsSound :
    (now : ℕ) (id : Bytes) (n : ℕ) (v : Serve) → IsSound v → IsSound (on_error now id n v)
unfolding on_error
on_error-IsSound now id n v w = close_with-IsSound try_again_later _ (
    cleanup-IsSound now false _ (record {
      sent = w.sent;
      stored =
          update-AllStored id (λ s. remove_listener s now n) v.store.sessions
            (remove_listener-KeepsBuffer now n) w.stored;
    }))

module _ (spawn : Options → Option ℕ) (env default_command : List Bytes)
    (unmarshal : Bytes → Option ClientControl) (show : Error → Bytes) where
  serve_control-IsSound :
      (now : ℕ) (id : Bytes) (c : ClientControl) (v : Serve)
      → IsSound v
      → IsSound (serve_control spawn env default_command unmarshal show now id c v)
  unfolding serve_control
  serve_control-IsSound now id c v w =
      if_cases IsSound (str_eq c.t (codes "hello")) _ _ (λ hello. greeted)
        (λ other.
          if_cases IsSound (str_eq c.t (codes "resize")) _ _
            (λ resized.
              on_current-IsSound _ v (resize-KeepsBuffer (to_u16 c.cols) (to_u16 c.rows)) w)
            (λ other.
              if_cases IsSound (str_eq c.t (codes "ping")) _ v
                (λ ping. send-IsSound _ v (refl, λ e. absurd (ground arith)) w) (λ unknown. w)))
    where
      greeted :
          let (st, conn, messages) =
            handle_hello spawn env default_command v.store v.conn c id now in
          IsSound (record v { store = st; conn = conn; sent = v.sent ++ messages })
      greeted =
          let (understood, stored) =
            handle_hello-IsUnderstood spawn env default_command now id c v.store v.conn w.stored in
          record { sent = All-append IsUnderstood v.sent _ w.sent understood; stored = stored }

  serve_one-IsSound :
      (now : ℕ) (id : Bytes) (m : Incoming) (v : Serve)
      → IsSound v
      → IsSound (serve_one spawn env default_command unmarshal show now id m v)
  unfolding serve_one
  serve_one-IsSound now id (text raw) v w = by_parsed (parse_client_control unmarshal raw)
    where
      by_parsed :
          (r : Result ClientControl)
          → IsSound (elim r [
            | err e ↦ refuses now (show e) v
            | ok c ↦ serve_control spawn env default_command unmarshal show now id c v
          ])
      by_parsed (err e) = refuses-IsSound now (show e) v w
      by_parsed (ok c) = serve_control-IsSound now id c v w
  serve_one-IsSound now id (binary_frame bytes) v w = by_decoded (decode_input bytes)
    where
      by_decoded :
          (r : Result Bytes)
          → IsSound (elim r [
            | err e ↦ refuses now (show e) v
            | ok payload ↦ on_current (λ s. write s payload) v
          ])
      by_decoded (err e) = refuses-IsSound now (show e) v w
      by_decoded (ok payload) = on_current-IsSound _ v (write-KeepsBuffer payload) w
  serve_one-IsSound now id (read_fails clean) v w = returns-IsSound now clean v w

  serve_all-IsSound :
      (messages : List (ℕ × Bytes × Incoming)) (v : Serve)
      → IsSound v
      → IsSound (serve_all spawn env default_command unmarshal show messages v)
  unfolding serve_all
  serve_all-IsSound [] v w = w
  serve_all-IsSound ((now, id, m) ∷ rest) v w =
      if_cases IsSound v.done v _ (λ over. w)
        (λ goes_on. serve_all-IsSound rest _ (serve_one-IsSound now id m v w))

  -- A connection has sent only messages that the browser understands, and every session of its store
  -- has a buffer that holds an output of at most 2 ^ 53 bytes. Both are still so after any messages
  -- that the loop reads, and after an error of a delivery, for any listener, that follows them: every
  -- control message has a type that the browser handles, a welcome and a reset an offset of 0 to
  -- 2 ^ 53, and every frame decodes to such an offset and some output.
  pub sends_understood :
      (messages : List (ℕ × Bytes × Incoming)) (v : Serve)
      → IsSound v
      → let w = serve_all spawn env default_command unmarshal show messages v in
        IsSound w × ((now : ℕ) (id : Bytes) (n : ℕ) → IsSound (on_error now id n w))
  sends_understood messages v sound =
      let w = serve_all-IsSound messages v sound in (w, λ now id n. on_error-IsSound now id n _ w)
