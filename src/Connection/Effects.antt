-- ===== src/Connection/Effects.antt =====
-- What the messages of a connection do to the sessions, the late ones of a hello included.
use mathlib.Core.Option
use web_terminal.Prelude.{
  ℕ, ◌≡◌, ◌∙◌, inl, inr, Bool, true, false, Option, none, some, List, [], ◌∷◌, ◌++◌, Bytes, arith,
  if◌then◌else◌, Bool-cases,
}
use web_terminal.Prelude.Text.{codes, str_eq, str_eq→≡, str_eq_refl}
use web_terminal.Protocol.{ClientControl, Error, ok, err, decode_input}
use web_terminal.Pty.{Options}
use web_terminal.Session.{write}
use web_terminal.Store.{lookup}
use web_terminal.Store.Maps.{lookup-update, lookup-update_other}
use web_terminal.Hello.{control, blank, detached, handle_hello}
use web_terminal.Connection.Loop.{serve_control-keeps}
use web_terminal.Connection.{
  Serve, binary_frame, policy_violation, close_with, on_current, cleanup, returns, send, refuses,
  on_error, serve_control, serve_one,
}

on_error-cleaned : (now : ℕ) (id : Bytes) (n : ℕ) (v : Serve) → (on_error now id n v).cleaned ≡ true
unfolding on_error cleanup close_with
on_error-cleaned now id n v = ground arith

returns_again :
    (now : ℕ) (clean : Bool) (v : Serve)
    → v.cleaned ≡ true
    → ((returns now clean v).store ≡ v.store) × ((returns now clean v).conn ≡ v.conn)
unfolding returns cleanup close_with
returns_again now clean v again = ground arith

module _ (spawn : Options → Option ℕ) (env default_command : List Bytes)
    (unmarshal : Bytes → Option ClientControl) (show : Error → Bytes) where
  -- A binary message that is an input frame is written to the session that the connection shows, and
  -- to no other session of the store; nothing is sent.
  input_isolated :
      (now : ℕ) (id : Bytes) (bytes payload : Bytes) (v : Serve) (shown : Bytes) (n : ℕ) (j : Bytes)
      → decode_input bytes ≡ ok payload
      → v.conn.current ≡ some (shown, n)
      → let w = serve_one spawn env default_command unmarshal show now id (binary_frame bytes) v in
        (lookup j w.store.sessions ≡ (
          if str_eq shown j
          then Option.map (λ s. write s payload) (lookup j v.store.sessions)
          else lookup j v.store.sessions))
        × (w.sent ≡ v.sent)
        × (w.done ≡ v.done)
  unfolding serve_one on_current
  input_isolated now id bytes payload v shown n j e c = elim (Bool-cases (str_eq shown j)) [
    | inl hit ↦
        ground
          (arith, str_eq→≡ shown j hit, lookup-update shown (λ s. write s payload) v.store.sessions)
    | inr miss ↦
        ground (arith, lookup-update_other shown j (λ s. write s payload) v.store.sessions miss)
  ]

  -- On a connection that is not cleaned up or closed, a binary message that is not an input frame is
  -- answered with an error message and a close for the violation: the loop returns, and all that
  -- happens to the store is that the listener shown is removed.
  refused :
      (now : ℕ) (id bytes : Bytes) (e : Error) (v : Serve)
      → v.cleaned ≡ false
      → v.closed ≡ none
      → decode_input bytes ≡ err e
      → let w = serve_one spawn env default_command unmarshal show now id (binary_frame bytes) v in
        (w.sent ≡ v.sent ++ control (record blank { t = codes "error"; message = show e }) ∷ [])
        × (w.closed ≡ some policy_violation)
        × (w.done ≡ true)
        × (w.store.sessions ≡ detached now v.conn.current v.store.sessions)
  unfolding serve_one refuses returns cleanup close_with send
  refused now id bytes e v fresh unclosed bad = ground arith

  -- A hello that is handled after a delivery error has cleaned the connection up attaches a listener
  -- that the end of the loop does not detach: the store and the session shown stay as the hello left
  -- them.
  second_attach_stays :
      (early now late n : ℕ) (id failed : Bytes) (clean : Bool) (hello : ClientControl) (v : Serve)
      → hello.t ≡ codes "hello"
      → let u = on_error early failed n v in
        let (st, conn, _) = handle_hello spawn env default_command u.store u.conn hello id now in
        let w =
          returns late clean
            (serve_control spawn env default_command unmarshal show now id hello u) in
        (w.store ≡ st) × (w.conn ≡ conn)
  second_attach_stays early now late n id failed clean hello v t =
      let u = on_error early failed n v in
      let (store, conn) =
        returns_again late clean
          (serve_control spawn env default_command unmarshal show now id hello u)
          ((serve_control-keeps spawn env default_command unmarshal show now id hello u).0
            ∙ on_error-cleaned early failed n v) in
      (store ∙ (attaches u).0, conn ∙ (attaches u).1)
    where
      attaches :
          (u : Serve)
          → let (st, conn, _) =
              handle_hello spawn env default_command u.store u.conn hello id now in
            let w = serve_control spawn env default_command unmarshal show now id hello u in
            (w.store ≡ st) × (w.conn ≡ conn)
      attaches u = unfold serve_control in ground (arith, t, str_eq_refl hello.t)
