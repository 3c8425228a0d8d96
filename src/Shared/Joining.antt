-- ===== src/Shared/Joining.antt =====
-- handleHello of internal/web/ws.go as a run of the connection's own steps on the shared store.
use web_terminal.Prelude.{
  ℕ, ◌≡◌, refl, sym, ap, ◌∙◌, inl, inr, ◌⊎◌, Bool, false, Option, none, some, List, Bytes, arith,
  subst,
}
use web_terminal.Prelude.Int.{to_u16}
use web_terminal.Prelude.Text.{str_eq_refl}
use web_terminal.Protocol.{ClientControl}
use web_terminal.Pty.{Options}
use web_terminal.Session.{Session, resizes, attach, act, resize}
use web_terminal.Store.{Store, lookup, update, reap, get_live, start_session}
use web_terminal.Store.Maps.{lookup-insert}
use web_terminal.Hello.{
  Conn, detached, attach_to, command_for, title_of, find_existing, session_for, handle_hello,
}
use web_terminal.Shared.{Shared, hello_reaps}
use web_terminal.Shared.Owned.{IsSound}
use web_terminal.Shared.Sound.{start_session-new, Step-IsSound}
use web_terminal.Shared.Runs.{
  Owns, IsRun, nothing_done, then_reaps, then_uses, then_starts, then_attaches, then_leaves,
  lookup-detached,
}

module _ (spawn : Options → Option ℕ) (env default_command : List Bytes) where
  existing_there :
      (st : Store) (hello : ClientControl) (t : Session)
      → find_existing spawn env default_command st hello ≡ some t
      → lookup hello.session_id st.sessions ≡ some t
  unfolding find_existing get_live
  existing_there st hello t f = ground (arith, f)

  -- The session of a hello was in the store, or has been started.
  session_for-inv :
      (st : Store) (hello : ClientControl) (id : Bytes) (now : ℕ) (existing : Bool) (s : Session)
      (st' : Store)
      → session_for spawn env default_command st hello id now ≡ some (existing, s, st')
      → ((lookup hello.session_id st.sessions ≡ some s) × (st' ≡ st))
        ⊎ (start_session spawn env st id now
              (command_for spawn env default_command st)
              (to_u16 hello.cols)
              (to_u16 hello.rows)
              (title_of spawn env default_command (command_for spawn env default_command st))
            ≡ some (s, st'))
  unfolding session_for
  session_for-inv st hello id now existing s st' e = ground (arith, e, existing_there st hello s)

  session_for-run :
      {w : Shared} {i : ℕ} {st : Store} {c : Conn} (hello : ClientControl) (id : Bytes) (now : ℕ)
      (existing : Bool) (s : Session) (st' : Store)
      → (r : IsRun spawn env w i st c) → r.issued id ≡ false
      → ((j : Bytes) (t : Session) → lookup j st.sessions ≡ some t → t.id ≡ j)
      → session_for spawn env default_command st hello id now ≡ some (existing, s, st')
      → IsRun spawn env w i st' c × (lookup s.id st'.sessions ≡ some s)
  session_for-run {w} {i} {st} {c} hello id now existing s st' r fresh keyed e =
      elim (session_for-inv st hello id now existing s st' e) [
        | inl (there, same) ↦ (
          subst (λ k. IsRun spawn env w i k c) (sym same) r,
          ap (λ k. lookup s.id k.sessions) same
              ∙ ap (λ k. lookup k st.sessions) (keyed hello.session_id s there)
              ∙ there,
        )
        | inr started ↦
            (then_starts spawn env r now id _ _ _ _ s st' fresh started, new_there started)
      ]
    where
      new_there :
          start_session spawn env st id now
              (command_for spawn env default_command st)
              (to_u16 hello.cols)
              (to_u16 hello.rows)
              (title_of spawn env default_command (command_for spawn env default_command st))
            ≡ some (s, st')
          → lookup s.id st'.sessions ≡ some s
      new_there started =
          let (same, named, _, _) = start_session-new spawn env st id now _ _ _ _ s st' started in
          ap (λ k. lookup s.id k.sessions) same
          ∙ lookup-insert id s.id s st.sessions
          ∙ rw (named, str_eq_refl id) refl

  -- The rest of a hello, once its session is there: the attach and the resize.
  joins :
      {w : Shared} {i : ℕ} {st : Store} (current : Option (Bytes × ℕ)) (now : ℕ) (s : Session)
      (cols rows : ℕ)
      → IsRun spawn env w i st (record { current = current })
      → lookup s.id st.sessions ≡ some s
      → let (st', c') = attach_to st now (record { current = current }) s in
        IsRun spawn env w i
          (record st' { sessions = update s.id (λ t. resize t cols rows) st'.sessions })
          c'
  unfolding attach_to act
  joins {w} {i} {st} current now s cols rows r there =
      let (t, found, same) = lookup-detached spawn env now current s.id s st.sessions there in
      then_uses spawn env
        (subst
          (λ n.
            IsRun spawn env w i
              (record st { sessions = update s.id attach (detached now current st.sessions) })
              (record { current = some (s.id, n) }))
          same (then_attaches spawn env (then_leaves spawn env current now r) s.id t found))
        now s.id (resizes cols rows) refl

  -- handleHello is a run of the connection's own steps.
  pub hello_run :
      (w : Shared) (i : ℕ) (c : Conn) (hello : ClientControl) (id : Bytes) (now : ℕ)
      → IsSound w
      → Owns w.owner i c.current
      → w.issued id ≡ false
      → let (st', c', _) = handle_hello spawn env default_command w.store c hello id now in
        IsRun spawn env w i st' c'
  unfolding handle_hello then_reaps nothing_done
  hello_run w i c hello id now sound mine fresh =
      by_session (session_for spawn env default_command (reap w.store now).0 hello id now) refl
    where
      reaped : IsRun spawn env w i (reap w.store now).0 c
      reaped = then_reaps spawn env (nothing_done spawn env w i c mine) now

      keyed : (j : Bytes) (t : Session) → lookup j (reap w.store now).0.sessions ≡ some t → t.id ≡ j
      keyed j t e = ((Step-IsSound spawn env sound (hello_reaps i now)).each j t e).keyed

      by_session :
          (o : Option (Bool × Session × Store))
          → session_for spawn env default_command (reap w.store now).0 hello id now ≡ o
          → let (st', c', _) = handle_hello spawn env default_command w.store c hello id now in
            IsRun spawn env w i st' c'
      by_session none e = rw (e, handle_hello) reaped
      by_session (some (existing, s, st')) e =
          let (started, there) = session_for-run hello id now existing s st' reaped fresh keyed e in
          rw (e, handle_hello)
            (joins c.current now s (to_u16 hello.cols) (to_u16 hello.rows) started there)
