-- ===== src/Hello/Sent.antt =====
-- What a hello sends, and the buffers of the store that it leaves.
use web_terminal.Prelude.{
  ℕ, ◌≡◌, refl, Bool, true, false, Option, none, some, List, [], ◌∷◌, Bytes, All, arith, subst,
  some_inj,
}
use web_terminal.Prelude.Int.{to_u16}
use web_terminal.Prelude.Text.{codes}
use web_terminal.Protocol.{ClientControl}
use web_terminal.Pty.{Options}
use web_terminal.Session.{Session, attach, remove_listener, resize}
use web_terminal.Store.{Store, update, reap, get_live, start_session}
use web_terminal.Store.Buffers.{
  IsStored, AllStored, attach-KeepsBuffer, remove_listener-KeepsBuffer, resize-KeepsBuffer,
  update-AllStored, reap_sessions-AllStored, get_live-IsStored, start_session-AllStored,
}
use web_terminal.Hello.{
  Message, control, blank, replay, Conn, detached, attach_to, find_existing, session_for,
  command_for, handle_hello, title_of,
}
use web_terminal.Hello.Understood.{IsUnderstood, replay-IsUnderstood}

pub detached-AllStored :
    (now : ℕ) (current : Option (Bytes × ℕ)) (m : List (Bytes × Session))
    → AllStored m
    → AllStored (detached now current m)
unfolding detached
detached-AllStored now none m v = v
detached-AllStored now (some (id, n)) m v =
    update-AllStored id (λ s. remove_listener s now n) m (remove_listener-KeepsBuffer now n) v

module _ (spawn : Options → Option ℕ) (env default_command : List Bytes) where
  -- The session that a hello gets has a buffer that is stored, and the store still has only such.
  session_for-IsStored :
      (st : Store) (hello : ClientControl) (id : Bytes) (now : ℕ) (existing : Bool) (s : Session)
      (st' : Store)
      → AllStored st.sessions
      → session_for spawn env default_command st hello id now ≡ some (existing, s, st')
      → IsStored s.buffer × AllStored st'.sessions
  unfolding session_for find_existing
  session_for-IsStored st hello id now existing s st' v e =
      by_found (find_existing spawn env default_command st hello) refl e
    where
      triple_of : Bool × Session × Store → Type 0
      triple_of (existing, s, st') = IsStored s.buffer × AllStored st'.sessions

      started : Option (Session × Store)
      started =
          start_session spawn env st id now (command_for spawn env default_command st)
            (to_u16 hello.cols) (to_u16 hello.rows)
            (title_of spawn env default_command (command_for spawn env default_command st))

      by_started :
          (o : Option (Session × Store))
          → started ≡ o
          → elim o as (λ o. Option (Bool × Session × Store)) [
            | none ↦ none
            | some (s, st') ↦ some (false, s, st')
          ]
            ≡ some (existing, s, st')
          → IsStored s.buffer × AllStored st'.sessions
      by_started none f e = cc
      by_started (some (t, st'')) f e =
          subst triple_of (some_inj e)
            (start_session-AllStored spawn env st id now _ _ _ _ t st'' v f)

      by_found :
          (o : Option Session)
          → find_existing spawn env default_command st hello ≡ o
          → elim o as (λ o. Option (Bool × Session × Store)) [
            | some s ↦ some (true, s, st)
            | none ↦ elim started as (λ o. Option (Bool × Session × Store)) [
              | none ↦ none
              | some (s, st') ↦ some (false, s, st')
            ]
          ]
            ≡ some (existing, s, st')
          → IsStored s.buffer × AllStored st'.sessions
      by_found none f e = by_started started refl e
      by_found (some t) f e = subst triple_of (some_inj e) (found hello.session_id f, v)
        where
          found :
              (named : Bytes)
              → elim named [ [] ↦ none | c ∷ cs ↦ get_live st (c ∷ cs) ] ≡ some t
              → IsStored t.buffer
          found [] f = cc
          found (c ∷ cs) f = get_live-IsStored st (c ∷ cs) t v f

  pub handle_hello-IsUnderstood :
      (now : ℕ) (id : Bytes) (hello : ClientControl) (st : Store) (c : Conn)
      → AllStored st.sessions
      → let (st', _, messages) = handle_hello spawn env default_command st c hello id now in
        All IsUnderstood messages × AllStored st'.sessions
  unfolding handle_hello attach_to reap
  handle_hello-IsUnderstood now id hello st c v =
      by_session (session_for spawn env default_command (reap st now).0 hello id now) refl
    where
      IsAnswered : Store × Conn × List Message → Type 0
      IsAnswered (st', conn, messages) = All IsUnderstood messages × AllStored st'.sessions

      by_session :
          (o : Option (Bool × Session × Store))
          → session_for spawn env default_command (reap st now).0 hello id now ≡ o
          → IsAnswered (elim o as (λ o. Store × Conn × List Message) [
            | none ↦ (
              (reap st now).0,
              c,
              control
                    (record blank { t = codes "error"; message = codes "failed to start session" })
                  ∷ [],
            )
            | some (existing, s, st₂) ↦
                let (st₃, c') = attach_to st₂ now c s in
                let st₄ = record st₃ {
                  sessions =
                      update s.id
                        (λ t. resize t (to_u16 hello.cols) (to_u16 hello.rows))
                        st₃.sessions;
                } in
                (st₄, c', replay existing hello.last_offset s.id s.buffer)
          ])
      by_session none e = (
        ((refl, λ e. absurd (ground arith)), tt),
        reap_sessions-AllStored now st.idle_grace st.sessions v,
      )
      by_session (some (existing, s, st₂)) e =
          let (buffer, stored) =
            session_for-IsStored (reap st now).0 hello id now existing s st₂
              (reap_sessions-AllStored now st.idle_grace st.sessions v) e in
          (
            replay-IsUnderstood s.buffer buffer s.id existing hello.last_offset,
            update-AllStored s.id _ _ (resize-KeepsBuffer (to_u16 hello.cols) (to_u16 hello.rows)) (
                update-AllStored s.id attach _ attach-KeepsBuffer
                  (detached-AllStored now c.current st₂.sessions stored)),
          )
