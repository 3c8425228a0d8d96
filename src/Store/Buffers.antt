-- ===== src/Store/Buffers.antt =====
-- What the operations on a store do to the buffers of its sessions.
use web_terminal.Prelude.{
  ℕ, ◌^◌, ◌≤◌, ◌≡◌, refl, Option, none, some, List, [], ◌∷◌, Bytes, length, All, arith, if_cases,
  subst, sym, Bool-cases, Option-cases, some_inj, inl, inr,
}
use web_terminal.Prelude.Int.{ℤ}
use web_terminal.Prelude.Text.{str_eq}
use web_terminal.Replay.{ReplayBuffer}
use web_terminal.Replay.History.{Holds}
use web_terminal.Session.{
  Session, attach, remove_listener, mark_client_closed, kill_if_idle, write, resize,
}
use web_terminal.Pty.{Options, Handle, start}
use web_terminal.Store.{
  Store, get_live, new_buffer, new_session, start_session, lookup, insert, visit, reap_sessions,
  update,
}
use web_terminal.Store.Starting.{new_buffer-Holds}

-- The buffer of a session holds the last bytes of some output of at most 2 ^ 53 bytes.
pub record IsStored (b : ReplayBuffer) : Type 0 where
  pub output : Bytes
  pub holds : Holds b output
  pub small : length output ≤ 2 ^ 53

abbrev pub AllStored : List (Bytes × Session) → Type 0
AllStored m = All (λ (e : Bytes × Session). IsStored e.1.buffer) m

-- An operation on a session that leaves its buffer as it was.
abbrev pub KeepsBuffer : (Session → Session) → Type 0
KeepsBuffer f = (s : Session) → (f s).buffer ≡ s.buffer

pub attach-KeepsBuffer : KeepsBuffer attach
unfolding attach
attach-KeepsBuffer s = refl

pub remove_listener-KeepsBuffer : (now n : ℕ) → KeepsBuffer (λ s. remove_listener s now n)
unfolding remove_listener
remove_listener-KeepsBuffer now n s = ground arith

pub mark_client_closed-KeepsBuffer : (grace : ℤ) → KeepsBuffer (λ s. mark_client_closed s grace)
unfolding mark_client_closed
mark_client_closed-KeepsBuffer grace s = ground arith

pub write-KeepsBuffer : (bytes : Bytes) → KeepsBuffer (λ s. write s bytes)
unfolding write
write-KeepsBuffer bytes s = ground arith

pub resize-KeepsBuffer : (cols rows : ℕ) → KeepsBuffer (λ s. resize s cols rows)
unfolding resize
resize-KeepsBuffer cols rows s = refl

visit-KeepsBuffer : (now : ℕ) (grace : ℤ) → KeepsBuffer (λ s. (visit now grace s).1)
unfolding visit kill_if_idle
visit-KeepsBuffer now grace s = ground arith

pub update-AllStored :
    (id : Bytes) (f : Session → Session) (m : List (Bytes × Session))
    → KeepsBuffer f
    → AllStored m
    → AllStored (update id f m)
unfolding update
update-AllStored id f [] keeps v = tt
update-AllStored id f ((j, s) ∷ m) keeps v =
    if_cases AllStored (str_eq j id) ((j, f s) ∷ m) ((j, s) ∷ update id f m)
      (λ hit. (subst IsStored (sym (keeps s)) v.0, v.1))
      (λ miss. (v.0, update-AllStored id f m keeps v.1))

pub reap_sessions-AllStored :
    (now : ℕ) (grace : ℤ) (m : List (Bytes × Session))
    → AllStored m
    → AllStored (reap_sessions now grace m)
unfolding reap_sessions
reap_sessions-AllStored now grace [] v = tt
reap_sessions-AllStored now grace ((j, s) ∷ m) v =
    if_cases AllStored (visit now grace s).0
      ((j, (visit now grace s).1) ∷ reap_sessions now grace m) (reap_sessions now grace m)
      (λ stays. (
        subst IsStored (sym (visit-KeepsBuffer now grace s)) v.0,
        reap_sessions-AllStored now grace m v.1,
      ))
      (λ goes. reap_sessions-AllStored now grace m v.1)

insert-AllStored :
    (id : Bytes) (s : Session) (m : List (Bytes × Session))
    → IsStored s.buffer
    → AllStored m
    → AllStored (insert id s m)
unfolding insert
insert-AllStored id s [] w v = (w, tt)
insert-AllStored id s ((j, t) ∷ m) w v =
    if_cases AllStored (str_eq j id) ((id, s) ∷ m) ((j, t) ∷ insert id s m) (λ hit. (w, v.1))
      (λ miss. (v.0, insert-AllStored id s m w v.1))

lookup-IsStored :
    (id : Bytes) (m : List (Bytes × Session)) (s : Session)
    → AllStored m
    → lookup id m ≡ some s
    → IsStored s.buffer
unfolding lookup
lookup-IsStored id [] s v e = cc
lookup-IsStored id ((j, t) ∷ m) s v e = elim (Bool-cases (str_eq j id)) [
  | inl hit ↦ subst (λ (k : Session). IsStored k.buffer) (some_inj (simp hit at e)) v.0
  | inr miss ↦ lookup-IsStored id m s v.1 (simp miss at e)
]

pub get_live-IsStored :
    (st : Store) (id : Bytes) (s : Session)
    → AllStored st.sessions
    → get_live st id ≡ some s
    → IsStored s.buffer
unfolding get_live
get_live-IsStored st id s v e = elim (Option-cases (lookup id st.sessions)) [
  | inl nothing ↦ absurd (ground arith)
  | inr (t, there) ↦ lookup-IsStored id st.sessions s v (ground arith)
]

new_buffer-IsStored : IsStored new_buffer
new_buffer-IsStored = record { output = []; holds = new_buffer-Holds; small = omega arith }

pub start_session-AllStored :
    (spawn : Options → Option ℕ) (env : List Bytes) (st : Store) (id : Bytes) (now : ℕ)
    (command : List Bytes) (cols rows : ℕ) (title : Bytes) (s : Session) (st' : Store)
    → AllStored st.sessions
    → start_session spawn env st id now command cols rows title ≡ some (s, st')
    → IsStored s.buffer × AllStored st'.sessions
unfolding start_session new_session
start_session-AllStored spawn env st id now command cols rows title s st' v e =
    by_start
      (start spawn (record { command = command; cols = cols; rows = rows; cwd = []; env = env })) e
  where
    pair_of : Session × Store → Type 0
    pair_of (s, st') = IsStored s.buffer × AllStored st'.sessions

    by_start :
        (o : Option Handle)
        → elim o as (λ o. Option (Session × Store)) [
          | none ↦ none
          | some handle ↦ some (
            new_session id title now handle cols rows,
            record st {
              sessions = insert id (new_session id title now handle cols rows) st.sessions;
            },
          )
        ]
          ≡ some (s, st')
        → IsStored s.buffer × AllStored st'.sessions
    by_start none e = cc
    by_start (some handle) e = subst pair_of (some_inj e) (
      new_buffer-IsStored,
      insert-AllStored id (new_session id title now handle cols rows) st.sessions
          new_buffer-IsStored v,
    )
