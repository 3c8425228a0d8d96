-- ===== src/Store/Starting.antt =====
-- StartSession and its ids.
use web_terminal.Prelude.{
  ℕ, ◌*◌, ◌/◌, ◌%◌, ◌<◌, ◌≡◌, ◌≢◌, refl, sym, ap₂, ◌∙◌, true, Option, none, some, List, [], ◌∷◌,
  Bytes, length, All, arith, if◌then◌else◌, some_inj, if_cases, subst,
}
use web_terminal.Prelude.Text.{str_eq, str_eq→≡, str_eq_refl}
use web_terminal.Pty.{Options, Handle, start}
use web_terminal.Session.{Session}
use web_terminal.Replay.History.{Holds}
use web_terminal.Store.{
  Store, lookup, insert, get_live, new_buffer, new_session, start_session, hex_digit, hex_encode,
  new_id,
}
use web_terminal.Store.Maps.{Unique, Unique-insert, lookup-insert}

-- Different bytes have different digits.
digits_inj :
    (a b : ℕ)
    → a < 256
    → b < 256
    → hex_digit (a / 16) ≡ hex_digit (b / 16)
    → hex_digit (a % 16) ≡ hex_digit (b % 16)
    → a ≡ b
digits_inj a b h k high low = ground arith

hex-inj :
    (a b : Bytes)
    → All (λ c. c < 256) a
    → All (λ c. c < 256) b
    → hex_encode a ≡ hex_encode b
    → a ≡ b
unfolding hex_encode
hex-inj [] [] u v e = refl
hex-inj [] (d ∷ b) u v e = cc
hex-inj (c ∷ a) [] u v e = cc
hex-inj (c ∷ a) (d ∷ b) u v e =
    let (high, low, rest) = parts e in
    ap₂ ◌∷◌ (digits_inj c d u.0 v.0 high low) (hex-inj a b u.1 v.1 rest)
  where
    parts :
        {p q p' q' : ℕ} {r r' : Bytes} → p ∷ q ∷ r ≡ p' ∷ q' ∷ r' → (p ≡ p') × (q ≡ q') × (r ≡ r')
    parts e = (cc, cc, cc)

length-hex_encode : (a : Bytes) → length (hex_encode a) ≡ 2 * length a
unfolding hex_encode
length-hex_encode [] = refl
length-hex_encode (c ∷ a) = omega (arith, length-hex_encode a)

-- The ids of two sessions for which the system gave random bytes are 16 bytes long if these were
-- eight, and are the same only if the random bytes were.
new_id_inj :
    (a b nanos later : Bytes)
    → All (λ c. c < 256) a
    → All (λ c. c < 256) b
    → (length (new_id (some a) nanos) ≡ 2 * length a)
      × (new_id (some a) nanos ≡ new_id (some b) later → a ≡ b)
unfolding new_id
new_id_inj a b nanos later u v = (length-hex_encode a, hex-inj a b u v)

pub new_buffer-Holds : Holds new_buffer []
new_buffer-Holds = record {
  positive = omega arith;
  bytes = refl;
  counted = refl;
  ends = refl;
  fits = omega arith;
}

-- A store in which a session was started.
pub record IsStarted (st : Store) (id : Bytes) (now cols rows : ℕ) (s : Session) (st' : Store)
    : Type 0 where
  pub found : get_live st' id ≡ some s
  pub others : (j : Bytes) → j ≢ id → lookup j st'.sessions ≡ lookup j st.sessions
  pub unique : Unique st'.sessions
  pub named : s.id ≡ id
  pub no_client : s.listeners ≡ []
  pub idle : s.idle_since ≡ some now
  pub window : (s.cols ≡ cols) × (s.rows ≡ rows)
  pub no_output : Holds s.buffer []

get_live-found :
    (st : Store) (id : Bytes) (s : Session)
    → lookup id st.sessions ≡ some s
    → s.alive ≡ true
    → get_live st id ≡ some s
unfolding get_live
get_live-found st id s there on = ground arith

inserted-IsStarted :
    (st : Store) (id title : Bytes) (now cols rows : ℕ) (handle : Handle)
    → Unique st.sessions
    → IsStarted st id now cols rows
        (new_session id title now handle cols rows)
        (record st { sessions = insert id (new_session id title now handle cols rows) st.sessions })
unfolding new_session
inserted-IsStarted st id title now cols rows handle u =
    let s = new_session id title now handle cols rows in
    record {
      found =
          get_live-found (record st { sessions = insert id s st.sessions }) id s
            (rw (lookup-insert id id s st.sessions, str_eq_refl id) refl) refl;
      others = λ j other. lookup-insert id j s st.sessions ∙ apart j other;
      unique = Unique-insert id s st.sessions u;
      named = refl;
      no_client = refl;
      idle = refl;
      window = (refl, refl);
      no_output = new_buffer-Holds;
    }
  where
    apart :
        (j : Bytes)
        → j ≢ id
        → (if str_eq id j
            then some (new_session id title now handle cols rows)
            else lookup j st.sessions)
          ≡ lookup j st.sessions
    apart j other =
        if_cases (λ o. o ≡ lookup j st.sessions) (str_eq id j) _ _
          (λ same. absurd (other (sym (str_eq→≡ id j same)))) (λ differs. refl)

-- When StartSession succeeds, GetLive finds the new session under the new id; it has the window that
-- was asked for, no output, no client, and an idle time of now. Every other id has what it had, and
-- no two sessions have one id if none had before.
pub start_session-IsStarted :
    (spawn : Options → Option ℕ) (env : List Bytes) (st : Store) (id : Bytes) (now : ℕ)
    (command : List Bytes) (cols rows : ℕ) (title : Bytes) (s : Session) (st' : Store)
    → Unique st.sessions
    → start_session spawn env st id now command cols rows title ≡ some (s, st')
    → IsStarted st id now cols rows s st'
unfolding start_session
start_session-IsStarted spawn env st id now command cols rows title s st' u e =
    by_start
      (start spawn (record { command = command; cols = cols; rows = rows; cwd = []; env = env })) e
  where
    pair_of : Session × Store → Type 0
    pair_of (s, st') = IsStarted st id now cols rows s st'

    by_start :
        (o : Option Handle)
        → elim o as (λ o. Option (Session × Store)) [
          | none ↦ none
          | some handle ↦ some (
            new_session id title now handle cols rows,
            record st {
              sessions = insert id (new_session id title now handle cols rows) st.sessions;
            },
          )
        ]
          ≡ some (s, st')
        → IsStarted st id now cols rows s st'
    by_start none e = cc
    by_start (some handle) e =
        subst pair_of (some_inj e) (inserted-IsStarted st id title now cols rows handle u)
