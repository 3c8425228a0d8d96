-- ===== src/Command.antt =====
-- SessionEnv and DefaultSessionCommand of internal/session/store.go: the environment and the command
-- of a session's process. `environ` is os.Environ, `getenv` os.Getenv, and `look_path` exec.LookPath.
use web_terminal.Prelude.{
  ℕ, ◌≡◌, ◌≢◌, refl, Bool, true, false, not, ◌&&◌, ◌||◌, Option, some, none, List, [], ◌∷◌, ◌++◌,
  Bytes, length, take, arith, leb, if◌then◌else◌, if_cases, ap, sym, ◌∙◌,
}
use web_terminal.Prelude.Text.{codes, str_eq, str_eq→≡}
use web_terminal.Pty.{Options}
use web_terminal.Store.{Store}
use web_terminal.Hello.{command_for}

-- len(kv) >= 5 && kv[:5] == "HERDR"
unfoldable is_marker : Bytes → Bool
is_marker kv = leb 5 (length kv) && str_eq (take 5 kv) (codes "HERDR")

-- The loop of SessionEnv.
unfoldable without_markers : List Bytes → List Bytes
without_markers [] = []
without_markers (kv ∷ kvs) = if is_marker kv then without_markers kvs else kv ∷ without_markers kvs

unfoldable session_env : List Bytes → List Bytes
session_env environ =
    without_markers environ ++ codes "TERM=xterm-256color" ∷ codes "COLORTERM=truecolor" ∷ []

abbrev pub is_unset : Bytes → Bool
is_unset [] = true
is_unset (c ∷ cs) = false

abbrev pub login : Bytes → List Bytes
login shell = shell ∷ codes "-l" ∷ []

module _ (getenv : Bytes → Bytes) (look_path : Bytes → Option Bytes) where
  -- The loop over the candidates, and the return after it.
  unfoldable first_found : List Bytes → List Bytes
  first_found [] = login (codes "/bin/sh")
  first_found (candidate ∷ rest) = elim (look_path candidate) [
    | none ↦ first_found rest
    | some p ↦ login p
  ]

  unfoldable pub default_session_command : List Bytes
  unfolding first_found
  default_session_command =
      if not (is_unset (getenv (codes "WT_SHELL")))
      then login (getenv (codes "WT_SHELL"))
      else if not (is_unset (getenv (codes "SHELL")))
      then elim (look_path (getenv (codes "SHELL"))) [
        | none ↦ login (getenv (codes "SHELL"))
        | some p ↦ login p
      ]
      else first_found (codes "zsh" ∷ codes "bash" ∷ codes "sh" ∷ [])

  first_found-login : (candidates : List Bytes) → (p : Bytes) × (first_found candidates ≡ login p)
  unfolding first_found
  first_found-login [] = (_, refl)
  first_found-login (c ∷ rest) =
      elim (look_path c)
        as (λ o. (p : Bytes) × (elim o [ none ↦ first_found rest | some p ↦ login p ] ≡ login p)) [
          | none ↦ first_found-login rest
          | some p ↦ (p, refl)
        ]

  abbrev pub IsLogin : List Bytes → Type 0
  IsLogin command = (p : Bytes) × (command ≡ login p)

  default-IsLogin : IsLogin default_session_command
  unfolding default_session_command
  default-IsLogin =
      if_cases IsLogin (not (is_unset (getenv (codes "WT_SHELL")))) _ _ (λ set. (_, refl))
        (λ unset.
          if_cases IsLogin (not (is_unset (getenv (codes "SHELL")))) _ _
            (λ set. looked_up (look_path (getenv (codes "SHELL"))))
            (λ unset. first_found-login (codes "zsh" ∷ codes "bash" ∷ codes "sh" ∷ [])))
    where
      looked_up :
          (o : Option Bytes)
          → IsLogin (elim o [ none ↦ login (getenv (codes "SHELL")) | some p ↦ login p ])
      looked_up none = (_, refl)
      looked_up (some p) = (p, refl)

  -- In every environment the default command is some program with the flag "-l", and the command of a
  -- new session is not empty, so that handleHello may take its first word as the title.
  pub default_session_command-IsLogin :
      (spawn : Options → Option ℕ) (env : List Bytes) (st : Store)
      → IsLogin default_session_command × (command_for spawn env default_session_command st ≢ [])
  unfolding command_for
  default_session_command-IsLogin spawn env st =
      (default-IsLogin, some_word st.default_command default-IsLogin)
    where
      some_word :
          (given : List Bytes)
          → IsLogin default_session_command
          → elim given [ [] ↦ default_session_command | c ∷ cs ↦ c ∷ cs ] ≢ []
      some_word [] (p, e) none_left = cc
      some_word (c ∷ cs) v none_left = cc

abbrev pub contains : Bytes → List Bytes → Bool
contains kv [] = false
contains kv (x ∷ xs) = str_eq x kv || contains kv xs

contains-append :
    (kv : Bytes) (xs ys : List Bytes) → contains kv (xs ++ ys) ≡ (contains kv xs || contains kv ys)
contains-append kv [] ys = refl
contains-append kv (x ∷ xs) ys = ground (arith, contains-append kv xs ys)

contains-without_markers :
    (kv : Bytes) (environ : List Bytes)
    → contains kv (without_markers environ) ≡ (contains kv environ && not (is_marker kv))
unfolding without_markers
contains-without_markers kv [] = refl
contains-without_markers kv (x ∷ xs) =
    if_cases (λ l. contains kv l ≡ ((str_eq x kv || contains kv xs) && not (is_marker kv)))
      (is_marker x) _ _
      (λ marked.
        contains-without_markers kv xs
        ∙ skip (str_eq x kv) (λ hit. ap is_marker (sym (str_eq→≡ x kv hit)) ∙ marked))
      (λ unmarked.
        ap (λ b. str_eq x kv || b) (contains-without_markers kv xs)
        ∙ keep (str_eq x kv) (λ hit. ap is_marker (sym (str_eq→≡ x kv hit)) ∙ unmarked))
  where
    skip :
        (hit : Bool)
        → (hit ≡ true → is_marker kv ≡ true)
        → (contains kv xs && not (is_marker kv)) ≡ ((hit || contains kv xs) && not (is_marker kv))
    skip true h = rw (h refl) (ground arith)
    skip false h = refl

    keep :
        (hit : Bool)
        → (hit ≡ true → is_marker kv ≡ false)
        → (hit || (contains kv xs && not (is_marker kv)))
          ≡ ((hit || contains kv xs) && not (is_marker kv))
    keep true h = rw (h refl) refl
    keep false h = refl

-- The environment of a session has exactly the entries of the server's that do not begin with HERDR,
-- and the two for the terminal.
contains-session_env :
    (kv : Bytes) (environ : List Bytes)
    → contains kv (session_env environ) ≡ (
        contains kv environ && not (is_marker kv)
        || contains kv (codes "TERM=xterm-256color" ∷ codes "COLORTERM=truecolor" ∷ []))
unfolding session_env
contains-session_env kv environ = ground (
  arith,
  contains-append kv (without_markers environ)
      (codes "TERM=xterm-256color" ∷ codes "COLORTERM=truecolor" ∷ []),
  contains-without_markers kv environ,
)
