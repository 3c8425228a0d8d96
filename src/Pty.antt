-- ===== src/Pty.antt =====
-- internal/pty/pty.go: the handle of a process on a pseudo-terminal. The pseudo-terminal itself
-- (github.com/creack/pty) and the process are outside: `spawn` starts one, and the handle counts
-- the calls of its two closures. Their errors, which every caller drops, are left out.
use web_terminal.Prelude.{
  ℕ, ◌+◌, ◌≡◌, refl, Bool, true, false, Option, none, some, List, [], ◌∷◌, Bytes, arith,
  if◌then◌else◌,
}

-- Options; Cwd is empty in every call.
pub record Options : Type 0 where
  pub command : List Bytes
  pub cols : ℕ
  pub rows : ℕ
  pub cwd : Bytes
  pub env : List Bytes

pub record Handle : Type 0 where
  pub pid : ℕ
  pub closed : Bool
  -- the calls of closeF and of killF so far
  pub closes : ℕ
  pub kills : ℕ

-- The pseudo-terminal's file: the bytes handed to it, and its window.
pub record Ptmx : Type 0 where
  pub input : Bytes
  pub window : ℕ × ℕ

-- Resize, with pty.Setsize as the change of the window.
unfoldable pub resize_window : Ptmx → ℕ → ℕ → Ptmx
resize_window f cols rows = record f { window = (cols, rows) }

unfoldable pub close : Handle → Handle
close h = if h.closed then h else record h { closed = true; closes = h.closes + 1 }

unfoldable pub kill : Handle → Handle
kill h =
    if h.closed then h else record h { closed = true; closes = h.closes + 1; kills = h.kills + 1 }

-- Start, without the file: `spawn` is exec.Command with pty.StartWithSize, `none` an error.
module _ (spawn : Options → Option ℕ) where
  unfoldable pub start : Options → Option Handle
  start opts = elim opts.command [
    | [] ↦ none
    | _ ∷ _ ↦ elim (spawn opts) [
      | none ↦ none
      | some pid ↦ some (record { pid = pid; closed = false; closes = 0; kills = 0 })
    ]
  ]

pub data Call : Type 0 where
  closing killing : Call

unfoldable pub calls : Handle → List Call → Handle
calls h [] = h
calls h (closing ∷ cs) = calls (close h) cs
calls h (killing ∷ cs) = calls (kill h) cs

-- Once the handle is closed, no call has an effect.
calls_closed : (h : Handle) (cs : List Call) → h.closed ≡ true → calls h cs ≡ h
unfolding calls close kill
calls_closed h [] e = refl
calls_closed h (closing ∷ cs) e = simp e (calls_closed h cs e)
calls_closed h (killing ∷ cs) e = simp e (calls_closed h cs e)

-- What the first of the calls is.
abbrev pub closing_calls : List Call → ℕ
closing_calls [] = 0
closing_calls (c ∷ cs) = 1

abbrev pub killing_calls : List Call → ℕ
killing_calls [] = 0
killing_calls (closing ∷ cs) = 0
killing_calls (killing ∷ cs) = 1

abbrev pub some_call : List Call → Bool
some_call [] = false
some_call (c ∷ cs) = true

calls_fresh :
    (h : Handle) (cs : List Call)
    → h.closed ≡ false
    → h.closes ≡ 0
    → h.kills ≡ 0
    → let h' = calls h cs in
      (h'.closed ≡ some_call cs) × (h'.closes ≡ closing_calls cs) × (h'.kills ≡ killing_calls cs)
unfolding calls close kill
calls_fresh h [] e n m = (e, n, m)
calls_fresh h (closing ∷ cs) e n m = ground (arith, calls_closed (close h) cs)
calls_fresh h (killing ∷ cs) e n m = ground (arith, calls_closed (kill h) cs)

-- Whatever calls of Close and Kill are made of a handle that Start returns, in whatever order: the
-- handle is closed from the first call on, and its descriptor has then been closed once, however many
-- calls follow. The process has been killed once if the first call is Kill, and never otherwise: a
-- Kill after a Close does nothing.
pub first_call_counts :
    (spawn : Options → Option ℕ) (opts : Options) (h : Handle) (cs : List Call)
    → start spawn opts ≡ some h
    → let h' = calls h cs in
      (h'.closed ≡ some_call cs) × (h'.closes ≡ closing_calls cs) × (h'.kills ≡ killing_calls cs)
unfolding start
first_call_counts spawn opts h cs e =
    let (unclosed, closes, kills) = fresh opts.command e in calls_fresh h cs unclosed closes kills
  where
    fresh :
        (command : List Bytes)
        → start spawn opts ≡ some h
        → (h.closed ≡ false) × (h.closes ≡ 0) × (h.kills ≡ 0)
    fresh command e = ground arith
