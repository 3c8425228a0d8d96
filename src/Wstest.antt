-- ===== src/Wstest.antt =====
-- cmd/wstest/main.go: the command that drives a server without a browser. What a connection gives it
-- is a list of readings; the list ends where a deadline does. `unmarshal` is what json.Unmarshal
-- leaves in a ServerControl.
pub mod Search
pub mod Resume
pub mod Passes
use web_terminal.Prelude.{
  ℕ, zero, suc, ◌+◌, Bool, true, false, not, ◌&&◌, ◌||◌, Option, none, some, List, [], ◌∷◌, ◌++◌,
  Bytes, length, take, drop, ltb, leb, ◌==◌, if◌then◌else◌,
}
use web_terminal.Prelude.Int.{ℤ, pos, add64, eq_ℤ}
use web_terminal.Prelude.Text.{codes, str_eq}
use web_terminal.Protocol.{ServerControl}

-- The loop of stringContains at the index `i`, with rounds to spare.
unfoldable pub search_from : ℕ → ℕ → Bytes → Bytes → Bool
search_from zero i s sub = false
search_from (suc rounds) i s sub =
    let rest = search_from rounds (i + 1) s sub in
    if leb (i + length sub) (length s)
    then (if str_eq (take (length sub) (drop i s)) sub then true else rest)
    else false

unfoldable pub string_contains : Bytes → Bytes → Bool
string_contains s sub = search_from (length s + 1) 0 s sub

unfoldable pub contains : Bytes → Bytes → Bool
contains hay needle = ltb 0 (length hay) && string_contains hay needle

-- What conn.Read returns.
pub data Reading : Type 0 where
  text_message binary_message : Bytes → Reading
  read_error : Reading

-- The loop of readOutput; what it does with DecodeInput has no effect.
unfoldable pub read_output : Bytes → List Reading → Bytes
read_output out [] = out
read_output out (text_message bytes ∷ rest) = read_output out rest
read_output out (binary_message bytes ∷ rest) =
    read_output (if ltb 9 (length bytes) then out ++ drop 9 bytes else out) rest
read_output out (read_error ∷ rest) = out

-- How the loop that waits for a welcome ends.
pub data Welcomed : Type 0 where
  fatal : Welcomed
  timed_out : Welcomed
  welcomed : Bytes → ℤ → List Reading → Welcomed

abbrev pub offset_of : ℤ → Option ℤ → ℤ
offset_of before none = before
offset_of before (some z) = z

-- What the two connections do: whether each dial and write succeeds, and the readings of each phase.
pub record Transcript : Type 0 where
  pub dials : Bool
  pub sends_hello : Bool
  pub sends_input : Bool
  pub redials : Bool
  pub sends_second_hello : Bool
  pub sends_second_input : Bool
  pub greeting : List Reading
  pub output : List Reading
  pub second_greeting : List Reading
  pub second_output : List Reading

-- How main ends: by log.Fatal, or with its checks in order.
pub data Outcome : Type 0 where
  dies : Outcome
  checked : List Bool → Outcome

module _ (unmarshal : Bytes → ServerControl) where
  unfoldable pub await_welcome : List Reading → Welcomed
  await_welcome [] = timed_out
  await_welcome (text_message bytes ∷ rest) =
      let m = unmarshal bytes in
      let later = await_welcome rest in
      if str_eq m.t (codes "welcome")
      then welcomed m.session_id (offset_of (pos 0) m.offset) rest
      else later
  await_welcome (binary_message bytes ∷ rest) = await_welcome rest
  await_welcome (read_error ∷ rest) = fatal

  -- The loop that checks the resume: `resumed`, `resumeOffset` and what is left to read.
  unfoldable pub await_resume : Bytes → ℤ → List Reading → Bool × ℤ × List Reading
  await_resume session_id last_offset [] = (false, pos 0, [])
  await_resume session_id last_offset (text_message bytes ∷ rest) =
      let m = unmarshal bytes in
      let later = await_resume session_id last_offset rest in
      let offset = offset_of (pos 0) m.offset in
      if str_eq m.t (codes "welcome")
      then (str_eq m.session_id session_id && eq_ℤ offset last_offset, offset, rest)
      else if str_eq m.t (codes "reset")
      then (false, pos 0, rest)
      else later
  await_resume session_id last_offset (binary_message bytes ∷ rest) =
      await_resume session_id last_offset rest
  await_resume session_id last_offset (read_error ∷ rest) = (false, pos 0, rest)

  -- main after the welcome.
  unfoldable pub checks_after : Transcript → Bytes → ℤ → List Reading → Outcome
  unfolding await_resume read_output contains
  checks_after t session_id offset rest =
      let got = read_output [] (rest ++ t.output) in
      let last_offset = add64 offset (pos (length got)) in
      let (resumed, _, left) = await_resume session_id last_offset t.second_greeting in
      let more = read_output [] (left ++ t.second_output) in
      if str_eq session_id []
        || not t.sends_input
        || not t.redials
        || not t.sends_second_hello
        || not t.sends_second_input
      then dies
      else checked (
          true
          ∷ contains got (codes "GO_SPIKE_OK")
          ∷ ltb 0 (length got)
          ∷ resumed
          ∷ contains more (codes "AFTER_RECONNECT")
          ∷ [])

  unfoldable pub run_test : Transcript → Outcome
  unfolding await_welcome checks_after
  run_test t = if not t.dials || not t.sends_hello then dies else elim (await_welcome t.greeting) [
    | fatal ↦ dies
    | timed_out ↦ dies
    | welcomed session_id offset rest ↦ checks_after t session_id offset rest
  ]

-- failures
unfoldable pub failures : List Bool → ℕ
failures [] = 0
failures (ok ∷ checks) = (if ok then 0 else 1) + failures checks
