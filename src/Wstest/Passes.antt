-- ===== src/Wstest/Passes.antt =====
-- What it means that the command passes.
use web_terminal.Prelude.{
  ◌≡◌, refl, sym, ap, ◌∙◌, Bool, true, false, not, ◌||◌, List, [], ◌∷◌, ◌++◌, Bytes, length, arith,
  if◌then◌else◌,
}
use web_terminal.Prelude.Int.{ℤ, pos, add64}
use web_terminal.Prelude.Text.{codes, str_eq}
use web_terminal.Protocol.{ServerControl}
use web_terminal.Wstest.{
  Reading, Transcript, Outcome, dies, checked, Welcomed, fatal, timed_out, welcomed, read_output,
  await_welcome, await_resume, checks_after, run_test, failures,
}
use web_terminal.Wstest.Search.{Occurs, contains_iff}

module _ (unmarshal : Bytes → ServerControl) where
  -- What the server has done, by the transcript: a session with a welcome, the echo of both inputs,
  -- and a welcome for the same session at the offset that was counted.
  pub record HasPassed (t : Transcript) : Type 0 where
    pub session_id : Bytes
    pub offset : ℤ
    pub rest : List Reading
    pub greeted : await_welcome unmarshal t.greeting ≡ welcomed session_id offset rest
    pub named : str_eq session_id [] ≡ false
    pub echoed : Occurs (read_output [] (rest ++ t.output)) (codes "GO_SPIKE_OK")
    pub resumed :
        (await_resume unmarshal session_id
          (add64 offset (pos (length (read_output [] (rest ++ t.output)))))
          t.second_greeting).0
        ≡ true
    pub survived :
        Occurs
          (read_output [] (
            (await_resume unmarshal session_id
              (add64 offset (pos (length (read_output [] (rest ++ t.output)))))
              t.second_greeting).2
            ++ t.second_output))
          (codes "AFTER_RECONNECT")

  checks_hold :
      (a b c d e : Bool)
      → failures (a ∷ b ∷ c ∷ d ∷ e ∷ []) ≡ 0
      → (b ≡ true) × (d ≡ true) × (e ≡ true)
  unfolding failures
  checks_hold a b c d e h = ground arith

  -- A program that ends with its checks did not die before.
  not_dead :
      (dead : Bool) (later : Outcome) (checks : List Bool)
      → (if dead then dies else later) ≡ checked checks
      → (dead ≡ false) × (later ≡ checked checks)
  not_dead true later checks e = absurd (dies_checked e)
    where
      dies_checked : dies ≡ checked checks → ⊥
      dies_checked e = cc
  not_dead false later checks e = (refl, e)

  checked_inj : {made checks : List Bool} → checked made ≡ checked checks → made ≡ checks
  checked_inj e = cc

  after-HasPassed :
      (t : Transcript) (session_id : Bytes) (offset : ℤ) (rest : List Reading) (checks : List Bool)
      → await_welcome unmarshal t.greeting ≡ welcomed session_id offset rest
      → checks_after unmarshal t session_id offset rest ≡ checked checks
      → failures checks ≡ 0
      → HasPassed t
  unfolding checks_after
  after-HasPassed t session_id offset rest checks g e none_failed =
      let (alive, made) = not_dead _ _ checks e in
      let (echo, same, more) =
        checks_hold true _ _ _ _ (ap failures (checked_inj made) ∙ none_failed) in
      record {
        session_id = session_id;
        offset = offset;
        rest = rest;
        greeted = g;
        named = first_false (str_eq session_id []) _ _ _ _ alive;
        echoed = ((contains_iff _ _).0 echo).1;
        resumed = same;
        survived = ((contains_iff _ _).0 more).1;
      }
    where
      first_false : (a b c d e : Bool) → (a || b || c || d || e) ≡ false → a ≡ false
      first_false a b c d e h = ground arith

  -- The command exits with no failed check only if the server did all that it checks.
  run_test-HasPassed :
      (t : Transcript) (checks : List Bool)
      → run_test unmarshal t ≡ checked checks
      → failures checks ≡ 0
      → HasPassed t
  unfolding run_test
  run_test-HasPassed t checks e none_failed = greeted_by (await_welcome unmarshal t.greeting) refl
    where
      after : Welcomed → Outcome
      after w = elim w [
        | fatal ↦ dies
        | timed_out ↦ dies
        | welcomed session_id offset rest ↦ checks_after unmarshal t session_id offset rest
      ]

      dies_checked : dies ≡ checked checks → ⊥
      dies_checked e = cc

      opened : after (await_welcome unmarshal t.greeting) ≡ checked checks
      opened = (not_dead (not t.dials || not t.sends_hello) _ checks e).1

      greeted_by : (w : Welcomed) → await_welcome unmarshal t.greeting ≡ w → HasPassed t
      greeted_by fatal g = absurd (dies_checked (sym (ap after g) ∙ opened))
      greeted_by timed_out g = absurd (dies_checked (sym (ap after g) ∙ opened))
      greeted_by (welcomed session_id offset rest) g =
          after-HasPassed t session_id offset rest checks g (sym (ap after g) ∙ opened) none_failed
