-- ===== src/Store/Ticks.antt =====
-- The reaper over its ticks.
use web_terminal.Prelude.{
  ℕ, ◌≡◌, refl, sym, ap, ◌∙◌, true, ◌↔◌, inl, inr, none, some, List, [], ◌∷◌, Bytes, All,
  Option-cases,
}
use web_terminal.Session.{Session}
use web_terminal.Session.Idle.{InPast, IsOrphaned}
use web_terminal.Store.{Store, lookup, reap, reap_ticks}
use web_terminal.Store.Maps.{Unique}
use web_terminal.Store.Reaping.{
  Unique-reap, kept, kept-inv, lookup-reap, lookup-reap_absent, reap_iff,
}

Unique-ticks : (st : Store) (now : ℕ) → Unique st.sessions → Unique (reap st now).0.sessions
unfolding reap
Unique-ticks st now u = Unique-reap now st.idle_grace st.sessions u

same_grace : (st : Store) (now : ℕ) → (reap st now).0.idle_grace ≡ st.idle_grace
unfolding reap
same_grace st now = refl

stays_away :
    (ticks : List ℕ) (st : Store) (id : Bytes)
    → lookup id st.sessions ≡ none
    → lookup id (reap_ticks st ticks).sessions ≡ none
unfolding reap_ticks reap
stays_away [] st id gone = gone
stays_away (now ∷ ticks) st id gone =
    stays_away ticks (reap st now).0 id (lookup-reap_absent now st.idle_grace id st.sessions gone)

-- A tick and the ticks after it.
tick_iff :
    (now : ℕ) (ticks : List ℕ) (st : Store) (id : Bytes) (s : Session)
    → Unique st.sessions
    → InPast s.idle_since now
    → lookup id st.sessions ≡ some s
    → s.alive ≡ true
    → (lookup id (reap st now).0.sessions ≡ some s
        → (lookup id (reap_ticks (reap st now).0 ticks).sessions ≡ some s)
          ↔ All (λ t. ¬ IsOrphaned s t st.idle_grace) ticks)
    → (lookup id (reap_ticks (reap st now).0 ticks).sessions ≡ some s)
      ↔ All (λ t. ¬ IsOrphaned s t st.idle_grace) (now ∷ ticks)
tick_iff now ticks st id s u past there on rest = (spared, kept_there)
  where
    once :
        (lookup id (reap st now).0.sessions ≡ some s)
        ↔ ((lookup id st.sessions ≡ some s) × (s.alive ≡ true) × ¬ IsOrphaned s now st.idle_grace)
    once = reap_iff st now id s u past

    none-some : none ≡ some s → ⊥
    none-some e = cc

    still_there :
        lookup id (reap_ticks (reap st now).0 ticks).sessions ≡ some s
        → lookup id (reap st now).0.sessions ≡ some s
    still_there e = elim (Option-cases (lookup id (reap st now).0.sessions)) [
      | inl gone ↦ absurd (none-some (sym (stays_away ticks (reap st now).0 id gone) ∙ e))
      | inr (t, found) ↦
          let (same, _, _) =
            kept-inv now st.idle_grace s t
              (sym (ap (kept now st.idle_grace) there) ∙ sym (lookup-reap st now id u) ∙ found) in
          found ∙ ap some (sym same)
    ]

    spared :
        lookup id (reap_ticks (reap st now).0 ticks).sessions ≡ some s
        → All (λ t. ¬ IsOrphaned s t st.idle_grace) (now ∷ ticks)
    spared e = let still = still_there e in ((once.0 still).2, (rest still).0 e)

    kept_there :
        All (λ t. ¬ IsOrphaned s t st.idle_grace) (now ∷ ticks)
        → lookup id (reap_ticks (reap st now).0 ticks).sessions ≡ some s
    kept_there (safe, v) = (rest (once.1 (there, on, safe))).1 v

-- A session under an id of the store, which nothing happens to but the ticks of the reaper, none of
-- them before its idle time: after the ticks it is still there when and only when its process runs
-- and at none of the ticks it was orphaned for its applicable grace. With one such tick it is gone.
pub reap_ticks_iff :
    (ticks : List ℕ) (st : Store) (id : Bytes) (s : Session)
    → Unique st.sessions
    → All (InPast s.idle_since) ticks
    → lookup id st.sessions ≡ some s
    → s.alive ≡ true
    → (lookup id (reap_ticks st ticks).sessions ≡ some s)
      ↔ All (λ now. ¬ IsOrphaned s now st.idle_grace) ticks
unfolding reap_ticks reap
reap_ticks_iff [] st id s u past there on = ((λ e. tt), λ v. there)
reap_ticks_iff (now ∷ ticks) st id s u (past, later) there on =
    tick_iff now ticks st id s u past there on
      (λ still. reap_ticks_iff ticks (reap st now).0 id s (Unique-ticks st now u) later still on)
