-- ===== src/Store/Reaping.antt =====
-- What a reap leaves in the store.
use web_terminal.Prelude.{
  ℕ, ◌≡◌, refl, sym, ap, ◌∙◌, true, false, not, ◌&&◌, inl, inr, ◌⊎◌, ◌↔◌, Option, none, some, List,
  [], ◌∷◌, map, Bytes, length, All, arith, if◌then◌else◌, Bool-cases, Option-cases, some_inj, subst,
}
use web_terminal.Prelude.Int.{ℤ}
use web_terminal.Prelude.Text.{str_eq, str_eq→≡}
use web_terminal.Session.{Session, kill_if_idle, pump_end, mark_exited}
use web_terminal.Session.Idle.{InPast, IsOrphaned, kill_if_idle_iff}
use web_terminal.Store.{Store, lookup, get_live, visit, reap_sessions, reap, list, update}
use web_terminal.Store.Maps.{Unique, lookup-update}

-- What Reap makes of a session that was found.
abbrev pub kept : ℕ → ℤ → Option Session → Option Session
kept now grace none = none
kept now grace (some s) = if s.alive && not (kill_if_idle s now grace).0 then some s else none

kept-spared :
    (s : Session) (now : ℕ) (grace : ℤ)
    → (kill_if_idle s now grace).0 ≡ false
    → (kill_if_idle s now grace).1 ≡ s
unfolding kill_if_idle
kept-spared s now grace e = ground arith

pub lookup-reap_absent :
    (now : ℕ) (grace : ℤ) (id : Bytes) (m : List (Bytes × Session))
    → lookup id m ≡ none
    → lookup id (reap_sessions now grace m) ≡ none
unfolding lookup reap_sessions
lookup-reap_absent now grace id [] h = refl
lookup-reap_absent now grace id ((j, s) ∷ m) h = ground (arith, lookup-reap_absent now grace id m)

lookup-reap_sessions :
    (now : ℕ) (grace : ℤ) (id : Bytes) (m : List (Bytes × Session))
    → Unique m
    → lookup id (reap_sessions now grace m) ≡ kept now grace (lookup id m)
unfolding lookup reap_sessions visit
lookup-reap_sessions now grace id [] u = refl
lookup-reap_sessions now grace id ((j, s) ∷ m) (new, u) = elim (Bool-cases (str_eq j id)) [
  | inl hit ↦ ground (
    arith,
    str_eq→≡ j id hit,
    lookup-reap_absent now grace id m,
    lookup-reap_absent now grace j m,
    kept-spared s now grace,
  )
  | inr miss ↦ ground (arith, lookup-reap_sessions now grace id m u)
]

pub lookup-reap :
    (st : Store) (now : ℕ) (id : Bytes)
    → Unique st.sessions
    → lookup id (reap st now).0.sessions ≡ kept now st.idle_grace (lookup id st.sessions)
unfolding reap
lookup-reap st now id u = lookup-reap_sessions now st.idle_grace id st.sessions u

-- After a reap every session is alive and has not been orphaned for its grace.
pub reap-All-live :
    (now : ℕ) (grace : ℤ) (m : List (Bytes × Session))
    → All
        (λ (e : Bytes × Session). (e.1.alive ≡ true) × ((kill_if_idle e.1 now grace).0 ≡ false))
        (reap_sessions now grace m)
unfolding reap_sessions visit
reap-All-live now grace [] = tt
reap-All-live now grace ((j, s) ∷ m) =
    ground (arith, reap-All-live now grace m, kept-spared s now grace)

pub Unique-reap :
    (now : ℕ) (grace : ℤ) (m : List (Bytes × Session))
    → Unique m
    → Unique (reap_sessions now grace m)
unfolding reap_sessions
Unique-reap now grace [] u = tt
Unique-reap now grace ((j, s) ∷ m) u =
    ground (arith, Unique-reap now grace m u.1, lookup-reap_absent now grace j m)

pub kept-inv :
    (now : ℕ) (g : ℤ) (t s : Session)
    → kept now g (some t) ≡ some s
    → (t ≡ s) × (t.alive ≡ true) × ((kill_if_idle t now g).0 ≡ false)
kept-inv now g t s k = elim (Bool-cases t.alive) [
  | inl on ↦ elim (Bool-cases (kill_if_idle t now g).0) [
    | inl killed ↦ absurd (none-some (simp (on, killed) at k))
    | inr spared ↦ (some_inj (simp (on, spared) at k), on, spared)
  ]
  | inr off ↦ absurd (none-some (simp off at k))
]
  where
    none-some : none ≡ some s → ⊥
    none-some e = cc

kept-live :
    (now : ℕ) (g : ℤ) (s : Session)
    → s.alive ≡ true
    → ((kill_if_idle s now g).0 ≡ true) ⊎ ((kill_if_idle s now g).0 ≡ false)
    → ¬ ((kill_if_idle s now g).0 ≡ true)
    → kept now g (some s) ≡ some s
kept-live now g s on (inl killed) safe = absurd (safe killed)
kept-live now g s on (inr spared) safe = ground arith

true-false : true ≡ false → ⊥
true-false e = cc

-- At a time that is not before any session's idle time, and with no two sessions under one id: after
-- a reap an id has a session exactly when it had that very session before, its process runs and it
-- is not orphaned for its applicable grace.
pub reap_iff :
    (st : Store) (now : ℕ) (id : Bytes) (s : Session)
    → Unique st.sessions
    → InPast s.idle_since now
    → (lookup id (reap st now).0.sessions ≡ some s)
      ↔ ((lookup id st.sessions ≡ some s) × (s.alive ≡ true) × ¬ IsOrphaned s now st.idle_grace)
reap_iff st now id s u p = (there, back)
  where
    there :
        lookup id (reap st now).0.sessions ≡ some s
        → (lookup id st.sessions ≡ some s) × (s.alive ≡ true) × ¬ IsOrphaned s now st.idle_grace
    there e = stays (lookup id st.sessions) (sym (lookup-reap st now id u) ∙ e)
      where
        stays :
            (o : Option Session)
            → kept now st.idle_grace o ≡ some s
            → (o ≡ some s) × (s.alive ≡ true) × ¬ IsOrphaned s now st.idle_grace
        stays none k = cc
        stays (some t) k =
            let (same, on, spared) = kept-inv now st.idle_grace t s k in
            let safe : ¬ IsOrphaned t now st.idle_grace = λ o.
              true-false
                (sym ((kill_if_idle_iff t now st.idle_grace (rw same p)).0.1 o) ∙ spared) in
            (ap some same, rw (← same) on, subst (λ r. ¬ IsOrphaned r now st.idle_grace) same safe)

    back :
        (lookup id st.sessions ≡ some s) × (s.alive ≡ true) × ¬ IsOrphaned s now st.idle_grace
        → lookup id (reap st now).0.sessions ≡ some s
    back (e, on, safe) =
        lookup-reap st now id u
        ∙ ap (kept now st.idle_grace) e
        ∙ kept-live now st.idle_grace s on (Bool-cases (kill_if_idle s now st.idle_grace).0)
            (λ h. safe ((kill_if_idle_iff s now st.idle_grace p).0.0 h))

length-update :
    (id : Bytes) (f : Session → Session) (m : List (Bytes × Session))
    → length (map (λ (e : Bytes × Session). e.1) (update id f m))
      ≡ length (map (λ (e : Bytes × Session). e.1) m)
unfolding update
length-update id f [] = refl
length-update id f ((j, s) ∷ m) = ground (arith, length-update id f m)

alive-pump_end : (s : Session) → (pump_end s).alive ≡ false
unfolding pump_end mark_exited
alive-pump_end s = ground arith

-- A session whose process has exited can no longer be found by GetLive, yet List is as long as
-- before, until a reap.
exited_but_listed :
    (st : Store) (id : Bytes)
    → (get_live (record st { sessions = update id pump_end st.sessions }) id ≡ none)
      × (length (list (record st { sessions = update id pump_end st.sessions })) ≡ length (list st))
unfolding get_live list
exited_but_listed st id = (gone, length-update id pump_end st.sessions)
  where
    gone : get_live (record st { sessions = update id pump_end st.sessions }) id ≡ none
    gone = elim (Option-cases (lookup id st.sessions)) [
      | inl e ↦ ground (arith, lookup-update id pump_end st.sessions)
      | inr (s, e) ↦ ground (arith, lookup-update id pump_end st.sessions, alive-pump_end s)
    ]
