-- ===== src/Routes/Health.antt =====
-- The count of sessions at /api/health, against the sessions that GetLive finds.
use web_terminal.Prelude.{
  ℕ, ◌+◌, ◌≤◌, ◌≡◌, refl, true, false, List, [], ◌∷◌, Bytes, length, map, All, arith, if◌then◌else◌,
}
use web_terminal.Prelude.Int.{ℤ}
use web_terminal.Session.{Session, kill_if_idle}
use web_terminal.Store.{Store, reap_sessions, reap, list}
use web_terminal.Store.Reaping.{reap-All-live}
use web_terminal.Routes.{
  Request, Headers, Reply, answer, health, redirect, accept, bytes, appearance, handle_health,
}

-- The sessions whose process runs.
abbrev pub live_count : List (Bytes × Session) → ℕ
live_count [] = 0
live_count ((id, s) ∷ m) = (if s.alive then 1 else 0) + live_count m

-- The number that a reply reports.
abbrev pub reported : Reply → ℕ
reported (answer r) = elim r.body [ health ok n ↦ n | bytes b ↦ 0 | appearance a ↦ 0 ]
reported (redirect p) = 0
reported (accept os) = 0

live_count-list :
    (m : List (Bytes × Session)) → live_count m ≤ length (map (λ (e : Bytes × Session). e.1) m)
live_count-list [] = omega arith
live_count-list ((id, s) ∷ m) = ground (arith, live_count-list m)

live_count_reaped :
    (now : ℕ) (grace : ℤ) (m : List (Bytes × Session))
    → All (λ (e : Bytes × Session). (e.1.alive ≡ true) × ((kill_if_idle e.1 now grace).0 ≡ false)) m
    → live_count m ≡ length (map (λ (e : Bytes × Session). e.1) m)
live_count_reaped now grace [] v = refl
live_count_reaped now grace ((id, s) ∷ m) v = ground (arith, live_count_reaped now grace m v.1)

-- The health route reports at least as many sessions as have a running process, and exactly so many
-- when the store has just been reaped.
health_counts :
    (st : Store) (now : ℕ) (r : Request) (hs : Headers)
    → (live_count st.sessions ≤ reported (handle_health st r hs))
      × (live_count (reap st now).0.sessions ≡ reported (handle_health (reap st now).0 r hs))
unfolding handle_health list reap
health_counts st now r hs = (
  live_count-list st.sessions,
  live_count_reaped now st.idle_grace (reap_sessions now st.idle_grace st.sessions)
      (reap-All-live now st.idle_grace st.sessions),
)
