-- ===== src/Page/Timing.antt =====
-- How long the page waits before it opens a new socket.
use web_terminal.Prelude.{
  zero, suc, ℕ, ◌+◌, ◌*◌, ◌^◌, ◌≤◌, ◌≡◌, ◌≢◌, refl, ap, ◌∙◌, false, List, [], ◌∷◌, arith,
  if◌then◌else◌,
}
use web_terminal.Prelude.Text.{codes, str_eq}
use web_terminal.Page.{
  Page, opens, waits, Event, opened, control_comes, binary_comes, closed_socket, ping_timer,
  retry_timer, types, resizes, leaves, backoff, open_socket, on_open, on_control, on_ping_timer,
  on_retry, on_close, send_resize, happens, happens_all,
}

-- The sockets lost since the last welcome.
abbrev pub losses : ℕ → List (ℕ × Event) → ℕ
losses n [] = n
losses n ((now, e) ∷ es) =
    losses
      (elim e [
        | opened ↦ n
        | control_comes m ↦ if str_eq m.t (codes "welcome") then 0 else n
        | binary_comes bytes ↦ n
        | closed_socket ↦ n + 1
        | ping_timer ↦ n
        | retry_timer ↦ n
        | types bytes ↦ n
        | resizes cols rows ↦ n
        | leaves ↦ n
      ])
      es

-- The page was not left.
abbrev pub Stays : List (ℕ × Event) → Type 0
Stays [] = Unit {0}
Stays ((now, e) ∷ es) = (e ≢ leaves) × Stays es

one_loss :
    (jitter : ℕ → ℕ) (now : ℕ) (e : Event) (p : Page)
    → p.closed ≡ false
    → e ≢ leaves
    → let q = (happens jitter now e p).0 in
      (q.closed ≡ false) × (q.attempts ≡ losses p.attempts ((now, e) ∷ []))
unfolding happens on_open on_control on_ping_timer on_retry on_close send_resize open_socket
one_loss jitter now opened p on stays = (on, refl)
one_loss jitter now (control_comes m) p on stays = ground arith
one_loss jitter now (binary_comes bytes) p on stays = (on, refl)
one_loss jitter now closed_socket p on stays = ground arith
one_loss jitter now ping_timer p on stays = ground arith
one_loss jitter now retry_timer p on stays = ground arith
one_loss jitter now (types bytes) p on stays = (on, refl)
one_loss jitter now (resizes cols rows) p on stays = (on, refl)
one_loss jitter now leaves p on stays = absurd (stays refl)

losses_lem :
    (jitter : ℕ → ℕ) (es : List (ℕ × Event)) (p : Page)
    → p.closed ≡ false
    → Stays es
    → let q = (happens_all jitter es p).0 in
      (q.closed ≡ false) × (q.attempts ≡ losses p.attempts es)
unfolding happens_all
losses_lem jitter [] p on stays = (on, refl)
losses_lem jitter ((now, e) ∷ es) p on (stays, rest) =
    let (still, one) = one_loss jitter now e p on stays in
    let (on', all) = losses_lem jitter es (happens jitter now e p).0 still rest in
    (on', all ∙ ap (λ n. losses n es) one)

one_power : (n : ℕ) → 1 ≤ 2 ^ n
one_power zero = omega arith
one_power (suc n) = omega (arith, one_power n)

sixth_power : (n : ℕ) → 6 ≤ n → 64 ≤ 2 ^ n
sixth_power zero h = absurd (omega arith)
sixth_power (suc zero) h = absurd (omega arith)
sixth_power (suc (suc zero)) h = absurd (omega arith)
sixth_power (suc (suc (suc zero))) h = absurd (omega arith)
sixth_power (suc (suc (suc (suc zero)))) h = absurd (omega arith)
sixth_power (suc (suc (suc (suc (suc zero))))) h = absurd (omega arith)
sixth_power (suc (suc (suc (suc (suc (suc n)))))) h = omega (arith, one_power n)

-- A page that is not left loses its socket, after any events. It asks for one thing, a timeout after
-- which it opens a new socket; with a random factor between 0.7 and 1.3 that is between 210 ms and
-- 19.5 s away, and at least 10.5 s when six sockets or more have been lost since the last welcome.
pub retry_bounded :
    (jitter : ℕ → ℕ) (es : List (ℕ × Event)) (now : ℕ) (p : Page)
    → p.closed ≡ false
    → Stays es
    → ((b : ℕ) → (7 * b ≤ 10 * jitter b) × (10 * jitter b ≤ 13 * b))
    → let (q, asked) = happens jitter now closed_socket (happens_all jitter es p).0 in
      (d : ℕ) × (asked ≡ waits d ∷ [])
      × (210 ≤ d)
      × (d ≤ 19500)
      × (6 ≤ losses p.attempts es → 10500 ≤ d)
      × ((on_retry q).1 ≡ opens ∷ [])
unfolding happens on_close on_retry open_socket backoff
retry_bounded jitter es now p on stays near =
    let (still, all) = losses_lem jitter es p on stays in
    let n = (happens_all jitter es p).0.attempts in
    rw still (
      jitter (backoff n),
      refl,
      omega (arith, near (backoff n), one_power n),
      omega (arith, near (backoff n)),
      λ six. omega (arith, near (backoff n), sixth_power n (rw all six)),
      refl,
    )
