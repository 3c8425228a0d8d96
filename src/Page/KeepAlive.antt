-- ===== src/Page/KeepAlive.antt =====
-- When the page gives an open socket up.
use web_terminal.Prelude.{
  not, ◌&&◌, ℕ, ◌+◌, ◌≤◌, ◌<◌, ◌≡◌, refl, sym, ap, ◌∙◌, Bool, true, false, Option, none, some, List,
  [], ◌∷◌, arith, if◌then◌else◌, subst,
}
use web_terminal.Prelude.Text.{codes, str_eq}
use web_terminal.Protocol.{ServerControl}
use web_terminal.Page.{
  Page, Ready, connecting, ready, closing, shut, shuts, Request, sends_ping, closes, Event, opened,
  control_comes, binary_comes, closed_socket, ping_timer, retry_timer, types, resizes, leaves,
  is_open, on_control, on_ping_timer, send_resize, happens, happens_all,
}

-- The time of the last pong.
abbrev pub is_pong : ServerControl → Bool
is_pong m = not (str_eq m.t (codes "welcome")) && str_eq m.t (codes "pong")

abbrev pub latest : ℕ → List (ℕ × Event) → ℕ
latest last [] = last
latest last ((now, e) ∷ es) =
    latest
      (elim e [
        | opened ↦ last
        | control_comes m ↦ if is_pong m then now else last
        | binary_comes bytes ↦ last
        | closed_socket ↦ last
        | ping_timer ↦ last
        | retry_timer ↦ last
        | types bytes ↦ last
        | resizes cols rows ↦ last
        | leaves ↦ last
      ])
      es

-- The socket goes on, and each ping timer goes off at most 45 s after the pong before it.
abbrev pub Answered : ℕ → List (ℕ × Event) → Type 0
Answered last [] = Unit {0}
Answered last ((now, opened) ∷ es) = ⊥
Answered last ((now, control_comes m) ∷ es) = Answered (if is_pong m then now else last) es
Answered last ((now, binary_comes bytes) ∷ es) = Answered last es
Answered last ((now, closed_socket) ∷ es) = ⊥
Answered last ((now, ping_timer) ∷ es) = (now ≤ last + 45000) × Answered last es
Answered last ((now, retry_timer) ∷ es) = ⊥
Answered last ((now, types bytes) ∷ es) = Answered last es
Answered last ((now, resizes cols rows) ∷ es) = Answered last es
Answered last ((now, leaves) ∷ es) = ⊥

-- The socket of the page is open and its pings run.
abbrev pub IsLive : Page → Type 0
IsLive p = (is_open p.socket ≡ true) × (p.pinging ≡ true)

control_keeps :
    (now : ℕ) (m : ServerControl) (p : Page)
    → let q = on_control now m p in
      (q.socket ≡ p.socket)
      × (q.pinging ≡ p.pinging)
      × (q.last_pong_at ≡ (if is_pong m then now else p.last_pong_at))
unfolding on_control
control_keeps now m p = ground arith

ping_keeps :
    (now : ℕ) (p : Page)
    → IsLive p
    → now ≤ p.last_pong_at + 45000
    → let q = (on_ping_timer now p).0 in IsLive q × (q.last_pong_at ≡ p.last_pong_at)
unfolding on_ping_timer
ping_keeps now p v near = ground arith

timer_runs :
    (jitter : ℕ → ℕ) (now : ℕ) (p : Page)
    → p.pinging ≡ true
    → happens jitter now ping_timer p ≡ on_ping_timer now p
unfolding happens
timer_runs jitter now p on = ap (λ b. if b then on_ping_timer now p else (p, [])) on

answered_lem :
    (jitter : ℕ → ℕ) (es : List (ℕ × Event)) (p : Page)
    → IsLive p
    → Answered p.last_pong_at es
    → let q = (happens_all jitter es p).0 in IsLive q × (q.last_pong_at ≡ latest p.last_pong_at es)
unfolding happens_all happens send_resize
answered_lem jitter [] p v a = (v, refl)
answered_lem jitter ((now, opened) ∷ es) p v a = absurd a
answered_lem jitter ((now, control_comes m) ∷ es) p v a =
    let (same, on, pong) = control_keeps now m p in
    let (live, last) =
      answered_lem jitter es (on_control now m p) (ap is_open same ∙ v.0, on ∙ v.1)
        (subst (λ k. Answered k es) (sym pong) a) in
    (live, last ∙ ap (λ k. latest k es) pong)
answered_lem jitter ((now, binary_comes bytes) ∷ es) p v a = answered_lem jitter es _ v a
answered_lem jitter ((now, closed_socket) ∷ es) p v a = absurd a
answered_lem jitter ((now, ping_timer) ∷ es) p v (near, a) =
    let (live, same) = ping_keeps now p v near in
    let (live', last) =
      answered_lem jitter es (on_ping_timer now p).0 live
        (subst (λ k. Answered k es) (sym same) a) in
    subst
      (λ (k : Page × List Request).
        let q = (happens_all jitter es k.0).0 in
        IsLive q × (q.last_pong_at ≡ latest p.last_pong_at es))
      (sym (timer_runs jitter now p v.1)) (live', last ∙ ap (λ k. latest k es) same)
answered_lem jitter ((now, retry_timer) ∷ es) p v a = absurd a
answered_lem jitter ((now, types bytes) ∷ es) p v a = answered_lem jitter es p v a
answered_lem jitter ((now, resizes cols rows) ∷ es) p v a = answered_lem jitter es _ v a
answered_lem jitter ((now, leaves) ∷ es) p v a = absurd a

-- The socket of a page is open and its pings run, and after it each ping timer has gone off at most 45 s
-- after the pong before it. At the next ping timer the page sends a ping and keeps the socket, if the
-- last pong is at most 45 s ago, and else it closes the socket and sends nothing.
pub keepalive :
    (jitter : ℕ → ℕ) (es : List (ℕ × Event)) (now : ℕ) (p : Page)
    → IsLive p
    → Answered p.last_pong_at es
    → let (q, asked) = happens jitter now ping_timer (happens_all jitter es p).0 in
      (now ≤ latest p.last_pong_at es + 45000
        → (asked ≡ sends_ping ∷ []) × (is_open q.socket ≡ true))
      × (latest p.last_pong_at es + 45000 < now
          → (asked ≡ closes ∷ []) × (is_open q.socket ≡ false))
unfolding happens on_ping_timer
keepalive jitter es now p v a =
    let (live, last) = answered_lem jitter es p v a in
    (
      λ near. ground (arith, live, last),
      λ late. ground (arith, live, last, shut_socket (happens_all jitter es p).0.socket),
    )
  where
    shut_socket : (o : Option Ready) → is_open (shuts o) ≡ false
    shut_socket none = refl
    shut_socket (some connecting) = refl
    shut_socket (some ready) = refl
    shut_socket (some closing) = refl
    shut_socket (some shut) = refl
