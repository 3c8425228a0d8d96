-- ===== src/Page/Leaving.antt =====
-- A page that has been left.
use web_terminal.Prelude.{ℕ, ◌≡◌, refl, Bool, true, false, List, [], ◌∷◌, ◌++◌, arith}
use web_terminal.Page.{
  Page, Request, opens, sends_hello, sends_ping, sends_input, sends_resize, closes, waits, Event,
  opened, control_comes, binary_comes, closed_socket, ping_timer, retry_timer, types, resizes,
  leaves, on_open, on_control, on_ping_timer, on_retry, on_close, send_input, send_resize, close,
  happens, happens_all,
}

-- A new socket, now or later, is among what the page asks for.
abbrev pub returns : List Request → Bool
returns [] = false
returns (opens ∷ rs) = true
returns (sends_hello cols rows session ∷ rs) = returns rs
returns (sends_ping ∷ rs) = returns rs
returns (sends_input bytes ∷ rs) = returns rs
returns (sends_resize cols rows ∷ rs) = returns rs
returns (closes ∷ rs) = returns rs
returns (waits d ∷ rs) = true

returns-append :
    (rs ss : List Request) → returns rs ≡ false → returns ss ≡ false → returns (rs ++ ss) ≡ false
returns-append [] ss h k = k
returns-append (opens ∷ rs) ss h k = h
returns-append (sends_hello cols rows session ∷ rs) ss h k = returns-append rs ss h k
returns-append (sends_ping ∷ rs) ss h k = returns-append rs ss h k
returns-append (sends_input bytes ∷ rs) ss h k = returns-append rs ss h k
returns-append (sends_resize cols rows ∷ rs) ss h k = returns-append rs ss h k
returns-append (closes ∷ rs) ss h k = returns-append rs ss h k
returns-append (waits d ∷ rs) ss h k = h

left_asks :
    (jitter : ℕ → ℕ) (now : ℕ) (e : Event) (p : Page)
    → p.closed ≡ true
    → let (q, asked) = happens jitter now e p in (q.closed ≡ true) × (returns asked ≡ false)
unfolding happens on_open on_control on_ping_timer on_retry on_close send_input send_resize close
left_asks jitter now opened p off = (off, refl)
left_asks jitter now (control_comes m) p off = ground arith
left_asks jitter now (binary_comes bytes) p off = (off, refl)
left_asks jitter now closed_socket p off = ground arith
left_asks jitter now ping_timer p off = ground arith
left_asks jitter now retry_timer p off = ground arith
left_asks jitter now (types bytes) p off = ground arith
left_asks jitter now (resizes cols rows) p off = ground arith
left_asks jitter now leaves p off = ground arith

-- After a page is left, it stays closed and never asks for a new socket or a timeout, whatever happens,
-- timeouts that were pending included.
left_for_good :
    (jitter : ℕ → ℕ) (es : List (ℕ × Event)) (p : Page)
    → p.closed ≡ true
    → let (q, asked) = happens_all jitter es p in (q.closed ≡ true) × (returns asked ≡ false)
unfolding happens_all
left_for_good jitter [] p off = (off, refl)
left_for_good jitter ((now, e) ∷ es) p off =
    let (still, one) = left_asks jitter now e p off in
    let (closed, all) = left_for_good jitter es (happens jitter now e p).0 still in
    (closed, returns-append (happens jitter now e p).1 _ one all)
