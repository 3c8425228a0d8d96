-- ===== src/Tests/Paging.antt =====
-- A page that shows the session "a", with a socket that is open.
use web_terminal.Prelude.{
  ℕ, ◌+◌, ◌*◌, ◌≤◌, ◌<◌, ◌≡◌, refl, true, false, some, none, List, [], ◌∷◌, arith,
}
use web_terminal.Prelude.Int.{pos}
use web_terminal.Prelude.Text.{codes}
use web_terminal.Protocol.{ServerControl}
use web_terminal.Hello.{blank, handle_all}
use web_terminal.Page.{
  Page, ready, opens, sends_ping, closes, waits, Event, opened, control_comes, closed_socket,
  ping_timer, retry_timer, is_open, load, connect, on_retry, happens, happens_all,
}
use web_terminal.Page.Timing.{losses, retry_bounded}
use web_terminal.Page.KeepAlive.{latest, keepalive}
use web_terminal.Page.Sessions.{welcomed, remembered, messages, hello_for, hello_tells}

abbrev showing : Page
showing = record (load (some (97 ∷ []))) {
  socket = some ready;
  session_id = some (97 ∷ []);
  pinging = true;
  last_pong_at = 1000;
}

-- Without a random factor.
abbrev exactly : ℕ → ℕ
exactly b = b

exactly_near : (b : ℕ) → (7 * b ≤ 10 * exactly b) × (10 * exactly b ≤ 13 * b)
exactly_near b = omega arith

abbrev lost_twice : List (ℕ × Event)
lost_twice = (2000, closed_socket) ∷ (2300, retry_timer) ∷ (2400, closed_socket) ∷ []

retry_bounded_example :
    let (q, asked) =
      happens exactly 4000 closed_socket (happens_all exactly lost_twice showing).0 in
    (d : ℕ) × (asked ≡ waits d ∷ [])
    × (210 ≤ d)
    × (d ≤ 19500)
    × (6 ≤ losses 0 lost_twice → 10500 ≤ d)
    × ((on_retry q).1 ≡ opens ∷ [])
retry_bounded_example =
    retry_bounded exactly lost_twice 4000 showing refl ((λ e. cc), ((λ e. cc), ((λ e. cc), tt)))
      exactly_near

abbrev pong : ServerControl
pong = record blank { t = codes "pong" }

abbrev answered_once : List (ℕ × Event)
answered_once = (16000, ping_timer) ∷ (16050, control_comes pong) ∷ (31000, ping_timer) ∷ []

keepalive_example :
    let (q, asked) =
      happens exactly 76000 ping_timer (happens_all exactly answered_once showing).0 in
    (76000 ≤ latest 1000 answered_once + 45000
      → (asked ≡ sends_ping ∷ []) × (is_open q.socket ≡ true))
    × (latest 1000 answered_once + 45000 < 76000
        → (asked ≡ closes ∷ []) × (is_open q.socket ≡ false))
keepalive_example =
    keepalive exactly answered_once 76000 showing (refl, refl) (omega arith, (omega arith, tt))

abbrev exit : ServerControl
exit = record blank { t = codes "exit"; code = some (pos 0) }

abbrev exits_and_closes : List (ℕ × Event)
exits_and_closes = (2000, control_comes exit) ∷ (2100, closed_socket) ∷ (2500, retry_timer) ∷ []

hello_tells_example :
    let q = (happens_all exactly exits_and_closes showing).0 in
    let reloaded = (connect 100 30 none (load q.stored)).0 in
    ((happens exactly 2600 opened q).1
      ≡ hello_for q.cols q.rows
          (welcomed (some (97 ∷ [])) exits_and_closes)
          (handle_all showing.stream (messages exits_and_closes)).offset
        ∷ [])
    × ((happens exactly 2600 opened reloaded).1
        ≡ hello_for 100 30 (remembered (some (97 ∷ [])) exits_and_closes) 0 ∷ [])
hello_tells_example = hello_tells exactly exits_and_closes 2600 100 30 showing

forgotten : remembered (some (97 ∷ [])) exits_and_closes ≡ none
forgotten = refl
