-- ===== src/Page/Sessions.antt =====
-- Which session the page asks for, and with which offset.
use web_terminal.Prelude.{
  not, ◌&&◌, ℕ, ◌≡◌, refl, sym, ap, ◌∙◌, Option, none, some, List, [], ◌∷◌, Bytes, arith,
  if◌then◌else◌, ap₂,
}
use web_terminal.Prelude.Text.{codes, str_eq}
use web_terminal.Page.{
  Page, Request, sends_hello, Event, opened, control_comes, binary_comes, closed_socket, ping_timer,
  retry_timer, types, resizes, leaves, open_socket, on_open, on_control, on_ping_timer, on_retry,
  on_close, send_resize, close, happens, happens_all,
}
use web_terminal.Client.{Client}
use web_terminal.Hello.{Message, control, binary, handle_message, handle_all}
use web_terminal.Page.{load, connect, hello_of}
use web_terminal.Protocol.{ok, decode_input}
use web_terminal.Page.{encode_input}

-- The session of the last welcome.
abbrev pub welcomed : Option Bytes → List (ℕ × Event) → Option Bytes
welcomed id [] = id
welcomed id ((now, e) ∷ es) =
    welcomed
      (elim e [
        | opened ↦ id
        | control_comes m ↦ if str_eq m.t (codes "welcome") then some m.session_id else id
        | binary_comes bytes ↦ id
        | closed_socket ↦ id
        | ping_timer ↦ id
        | retry_timer ↦ id
        | types bytes ↦ id
        | resizes cols rows ↦ id
        | leaves ↦ id
      ])
      es

-- The session of the last welcome, unless its process has exited after it.
abbrev pub remembered : Option Bytes → List (ℕ × Event) → Option Bytes
remembered id [] = id
remembered id ((now, e) ∷ es) =
    remembered
      (elim e [
        | opened ↦ id
        | control_comes m ↦
            if str_eq m.t (codes "welcome")
            then some m.session_id
            else if not (str_eq m.t (codes "pong")) && str_eq m.t (codes "exit")
            then none
            else id
        | binary_comes bytes ↦ id
        | closed_socket ↦ id
        | ping_timer ↦ id
        | retry_timer ↦ id
        | types bytes ↦ id
        | resizes cols rows ↦ id
        | leaves ↦ id
      ])
      es

-- The messages of the stream.
abbrev pub messages : List (ℕ × Event) → List Message
messages [] = []
messages ((now, e) ∷ es) = elim e [
  | opened ↦ messages es
  | control_comes m ↦ control m ∷ messages es
  | binary_comes bytes ↦ binary bytes ∷ messages es
  | closed_socket ↦ messages es
  | ping_timer ↦ messages es
  | retry_timer ↦ messages es
  | types bytes ↦ messages es
  | resizes cols rows ↦ messages es
  | leaves ↦ messages es
]

-- What one event does to the session, to what is stored, and to the stream.
abbrev Follows : Page → (ℕ × Event) → Page → Type 0
Follows p e q =
    (q.session_id ≡ welcomed p.session_id (e ∷ []))
    × (q.stored ≡ remembered p.stored (e ∷ []))
    × (q.stream ≡ handle_all p.stream (messages (e ∷ [])))

happens-Follows :
    (jitter : ℕ → ℕ) (now : ℕ) (e : Event) (p : Page)
    → Follows p (now, e) (happens jitter now e p).0
unfolding happens on_open on_control on_ping_timer on_retry on_close send_resize close open_socket
    handle_all handle_message
happens-Follows jitter now opened p = (refl, refl, refl)
happens-Follows jitter now (control_comes m) p = ground arith
happens-Follows jitter now (binary_comes bytes) p = (refl, refl, refl)
happens-Follows jitter now closed_socket p = ground arith
happens-Follows jitter now ping_timer p = ground arith
happens-Follows jitter now retry_timer p = ground arith
happens-Follows jitter now (types bytes) p = (refl, refl, refl)
happens-Follows jitter now (resizes cols rows) p = (refl, refl, refl)
happens-Follows jitter now leaves p = (refl, refl, refl)

handle_all-messages :
    (now : ℕ) (e : Event) (es : List (ℕ × Event)) (c : Client)
    → handle_all c (messages ((now, e) ∷ es))
      ≡ handle_all (handle_all c (messages ((now, e) ∷ []))) (messages es)
unfolding handle_all
handle_all-messages now opened es c = refl
handle_all-messages now (control_comes m) es c = refl
handle_all-messages now (binary_comes bytes) es c = refl
handle_all-messages now closed_socket es c = refl
handle_all-messages now ping_timer es c = refl
handle_all-messages now retry_timer es c = refl
handle_all-messages now (types bytes) es c = refl
handle_all-messages now (resizes cols rows) es c = refl
handle_all-messages now leaves es c = refl

happens_all_lem :
    (jitter : ℕ → ℕ) (es : List (ℕ × Event)) (p : Page)
    → let q = (happens_all jitter es p).0 in
      (q.session_id ≡ welcomed p.session_id es)
      × (q.stored ≡ remembered p.stored es)
      × (q.stream ≡ handle_all p.stream (messages es))
unfolding happens_all handle_all
happens_all_lem jitter [] p = (refl, refl, refl)
happens_all_lem jitter ((now, e) ∷ es) p =
    let (session, stored, stream) = happens-Follows jitter now e p in
    let (session', stored', stream') = happens_all_lem jitter es (happens jitter now e p).0 in
    (
      session' ∙ ap (λ k. welcomed k es) session,
      stored' ∙ ap (λ k. remembered k es) stored,
      stream'
          ∙ ap (λ c. handle_all c (messages es)) stream
          ∙ sym (handle_all-messages now e es p.stream),
    )

-- A hello for a session, if there is one, from an offset of it.
abbrev pub hello_for : ℕ → ℕ → Option Bytes → ℕ → Request
hello_for cols rows none offset = sends_hello cols rows none
hello_for cols rows (some id) offset = sends_hello cols rows (some (id, offset))

hello_for-of : (p : Page) → hello_of p ≡ hello_for p.cols p.rows p.session_id p.stream.offset
hello_for-of p = by_session p.session_id
  where
    by_session :
        (o : Option Bytes)
        → sends_hello p.cols p.rows (elim o [ none ↦ none | some id ↦ some (id, p.stream.offset) ])
          ≡ hello_for p.cols p.rows o p.stream.offset
    by_session none = refl
    by_session (some id) = refl

reloaded_hello :
    (cols rows : ℕ) (stored : Option Bytes)
    → hello_of (connect cols rows none (load stored)).0 ≡ hello_for cols rows stored 0
unfolding connect open_socket
reloaded_hello cols rows none = refl
reloaded_hello cols rows (some id) = refl

-- Whatever has happened to a page, when its socket opens it says hello: for the session of the last
-- welcome, if there was one, from the offset at which all the messages since have left its stream. When
-- the page is loaded again in the same browser instead, it says hello from offset 0 for the session
-- that the browser remembers, which is that of the last welcome unless an exit came after it.
pub hello_tells :
    (jitter : ℕ → ℕ) (es : List (ℕ × Event)) (now cols rows : ℕ) (p : Page)
    → let q = (happens_all jitter es p).0 in
      let reloaded = (connect cols rows none (load q.stored)).0 in
      ((happens jitter now opened q).1
        ≡ hello_for q.cols q.rows
            (welcomed p.session_id es)
            (handle_all p.stream (messages es)).offset
          ∷ [])
      × ((happens jitter now opened reloaded).1
          ≡ hello_for cols rows (remembered p.stored es) 0 ∷ [])
unfolding happens on_open
hello_tells jitter es now cols rows p =
    let q = (happens_all jitter es p).0 in
    let (session, stored, stream) = happens_all_lem jitter es p in
    (
      ap (λ h. h ∷ [])
          (hello_for-of q
            ∙ ap₂ (hello_for q.cols q.rows) session (ap (λ (c : Client). c.offset) stream)),
      ap (λ h. h ∷ [])
          (reloaded_hello cols rows q.stored ∙ ap (λ k. hello_for cols rows k 0) stored),
    )

-- What is typed arrives: DecodeInput reads the frame that the page sends.
decode_input-encode_input : (bytes : Bytes) → decode_input (encode_input bytes) ≡ ok bytes
unfolding decode_input encode_input
decode_input-encode_input bytes = refl
