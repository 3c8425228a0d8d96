-- ===== src/Connection/Rounds.antt =====
-- A round of the loop of a connection, by what is read: whether the loop ends, and with which status.
use web_terminal.Prelude.{
  ℕ, ◌≡◌, sym, ◌∙◌, inl, inr, Bool, true, false, Option, none, some, List, Bytes, arith,
}
use web_terminal.Prelude.Text.{codes, str_eq}
use web_terminal.Protocol.{
  ClientControl, Error, malformed_control, Result, ok, err, parse_client_control, decode_input,
  validate,
}
use web_terminal.Pty.{Options}
use web_terminal.Session.{Session, write}
use web_terminal.Connection.{
  Serve, Incoming, text, binary_frame, read_fails, CloseStatus, policy_violation, normal_closure,
  try_again_later, close_with, on_current, cleanup, returns, send, refuses, on_error, serve_control,
  serve_one,
}
use web_terminal.Connection.Readings.{
  first_of, validate_cases, no_input, decode_cases, first_of_nothing, bad_of, names_hello, refusal,
  ends, greets, reason,
}

on_current-keeps :
    (f : Session → Session) (v : Serve)
    → let w = on_current f v in
      (w.cleaned ≡ v.cleaned) × (w.done ≡ v.done) × (w.closed ≡ v.closed) × (w.conn ≡ v.conn)
unfolding on_current
on_current-keeps f v = ground arith

-- The end of the loop, on a connection that may be closed and cleaned up already.
refuses-ends :
    (now : ℕ) (message : Bytes) (v : Serve)
    → let w = refuses now message v in
      (w.done ≡ true) × (w.closed ≡ first_of v.closed (some policy_violation))
unfolding refuses returns cleanup close_with send
refuses-ends now message v = ground arith

returns-ends :
    (now : ℕ) (clean : Bool) (v : Serve)
    → let w = returns now clean v in
      (w.done ≡ true) × (w.closed ≡ first_of v.closed (some normal_closure))
unfolding returns cleanup close_with
returns-ends now clean v = ground arith

-- What cleanup has done stays done.
abbrev pub Blank : Serve → Type 0
Blank v = (v.cleaned ≡ true) × (v.conn.current ≡ none)

returns-Blank :
    (now : ℕ) (clean : Bool) (v : Serve)
    → (v.cleaned ≡ true → v.conn.current ≡ none)
    → Blank (returns now clean v)
unfolding returns cleanup close_with
returns-Blank now clean v blank = ground arith

refuses-Blank :
    (now : ℕ) (message : Bytes) (v : Serve)
    → (v.cleaned ≡ true → v.conn.current ≡ none)
    → Blank (refuses now message v)
unfolding refuses send close_with
refuses-Blank now message v blank = returns-Blank now false _ blank

pub on_error-Blank :
    (now : ℕ) (id : Bytes) (n : ℕ) (v : Serve)
    → (v.cleaned ≡ true → v.conn.current ≡ none)
    → Blank (on_error now id n v)
unfolding on_error cleanup close_with
on_error-Blank now id n v blank = ground arith

pub on_error-fails :
    (now : ℕ) (id : Bytes) (n : ℕ) (v : Serve)
    → let w = on_error now id n v in
      (w.done ≡ v.done) × (w.closed ≡ first_of v.closed (some try_again_later))
unfolding on_error cleanup close_with
on_error-fails now id n v = ground arith

-- What a read does to the end of the loop, by what the message is.
pub record Round (ends greets : Bool) (reason : Option CloseStatus) (v w : Serve) : Type 0 where
  pub done : w.done ≡ ends
  pub closed : w.closed ≡ first_of v.closed reason
  pub blanks : ends ≡ true → (v.cleaned ≡ true → v.conn.current ≡ none) → Blank w
  pub stays : ends ≡ false → (w.cleaned ≡ v.cleaned) × (greets ≡ false → w.conn ≡ v.conn)

pub contrary : true ≡ false → ⊥
contrary e = cc

refuses-Round :
    (now : ℕ) (message : Bytes) (v : Serve) (greets : Bool)
    → Round true greets (some policy_violation) v (refuses now message v)
refuses-Round now message v greets =
    let (done, closed) = refuses-ends now message v in
    record {
      done = done;
      closed = closed;
      blanks = λ e blank. refuses-Blank now message v blank;
      stays = λ e. absurd (contrary e);
    }

returns-Round :
    (now : ℕ) (clean : Bool) (v : Serve)
    → Round true false (some normal_closure) v (returns now clean v)
returns-Round now clean v =
    let (done, closed) = returns-ends now clean v in
    record {
      done = done;
      closed = closed;
      blanks = λ e blank. returns-Blank now clean v blank;
      stays = λ e. absurd (contrary e);
    }

-- A round that goes on.
goes_on-Round :
    (greets : Bool) (v w : Serve)
    → v.done ≡ false
    → (w.cleaned ≡ v.cleaned)
      × (w.done ≡ v.done)
      × (w.closed ≡ v.closed)
      × (greets ≡ false → w.conn ≡ v.conn)
    → Round false greets none v w
goes_on-Round greets v w on (cleaned, done, closed, conn) = record {
  done = done ∙ on;
  closed = closed ∙ sym (first_of_nothing v.closed);
  blanks = λ e. absurd (contrary (sym e));
  stays = λ e. (cleaned, conn);
}

module _ (spawn : Options → Option ℕ) (env default_command : List Bytes)
    (unmarshal : Bytes → Option ClientControl) (show : Error → Bytes) where
  serve_control-Round :
      (now : ℕ) (id : Bytes) (c : ClientControl) (v : Serve)
      → v.done ≡ false
      → Round false
          (str_eq c.t (codes "hello"))
          none
          v
          (serve_control spawn env default_command unmarshal show now id c v)
  unfolding serve_control on_current send
  serve_control-Round now id c v on = goes_on-Round _ v _ on (ground arith)

  pub serve_one-Round :
      (now : ℕ) (id : Bytes) (m : Incoming) (v : Serve)
      → v.done ≡ false
      → Round
          (ends unmarshal m)
          (greets unmarshal m)
          (reason unmarshal m)
          v
          (serve_one spawn env default_command unmarshal show now id m v)
  unfolding serve_one parse_client_control
  serve_one-Round now id (text raw) v on = by_decoded (unmarshal raw)
    where
      answered : Result ClientControl → Serve
      answered (err e) = refuses now (show e) v
      answered (ok c) = serve_control spawn env default_command unmarshal show now id c v

      validated : Option ClientControl → Result ClientControl
      validated none = err malformed_control
      validated (some c) = validate c

      by_decoded :
          (o : Option ClientControl)
          → Round (bad_of o) (names_hello o) (refusal (bad_of o)) v (answered (validated o))
      by_decoded none = refuses-Round now _ v false
      by_decoded (some c) = elim (validate_cases c) [
        | inl (good, e) ↦ simp (good, e) (serve_control-Round now id c v on)
        | inr (bad, x, e) ↦ simp (bad, e) (refuses-Round now (show x) v _)
      ]
  serve_one-Round now id (binary_frame bytes) v on = by_input
    where
      took : Result Bytes → Serve
      took (err e) = refuses now (show e) v
      took (ok payload) = on_current (λ s. write s payload) v

      taken : (payload : Bytes) → Round false false none v (on_current (λ s. write s payload) v)
      taken payload =
          let (cleaned, done, closed, conn) = on_current-keeps (λ s. write s payload) v in
          goes_on-Round false v (on_current (λ s. write s payload) v) on
            (cleaned, done, closed, λ k. conn)

      by_input :
          Round (no_input bytes) false (refusal (no_input bytes)) v (took (decode_input bytes))
      by_input = elim (decode_cases bytes) [
        | inl (input, payload, e) ↦ simp (input, e) (taken payload)
        | inr (other, x, e) ↦ simp (other, e) (refuses-Round now (show x) v false)
      ]
  serve_one-Round now id (read_fails clean) v on = returns-Round now clean v
