-- ===== src/Connection/Readings.antt =====
-- What a connection reads, by what the loop makes of it.
use web_terminal.Prelude.{
  ℕ, ◌≡◌, refl, inl, inr, ◌⊎◌, Bool, true, false, not, ◌&&◌, ◌||◌, Option, none, some, [], ◌∷◌,
  Bytes, arith, ◌==◌, if◌then◌else◌, Bool-cases,
}
use web_terminal.Prelude.Int.{ℤ, pos, leb_ℤ}
use web_terminal.Prelude.Text.{codes, str_eq}
use web_terminal.Protocol.{
  ClientControl, Error, unknown_opcode, ok, err, decode_input, validate, check_dimensions,
}
use web_terminal.Connection.{
  Incoming, text, binary_frame, read_fails, CloseStatus, policy_violation, normal_closure,
}

-- A dimension between its bounds.
abbrev pub between : ℕ → ℕ → ℤ → Bool
between low high z = leb_ℤ (pos low) z && leb_ℤ z (pos high)

-- A control message that the server handles.
abbrev pub handled : ClientControl → Bool
handled c =
    if str_eq c.t (codes "hello") || str_eq c.t (codes "resize")
    then between 2 1000 c.cols && between 1 1000 c.rows
    else str_eq c.t (codes "ping")

abbrev pub first_of : Option CloseStatus → Option CloseStatus → Option CloseStatus
first_of none next = next
first_of (some status) next = some status

pub validate_cases :
    (c : ClientControl)
    → ((handled c ≡ true) × (validate c ≡ ok c))
      ⊎ ((handled c ≡ false) × (e : Error) × (validate c ≡ err e))
unfolding validate check_dimensions
validate_cases c = ground arith

-- A binary message that is no input.
abbrev pub no_input : Bytes → Bool
no_input [] = true
no_input (op ∷ payload) = not (op == 2)

pub decode_cases :
    (bytes : Bytes)
    → ((no_input bytes ≡ false) × (payload : Bytes) × (decode_input bytes ≡ ok payload))
      ⊎ ((no_input bytes ≡ true) × (e : Error) × (decode_input bytes ≡ err e))
unfolding decode_input
decode_cases [] = inr (refl, _, refl)
decode_cases (op ∷ payload) = elim (Bool-cases (op == 2)) [
  | inl input ↦ inl (rw input refl, payload, rw input refl)
  | inr other ↦ inr (rw other refl, unknown_opcode op, rw other refl)
]

pub first_of_nothing : (o : Option CloseStatus) → first_of o none ≡ o
first_of_nothing none = refl
first_of_nothing (some status) = refl

-- A decoded text that is none that the server handles.
abbrev pub bad_of : Option ClientControl → Bool
bad_of none = true
bad_of (some c) = not (handled c)

abbrev pub names_hello : Option ClientControl → Bool
names_hello none = false
names_hello (some c) = str_eq c.t (codes "hello")

abbrev pub refusal : Bool → Option CloseStatus
refusal bad = if bad then some policy_violation else none

module _ (unmarshal : Bytes → Option ClientControl) where
  -- A text message that is no control message, or none that the server handles.
  abbrev pub unreadable : Bytes → Bool
  unreadable raw = bad_of (unmarshal raw)

  abbrev pub ends : Incoming → Bool
  ends (text raw) = unreadable raw
  ends (binary_frame bytes) = no_input bytes
  ends (read_fails clean) = true

  abbrev pub greets : Incoming → Bool
  greets (text raw) = names_hello (unmarshal raw)
  greets (binary_frame bytes) = false
  greets (read_fails clean) = false

  -- The status with which a message has the server close the connection.
  abbrev pub reason : Incoming → Option CloseStatus
  reason (text raw) = refusal (unreadable raw)
  reason (binary_frame bytes) = refusal (no_input bytes)
  reason (read_fails clean) = some normal_closure

  pub reason-ends :
      (m : Incoming) → ends m ≡ true → (status : CloseStatus) × (reason m ≡ some status)
  reason-ends (text raw) e = (policy_violation, rw e refl)
  reason-ends (binary_frame bytes) e = (policy_violation, rw e refl)
  reason-ends (read_fails clean) e = (normal_closure, refl)
