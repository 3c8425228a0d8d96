-- ===== src/Protocol/Control.antt =====
-- What ParseClientControl accepts.
use web_terminal.Prelude.{
  ◌≡◌, ◌≢◌, ◌↔◌, inl, inr, Option, some, Bytes, arith, Bool-cases, Option-cases, ap,
}
use web_terminal.Prelude.Int.{ℤ, pos, negsuc, ◌≤ℤ◌, to_u16}
use web_terminal.Prelude.Text.{codes, str_eq, str_eq→≡}
use web_terminal.Protocol.{
  ClientControl, ok, min_cols, max_cols, min_rows, max_rows, validate, check_dimensions,
  parse_client_control,
}

-- The dimensions are those of a terminal.
pub record InRange (c : ClientControl) : Type 0 where
  pub cols_low : pos min_cols ≤ℤ c.cols
  pub cols_high : c.cols ≤ℤ pos max_cols
  pub rows_low : pos min_rows ≤ℤ c.rows
  pub rows_high : c.rows ≤ℤ pos max_rows

-- A message that the server handles.
pub data IsHandled (c : ClientControl) : Type 0 where
  hello : c.t ≡ codes "hello" → InRange c → IsHandled c
  resize : c.t ≡ codes "resize" → InRange c → IsHandled c
  ping : c.t ≡ codes "ping" → IsHandled c

check_dimensions_ok : (c d : ClientControl) → check_dimensions c ≡ ok d → (d ≡ c) × InRange c
unfolding check_dimensions
check_dimensions_ok c d e = ground arith

check_dimensions-InRange : (c : ClientControl) → InRange c → check_dimensions c ≡ ok c
unfolding check_dimensions
check_dimensions-InRange c v = ground arith

validate_ok : (c d : ClientControl) → validate c ≡ ok d → (d ≡ c) × IsHandled c
unfolding validate
validate_ok c d e = elim (Bool-cases (str_eq c.t (codes "hello"))) [
  | inl h ↦
      let (same, r) = check_dimensions_ok c d (rw h at e) in
      (same, hello (str_eq→≡ c.t (codes "hello") h) r)
  | inr not_hello ↦ elim (Bool-cases (str_eq c.t (codes "resize"))) [
    | inl h ↦
        let (same, r) = check_dimensions_ok c d (rw (not_hello, h) at e) in
        (same, resize (str_eq→≡ c.t (codes "resize") h) r)
    | inr not_resize ↦ elim (Bool-cases (str_eq c.t (codes "ping"))) [
      | inl h ↦ (ground arith, ping (str_eq→≡ c.t (codes "ping") h))
      | inr not_ping ↦ absurd (ground arith)
    ]
  ]
]

validate-IsHandled : (c : ClientControl) → IsHandled c → validate c ≡ ok c
unfolding validate
validate-IsHandled c (hello e r) = simp e (check_dimensions-InRange c r)
validate-IsHandled c (resize e r) = simp e (check_dimensions-InRange c r)
validate-IsHandled c (ping e) = simp e

InRange-u16 :
    (c : ClientControl)
    → InRange c
    → (c.cols ≡ pos (to_u16 c.cols)) × (c.rows ≡ pos (to_u16 c.rows))
InRange-u16 c r =
    (small c.cols (weaken c.cols r.cols_low) r.cols_high, small c.rows r.rows_low r.rows_high)
  where
    weaken : (z : ℤ) → pos min_cols ≤ℤ z → pos 1 ≤ℤ z
    weaken z l = omega arith

    small : (z : ℤ) → pos 1 ≤ℤ z → z ≤ℤ pos 1000 → z ≡ pos (to_u16 z)
    small (pos n) l h = ap pos (omega arith)
    small (negsuc n) l h = absurd (omega arith)

module _ (unmarshal : Bytes → Option ClientControl) where
  -- ParseClientControl returns a message exactly when the text decodes to it and it is a "hello" or
  -- a "resize" with dimensions in range, or a "ping"; all else is an error.
  pub parse_client_control-ok :
      (raw : Bytes) (c : ClientControl)
      → (parse_client_control unmarshal raw ≡ ok c) ↔ ((unmarshal raw ≡ some c) × IsHandled c)
  unfolding parse_client_control
  parse_client_control-ok raw c = (there, back)
    where
      there : parse_client_control unmarshal raw ≡ ok c → (unmarshal raw ≡ some c) × IsHandled c
      there e = elim (Option-cases (unmarshal raw)) [
        | inl n ↦ absurd (ground arith)
        | inr (d, m) ↦
            let (same, v) = validate_ok d c (rw (m, parse_client_control) at e) in
            (rw same m, rw same v)
      ]

      back : (unmarshal raw ≡ some c) × IsHandled c → parse_client_control unmarshal raw ≡ ok c
      back (m, v) = rw (m, parse_client_control) (validate-IsHandled c v)

  -- A dimension of an accepted "hello" or "resize" passes through the conversion to uint16 unchanged.
  dimensions_survive :
      (raw : Bytes) (c : ClientControl)
      → parse_client_control unmarshal raw ≡ ok c
      → c.t ≢ codes "ping"
      → (c.cols ≡ pos (to_u16 c.cols)) × (c.rows ≡ pos (to_u16 c.rows))
  dimensions_survive raw c e other = survive ((parse_client_control-ok raw c).0 e).1
    where
      survive : IsHandled c → (c.cols ≡ pos (to_u16 c.cols)) × (c.rows ≡ pos (to_u16 c.rows))
      survive (hello t r) = InRange-u16 c r
      survive (resize t r) = InRange-u16 c r
      survive (ping t) = absurd (other t)
