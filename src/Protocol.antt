-- ===== src/Protocol.antt =====
-- internal/protocol/protocol.go: the wire format. A frame is a list of bytes; a control message is
-- the record that encoding/json reads into or writes from.
pub mod Control
use web_terminal.Prelude.{
  ℕ, suc, ◌+◌, ◌/◌, ◌%◌, ◌^◌, Bool, true, false, ◌||◌, Option, none, some, List, [], ◌∷◌, ◌++◌,
  Bytes, ◌==◌, if◌then◌else◌,
}
use web_terminal.Prelude.Int.{ℤ, pos, to_u64, ltb_ℤ}
use web_terminal.Prelude.Text.{codes, str_eq}

abbrev pub op_output : ℕ
op_output = 0x01

abbrev pub op_input : ℕ
op_input = 0x02

abbrev pub min_cols : ℕ
min_cols = 2

abbrev pub max_cols : ℕ
max_cols = 1000

abbrev pub min_rows : ℕ
min_rows = 1

abbrev pub max_rows : ℕ
max_rows = 1000

pub record ClientControl : Type 0 where
  pub t : Bytes
  pub session_id : Bytes
  pub last_offset : Option ℤ
  pub cols : ℤ
  pub rows : ℤ

pub record ServerControl : Type 0 where
  pub t : Bytes
  pub session_id : Bytes
  pub offset : Option ℤ
  pub code : Option ℤ
  pub message : Bytes

-- The errors of the package, one constructor for each format string.
pub data Error : Type 0 where
  empty_frame : Error
  unknown_opcode : ℕ → Error
  malformed_control : Error
  cols_out_of_range : Bytes → ℤ → Error
  rows_out_of_range : Bytes → ℤ → Error
  unknown_control_type : Bytes → Error

pub data Result {ℓ} (A : Type ℓ) : Type ℓ where
  ok : A → Result A
  err : Error → Result A

-- binary.BigEndian.PutUint64
abbrev pub put_uint64 : ℕ → Bytes
put_uint64 v =
    v / 2 ^ 56 % 256
    ∷ v / 2 ^ 48 % 256
    ∷ v / 2 ^ 40 % 256
    ∷ v / 2 ^ 32 % 256
    ∷ v / 2 ^ 24 % 256
    ∷ v / 2 ^ 16 % 256
    ∷ v / 2 ^ 8 % 256
    ∷ v % 256
    ∷ []

unfoldable pub encode_output : ℤ → Bytes → Bytes
encode_output offset payload = op_output ∷ (put_uint64 (to_u64 offset) ++ payload)

unfoldable pub decode_input : Bytes → Result Bytes
decode_input [] = err empty_frame
decode_input (op ∷ payload) = if op == op_input then ok payload else err (unknown_opcode op)

-- The range checks of a "hello" or a "resize" message.
unfoldable pub check_dimensions : ClientControl → Result ClientControl
check_dimensions c =
    if ltb_ℤ c.cols (pos min_cols) || ltb_ℤ (pos max_cols) c.cols
    then err (cols_out_of_range c.t c.cols)
    else if ltb_ℤ c.rows (pos min_rows) || ltb_ℤ (pos max_rows) c.rows
    then err (rows_out_of_range c.t c.rows)
    else ok c

-- The checks of ParseClientControl on a decoded message.
unfoldable pub validate : ClientControl → Result ClientControl
validate c =
    if str_eq c.t (codes "hello")
    then check_dimensions c
    else if str_eq c.t (codes "resize")
    then check_dimensions c
    else if str_eq c.t (codes "ping")
    then ok c
    else err (unknown_control_type c.t)

-- ParseClientControl; `unmarshal` is json.Unmarshal into a ClientControl, `none` its error.
module _ (unmarshal : Bytes → Option ClientControl) where
  unfoldable pub parse_client_control : Bytes → Result ClientControl
  parse_client_control raw = elim (unmarshal raw) [
    | none ↦ err malformed_control
    | some c ↦ validate c
  ]
