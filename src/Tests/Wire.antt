-- ===== src/Tests/Wire.antt =====
-- Frames and control messages.
use web_terminal.Prelude.{◌≡◌, ◌↔◌, refl, Option, some, none, [], ◌∷◌, Bytes, arith, Bool}
use web_terminal.Prelude.Int.{pos}
use web_terminal.Prelude.Text.{codes}
use web_terminal.Protocol.{
  ClientControl, ok, err, unknown_opcode, parse_client_control, validate, check_dimensions,
  encode_output, decode_input,
}
use web_terminal.Protocol.Control.{IsHandled, parse_client_control-ok}
use web_terminal.Client.{frame, decode_output}
use web_terminal.Client.Frames.{decode_output-encode_output}
use web_terminal.Pty.{Options, Handle, start, closing, killing, calls, first_call_counts}

abbrev resize_message : ClientControl
resize_message = record {
  t = codes "resize";
  session_id = [];
  last_offset = none;
  cols = pos 80;
  rows = pos 24;
}

-- A decoder that knows one text.
abbrev unmarshal : Bytes → Option ClientControl
unmarshal [] = none
unmarshal (c ∷ cs) = some resize_message

wrong_opcode : decode_input (3 ∷ []) ≡ err (unknown_opcode 3)
unfolding decode_input
wrong_opcode = refl

accepted : parse_client_control unmarshal (1 ∷ []) ≡ ok resize_message
unfolding parse_client_control validate check_dimensions
accepted = refl

parse_client_control-ok_example :
    (parse_client_control unmarshal (1 ∷ []) ≡ ok resize_message)
    ↔ ((unmarshal (1 ∷ []) ≡ some resize_message) × IsHandled resize_message)
parse_client_control-ok_example = parse_client_control-ok unmarshal (1 ∷ []) resize_message

decode_output-encode_output_example :
    decode_output (encode_output (pos 300) (65 ∷ [])) ≡ frame 300 (65 ∷ [])
decode_output-encode_output_example = decode_output-encode_output 300 (65 ∷ []) (omega arith)

abbrev shell : Options
shell = record { command = codes "/bin/sh" ∷ []; cols = 80; rows = 24; cwd = []; env = [] }

abbrev process : Handle
process = record { pid = 42; closed = Bool.false; closes = 0; kills = 0 }

first_call_counts_example :
    ((calls process (killing ∷ closing ∷ [])).closed ≡ Bool.true)
    × ((calls process (killing ∷ closing ∷ [])).closes ≡ 1)
    × ((calls process (killing ∷ closing ∷ [])).kills ≡ 1)
unfolding start
first_call_counts_example =
    first_call_counts (λ o. some 42) shell process (killing ∷ closing ∷ []) refl
