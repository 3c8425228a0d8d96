-- ===== src/Client.antt =====
-- web/connection.js: how the browser reads the server's messages. It is modelled as the reader of
-- the server's stream: decodeOutput, #handleControl and #handleBinary.
pub mod Frames
use web_terminal.Prelude.{
  ℕ, zero, suc, ◌+◌, ◌-◌, ◌*◌, ◌/◌, ◌%◌, ◌^◌, Bool, ◌&&◌, ◌||◌, Option, none, some, List, [], ◌∷◌,
  ◌++◌, Bytes, length, drop, ltb, leb, ◌==◌, if◌then◌else◌,
}
use web_terminal.Protocol.{op_output}

-- view.getBigUint64 of eight bytes.
abbrev pub get_uint64 : ℕ → ℕ → ℕ → ℕ → ℕ → ℕ → ℕ → ℕ → ℕ
get_uint64 a b c d e f g h =
    a * 2 ^ 56 + b * 2 ^ 48 + c * 2 ^ 40 + d * 2 ^ 32 + e * 2 ^ 24 + f * 2 ^ 16 + g * 2 ^ 8 + h

-- The multiple of `step` nearest to `n`, an even multiple on a tie.
nearest : ℕ → ℕ → ℕ
nearest step n =
    let q = n / step in
    let r = n % step in
    if ltb (2 * r) step || (2 * r == step && q % 2 == 0) then q * step else (q + 1) * step

-- The double nearest to `n`: `fuel` doublings of the spacing at most, 11 for a 64-bit number.
round_number : ℕ → ℕ → ℕ → ℕ
round_number zero step n = nearest step n
round_number (suc fuel) step n =
    let coarser = round_number fuel (2 * step) n in
    if leb n (2 ^ 53 * step) then nearest step n else coarser

-- Number(n)
unfoldable pub to_number : ℕ → ℕ
unfolding nearest round_number
to_number n = round_number 11 1 n

-- What decodeOutput does: it returns null, throws for want of header bytes, or returns a frame.
pub data Decoded : Type 0 where
  null throws : Decoded
  frame : ℕ → Bytes → Decoded

unfoldable decode_header : Bytes → Decoded
decode_header (a ∷ b ∷ c ∷ d ∷ e ∷ f ∷ g ∷ h ∷ payload) =
    frame (to_number (get_uint64 a b c d e f g h)) payload
decode_header _ = throws

unfoldable pub decode_output : Bytes → Decoded
unfolding decode_header
decode_output [] = null
decode_output (op ∷ rest) = if op == op_output then decode_header rest else null

-- The fields of TerminalConnection that the stream touches, and the bytes passed to onOutput since
-- the last reset.
pub record Client : Type 0 where
  pub offset : ℕ
  pub shown : Bytes

-- #handleBinary on a frame.
unfoldable pub accept_frame : Client → ℕ → Bytes → Client
accept_frame c at payload =
    if ltb c.offset at then c else if leb (length payload) (c.offset - at) then c else record {
      offset = c.offset + length (drop (c.offset - at) payload);
      shown = c.shown ++ drop (c.offset - at) payload;
    }

unfoldable handle_decoded : Client → Decoded → Client
handle_decoded c null = c
handle_decoded c throws = c
handle_decoded c (frame at payload) = accept_frame c at payload

unfoldable pub handle_binary : Client → Bytes → Client
unfolding handle_decoded
handle_binary c bytes = handle_decoded c (decode_output bytes)
