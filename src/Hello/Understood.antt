-- ===== src/Hello/Understood.antt =====
-- What the browser makes of the answer to a hello, message by message.
use web_terminal.Prelude.{
  ℕ, ◌^◌, ◌≤◌, ◌≡◌, ◌≢◌, refl, sym, Bool, true, false, ◌||◌, Option, none, some, [], ◌∷◌, Bytes,
  drop, All, arith, subst,
}
use web_terminal.Prelude.Int.{ℤ, pos, negsuc}
use web_terminal.Prelude.Text.{codes, str_eq}
use web_terminal.Client.{frame, decode_output}
use web_terminal.Client.Frames.{decode_output-encode_output}
use web_terminal.Replay.{ReplayBuffer, slice_from}
use web_terminal.Replay.Slice.{retained_from, slice_from_lem}
use web_terminal.Store.Buffers.{IsStored}
use web_terminal.Hello.{Message, control, binary, welcome, output_message, repainted, replay}
use web_terminal.Hello.Answer.{repainted_lem}

-- The types that the switch of #handleControl has.
abbrev pub is_handled : Bytes → Bool
is_handled t =
    str_eq t (codes "welcome")
    || str_eq t (codes "reset")
    || str_eq t (codes "pong")
    || str_eq t (codes "exit")
    || str_eq t (codes "error")

-- The types of which it reads the offset.
abbrev pub has_offset : Bytes → Bool
has_offset t = str_eq t (codes "welcome") || str_eq t (codes "reset")

-- A message that the browser can use: a control message of a type that it handles, with an offset that
-- is exact in JavaScript if it reads one, or a frame that decodes to a payload.
abbrev pub IsUnderstood : Message → Type 0
IsUnderstood (control m) =
    (is_handled m.t ≡ true)
    × (has_offset m.t ≡ true → (n : ℕ) × (m.offset ≡ some (pos n)) × (n ≤ 2 ^ 53))
IsUnderstood (binary bytes) =
    (n : ℕ) × (payload : Bytes) × (decode_output bytes ≡ frame n payload)
    × (payload ≢ [])
    × (n ≤ 2 ^ 53)

output_message-IsUnderstood :
    (n : ℕ) (bytes : Bytes) → n ≤ 2 ^ 53 → All IsUnderstood (output_message (pos n) bytes)
output_message-IsUnderstood n [] small = tt
output_message-IsUnderstood n (x ∷ xs) small =
    ((n, x ∷ xs, decode_output-encode_output n (x ∷ xs) small, (λ e. cc), small), tt)

welcome-IsUnderstood : (id : Bytes) (n : ℕ) → n ≤ 2 ^ 53 → IsUnderstood (welcome id (pos n))
welcome-IsUnderstood id n small = (refl, λ e. (n, refl, small))

module _ (b : ReplayBuffer) (v : IsStored b) (id : Bytes) where
  repainted-IsUnderstood : All IsUnderstood (repainted id b)
  repainted-IsUnderstood =
      let (o, le, _, e) = repainted_lem b v.output v.holds v.small id in
      let small : o ≤ 2 ^ 53 = let most = v.small in omega arith in
      subst (All IsUnderstood) (sym e) (
        welcome-IsUnderstood id o small,
        ((refl, λ e. (o, refl, small)), output_message-IsUnderstood o (drop o v.output) small),
      )

  sliced :
      (o : ℤ) (bytes : Bytes) → slice_from b o ≡ some bytes → (n : ℕ) × (o ≡ pos n) × (n ≤ 2 ^ 53)
  unfolding retained_from
  sliced (pos n) bytes e =
      (n, refl, ground (arith, slice_from_lem b v.output v.holds (pos n), v.small))
  sliced (negsuc n) bytes e = absurd (ground (arith, slice_from_lem b v.output v.holds (negsuc n)))

  pub replay-IsUnderstood :
      (existing : Bool) (last_offset : Option ℤ)
      → All IsUnderstood (replay existing last_offset id b)
  unfolding replay
  replay-IsUnderstood false last_offset = repainted-IsUnderstood
  replay-IsUnderstood true none = repainted-IsUnderstood
  replay-IsUnderstood true (some o) = by_slice (slice_from b o) refl
    where
      by_slice :
          (found : Option Bytes)
          → slice_from b o ≡ found
          → All IsUnderstood (elim found [
            | some bytes ↦ welcome id o ∷ output_message o bytes
            | none ↦ repainted id b
          ])
      by_slice none e = repainted-IsUnderstood
      by_slice (some bytes) e =
          let (n, same, small) = sliced o bytes e in
          subst (λ z. All IsUnderstood (welcome id z ∷ output_message z bytes)) (sym same)
            (welcome-IsUnderstood id n small, output_message-IsUnderstood n bytes small)
