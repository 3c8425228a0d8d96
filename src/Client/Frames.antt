-- ===== src/Client/Frames.antt =====
-- The frames of the server as the browser reads them.
use web_terminal.Prelude.{
  if◌then◌else◌, max, lt→ltb, not_lt→ltb, le→leb, lt→not_leb, drop-append_self, ℕ, ◌+◌, ◌-◌, ◌/◌,
  ◌%◌, ◌^◌, ◌≤◌, ◌<◌, ◌≡◌, ◌∙◌, sym, ap, ◌++◌, Bytes, arith, length, drop, ltb, append_assoc,
  length-append, length-drop, drop-append, drop-drop, dec_lt,
}
use web_terminal.Prelude.Int.{pos}
use web_terminal.Protocol.{encode_output}
use web_terminal.Client.{Client, frame, get_uint64, to_number, decode_output, accept_frame}

get-put :
    (n : ℕ)
    → n < 2 ^ 64
    → get_uint64
        (n / 2 ^ 56 % 256)
        (n / 2 ^ 48 % 256)
        (n / 2 ^ 40 % 256)
        (n / 2 ^ 32 % 256)
        (n / 2 ^ 24 % 256)
        (n / 2 ^ 16 % 256)
        (n / 2 ^ 8 % 256)
        (n % 256)
      ≡ n
get-put n h = omega arith

to_number-exact : (n : ℕ) → n ≤ 2 ^ 53 → to_number n ≡ n
unfolding to_number
to_number-exact n h = ground arith

-- The browser reads from a frame of the server the offset and the payload that went in, for offsets
-- up to 2 ^ 53, where a JavaScript number is exact.
pub decode_output-encode_output :
    (o : ℕ) (payload : Bytes)
    → o ≤ 2 ^ 53
    → decode_output (encode_output (pos o) payload) ≡ frame o payload
unfolding decode_output encode_output
decode_output-encode_output o payload h =
    ap (λ k. frame (to_number k) payload) (get-put (o % 2 ^ 64) (omega arith))
    ∙ ap (λ k. frame k payload) (ap to_number small ∙ to_number-exact o h)
  where
    small : o % 2 ^ 64 ≡ o
    small = omega arith

-- A client that has shown the bytes of the stream `h` from `base` to its offset.
pub record Synced (base : ℕ) (h : Bytes) (c : Client) : Type 0 where
  pub shows : c.shown ++ drop c.offset h ≡ drop base h
  pub counts : base + length c.shown ≡ c.offset
  pub within : c.offset ≤ length h

-- The payload stands in the stream at `at`.
pub record IsSlice (h : Bytes) (at : ℕ) (payload : Bytes) : Type 0 where
  pub rest : Bytes
  pub cut : drop at h ≡ payload ++ rest
  pub start : at ≤ length h

slice_end :
    (h : Bytes) (at : ℕ) (payload : Bytes) (s : IsSlice h at payload)
    → length h ≡ at + length payload + length s.rest
slice_end h at payload s =
    let begins = s.start in
    omega (arith, ap length s.cut, length-append payload s.rest, length-drop at h)

slice_after :
    (h : Bytes) (at : ℕ) (payload : Bytes) (s : IsSlice h at payload) (n : ℕ)
    → at ≤ n
    → drop n h ≡ drop (n - at) payload ++ drop (n - at - length payload) s.rest
slice_after h at payload s n le =
    ap (λ k. drop k h) (split at n le)
    ∙ sym (drop-drop (n - at) at h)
    ∙ ap (drop (n - at)) s.cut
    ∙ drop-append (n - at) payload s.rest
  where
    split : (a b : ℕ) → a ≤ b → b ≡ a + (b - a)
    split a b l = omega arith

-- What is new in a frame that reaches past the offset, and what the stream has after it.
fresh-Synced :
    (base : ℕ) (h : Bytes) (c : Client) (at : ℕ) (payload : Bytes)
    → Synced base h c
    → IsSlice h at payload
    → at ≤ c.offset
    → c.offset - at < length payload
    → Synced base h (record {
      offset = c.offset + length (drop (c.offset - at) payload);
      shown = c.shown ++ drop (c.offset - at) payload;
    })
fresh-Synced base h c at payload v s le more = record {
  shows =
      append_assoc c.shown fresh (drop (c.offset + length fresh) h)
      ∙ ap (◌++◌ c.shown) joined
      ∙ v.shows;
  counts = let old = v.counts in omega (arith, length-append c.shown fresh);
  within = omega (arith, slice_end h at payload s, length-drop (c.offset - at) payload);
}
  where
    fresh : Bytes
    fresh = drop (c.offset - at) payload

    after : drop c.offset h ≡ fresh ++ s.rest
    after =
        slice_after h at payload s c.offset le
        ∙ ap (λ n. fresh ++ drop n s.rest) (none_left (c.offset - at) (length payload) more)
      where
        none_left : (a b : ℕ) → a < b → a - b ≡ 0
        none_left a b l = omega arith

    joined : fresh ++ drop (c.offset + length fresh) h ≡ drop c.offset h
    joined =
        ap (◌++◌ fresh) (
          sym (drop-drop (length fresh) c.offset h)
          ∙ ap (drop (length fresh)) after
          ∙ drop-append_self fresh s.rest)
        ∙ sym after

-- A frame of the stream, wherever it begins, leaves a client in step with the stream in step with it
-- from the same base: nothing is shown twice, nothing is skipped and nothing is made up.
pub accept_frame-Synced :
    (base : ℕ) (h : Bytes) (c : Client) (at : ℕ) (payload : Bytes)
    → Synced base h c
    → IsSlice h at payload
    → Synced base h (accept_frame c at payload)
unfolding accept_frame
accept_frame-Synced base h c at payload v s = elim (dec_lt c.offset at) [
  | yes gap ↦ rw (lt→ltb c.offset at gap) v
  | no reach ↦ elim (dec_lt (c.offset - at) (length payload)) [
    | yes more ↦
        rw (not_lt→ltb c.offset at (omega arith), lt→not_leb (c.offset - at) (length payload) more)
          (fresh-Synced base h c at payload v s (omega arith) more)
    | no old ↦
        rw
          (
            not_lt→ltb c.offset at (omega arith),
            le→leb (length payload) (c.offset - at) (omega arith),
          )
          v
  ]
]

-- How far a frame takes the client: not at all past a gap, else to its end.
pub offset-accept_frame :
    (c : Client) (at : ℕ) (payload : Bytes)
    → (accept_frame c at payload).offset
      ≡ (if ltb c.offset at then c.offset else max c.offset (at + length payload))
unfolding accept_frame
offset-accept_frame c at payload = ground (arith, length-drop (c.offset - at) payload)
