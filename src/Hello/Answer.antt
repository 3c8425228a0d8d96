-- ===== src/Hello/Answer.antt =====
-- What a client has after the answer to its hello.
use web_terminal.Prelude.{
  ℕ, ◌+◌, ◌-◌, ◌^◌, ◌≤◌, ◌<◌, ◌≡◌, refl, sym, ap, ◌∙◌, Bool, true, false, ◌⊎◌, inl, inr, Option,
  none, some, [], ◌∷◌, Bytes, length, drop, arith, some_inj, min, get_elem?, get_elem?-none, dec_lt,
  length-drop, drop-drop, append-nil,
}
use web_terminal.Prelude.Int.{ℤ, pos, add64-pos}
use web_terminal.Protocol.{encode_output}
use web_terminal.Client.{Client, handle_binary, accept_frame}
use web_terminal.Client.Frames.{
  Synced, IsSlice, decode_output-encode_output, accept_frame-Synced, offset-accept_frame,
}
use web_terminal.Replay.{ReplayBuffer, slice_from}
use web_terminal.Replay.History.{Holds}
use web_terminal.Replay.Slice.{retained_from, slice_from_lem, tail_lem}
use web_terminal.Snap.Boundary.{snap_tail-IsBoundary, IsBoundary, after_newline, no_newline}
use web_terminal.Session.{reconnect_tail_bytes}
use web_terminal.Hello.{
  binary, welcome, reset, output_message, repainted, replay, handle_control, handle_message,
  handle_all, reconnect_snap_window_bytes,
}

pub handle_binary-encode :
    (c : Client) (o : ℕ) (payload : Bytes)
    → o ≤ 2 ^ 53
    → handle_binary c (encode_output (pos o) payload) ≡ accept_frame c o payload
unfolding handle_binary
handle_binary-encode c o payload h = rw (decode_output-encode_output o payload h)

handle_one : (c : Client) (f : Bytes) → handle_all c (binary f ∷ []) ≡ handle_binary c f
unfolding handle_all handle_message
handle_one c f = refl

-- A client at offset `o` that shows the stream from `base` is sent the rest of the stream `h`.
rest-Synced :
    (base : ℕ) (h : Bytes) (c : Client)
    → Synced base h c
    → length h ≤ 2 ^ 53
    → let c' = handle_all c (output_message (pos c.offset) (drop c.offset h)) in
      Synced base h c' × (c'.offset ≡ length h)
unfolding handle_all
rest-Synced base h c v small = sent (drop c.offset h) refl
  where
    slice : {p : Bytes} → drop c.offset h ≡ p → IsSlice h c.offset p
    slice {p} e = record { rest = []; cut = e ∙ sym (append-nil p); start = v.within }

    reaches : (p : Bytes) → drop c.offset h ≡ p → (accept_frame c c.offset p).offset ≡ length h
    reaches p e =
        ground
          (arith, offset-accept_frame c c.offset p, ap length e, length-drop c.offset h, v.within)

    sent :
        (rest : Bytes)
        → drop c.offset h ≡ rest
        → let c' = handle_all c (output_message (pos c.offset) rest) in
          Synced base h c' × (c'.offset ≡ length h)
    sent [] e = (v, let at_end = v.within in omega (arith, ap length e, length-drop c.offset h))
    sent (x ∷ xs) e =
        rw
          (
            handle_one c _,
            handle_binary-encode c c.offset (x ∷ xs) (let in_range = v.within in omega arith),
          )
          (accept_frame-Synced base h c c.offset (x ∷ xs) v (slice e), reaches (x ∷ xs) e)

-- A client that has nothing on its screen and starts at `o`.
pub start-Synced :
    (h : Bytes) (o : ℕ) → o ≤ length h → Synced o h (record { offset = o; shown = [] })
start-Synced h o le = record { shows = refl; counts = omega arith; within = le }

-- A cut of a tail, wherever the boundary was found.
boundary_cut :
    (bytes : Bytes) (low : ℕ) (out : Bytes × ℕ)
    → IsBoundary bytes low out
    → (j : ℕ) × (j ≤ length bytes) × (out ≡ (drop j bytes, j))
boundary_cut bytes low out (after_newline i v e) = (i + 1, inside (dec_lt i (length bytes)), e)
  where
    inside : Dec (i < length bytes) → i + 1 ≤ length bytes
    inside (yes p) = omega arith
    inside (no p) = absurd (none_there (get_elem?-none bytes i (omega arith)) v.here)
      where
        none_there : get_elem? bytes i ≡ none → get_elem? bytes i ≡ some b'\n' → ⊥
        none_there a b = cc
boundary_cut bytes low out (no_newline n f s e) = (n, s.within, e)

-- The client is not resumed: the session is new, or the client has no last offset, or that offset is
-- not retained.
abbrev pub Repaints : ReplayBuffer → Bytes → Bool → Option ℤ → Type 0
Repaints b h existing last_offset =
    (existing ≡ false)
    ⊎ (last_offset ≡ none)
    ⊎ ((o : ℤ) × (last_offset ≡ some o) × (retained_from b.capacity h o ≡ none))

module _ (b : ReplayBuffer) (h : Bytes) (v : Holds b h) (small : length h ≤ 2 ^ 53)
    (id : Bytes) where
  -- The messages of the repaint, from the place of the cut, which is in the retained range.
  pub repainted_lem :
      (o : ℕ) × (o ≤ length h)
      × (length h - b.capacity ≤ o)
      × (repainted id b ≡ welcome id (pos o) ∷ reset (pos o) ∷ output_message (pos o) (drop o h))
  unfolding repainted
  repainted_lem =
      let (j, le, e) = boundary_cut raw _ _ (
        snap_tail-IsBoundary raw reconnect_snap_window_bytes (omega (arith, length-drop start h))
          (omega arith)) in
      (
        start + j,
        omega (arith, length-drop start h),
        omega arith,
        rw (
          tail_lem b h v reconnect_tail_bytes (omega arith),
          e,
          add64-pos start j (omega (arith, length-drop start h)),
          drop-drop j start h,
        ),
      )
    where
      start : ℕ
      start = length h - min reconnect_tail_bytes b.capacity

      raw : Bytes
      raw = drop start h

  -- After the repaint, whatever the client had: its screen is the output from some offset on up to
  -- the end, and its offset is the end.
  after_repaint :
      (c : Client)
      → let c' = handle_all c (repainted id b) in
        (base : ℕ) × Synced base h c' × (c'.offset ≡ length h)
  unfolding handle_all handle_message handle_control
  after_repaint c =
      let (o, le, _, e) = repainted_lem in
      let (p, q) =
        rest-Synced o h (record { offset = o; shown = [] }) (start-Synced h o le) small in
      rw e (o, p, q)

  pub replay-repainted :
      (existing : Bool) (last_offset : Option ℤ)
      → Repaints b h existing last_offset
      → replay existing last_offset id b ≡ repainted id b
  unfolding replay
  replay-repainted false last_offset r = refl
  replay-repainted true none r = refl
  replay-repainted true (some o) (inl e) = cc
  replay-repainted true (some o) (inr (inl e)) = cc
  replay-repainted true (some o) (inr (inr (o', e, gone))) = rw (missing, replay)
    where
      missing : slice_from b o ≡ none
      missing = slice_from_lem b h v o ∙ rw (some_inj e) gone

  -- The buffer holds the last bytes of an output of at most 2 ^ 53 bytes. A hello that cannot be
  -- resumed repaints: whatever the client had, the messages leave it with the output from some offset
  -- on, up to the end, and with the end as its offset.
  pub repaint_synchronises :
      (existing : Bool) (last_offset : Option ℤ) (c : Client)
      → Repaints b h existing last_offset
      → let c' = handle_all c (replay existing last_offset id b) in
        (base : ℕ) × Synced base h c' × (c'.offset ≡ length h)
  repaint_synchronises existing last_offset c r =
      rw (replay-repainted existing last_offset r) (after_repaint c)

  -- The buffer holds the last bytes of an output of at most 2 ^ 53 bytes. The answer to a hello for an
  -- existing session, from a client in step with that output whose offset is not before the last
  -- bytes of the buffer's capacity, leaves the client in step from the same base, with the end of the
  -- output as its offset: it shows the bytes that it had and then exactly those that it missed.
  pub resume_continues :
      (base : ℕ) (c : Client)
      → Synced base h c
      → length h - b.capacity ≤ c.offset
      → let c' = handle_all c (replay true (some (pos c.offset)) id b) in
        Synced base h c' × (c'.offset ≡ length h)
  unfolding replay handle_all handle_message handle_control
  resume_continues base c s retained = rw (in_range, replay) (rest-Synced base h c s small)
    where
      in_range : slice_from b (pos c.offset) ≡ some (drop c.offset h)
      in_range = slice_from_lem b h v (pos c.offset) ∙ unfold retained_from in ground arith
