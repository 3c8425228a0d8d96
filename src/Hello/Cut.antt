-- ===== src/Hello/Cut.antt =====
-- The answer to a hello and the live frames after it, when the connection is lost after any number of
-- those messages.
use web_terminal.Prelude.{
  ℕ, zero, suc, ◌+◌, ◌-◌, ◌^◌, ◌≤◌, ◌≡◌, ◌≢◌, refl, sym, ap, ◌∙◌, true, some, List, [], ◌∷◌, ◌++◌,
  Bytes, length, take, drop, arith, length-append, length-drop, drop-drop, drop-append_self,
  append_assoc, drop-append_within, All,
}
use web_terminal.Prelude.Int.{ℤ, pos}
use web_terminal.Protocol.{encode_output}
use web_terminal.Delivery.Frames.{Contiguous, payloads}
use web_terminal.Client.{Client, accept_frame}
use web_terminal.Client.Frames.{Synced, IsSlice, accept_frame-Synced}
use web_terminal.Replay.{ReplayBuffer, slice_from}
use web_terminal.Replay.History.{Holds}
use web_terminal.Replay.Slice.{retained_from, slice_from_lem}
use web_terminal.Hello.{
  binary, output_message, resumed, repainted, replay, handle_control, handle_message, handle_all,
}
use web_terminal.Hello.Answer.{handle_binary-encode, repainted_lem, start-Synced}
use web_terminal.Hello.Live.{live}

-- A frame that stands in the stream, at an offset that a number of the browser has.
abbrev pub IsFrame : Bytes → ℤ × Bytes → Type 0
IsFrame h (o, p) = (n : ℕ) × (o ≡ pos n) × (n ≤ 2 ^ 53) × IsSlice h n p

handle_message-frame :
    (c : Client) (n : ℕ) (o : ℤ) (p : Bytes)
    → o ≡ pos n
    → n ≤ 2 ^ 53
    → handle_message c (binary (encode_output o p)) ≡ accept_frame c n p
unfolding handle_message
handle_message-frame c n o p at small = rw at (handle_binary-encode c n p small)

-- Frames of the stream, in any order and cut anywhere, keep a client in step.
frames_cut :
    (base : ℕ) (h : Bytes) (fs : List (ℤ × Bytes)) (c : Client) (k : ℕ)
    → Synced base h c
    → All (IsFrame h) fs
    → Synced base h (handle_all c (take k (live fs)))
unfolding handle_all
frames_cut base h [] c zero v s = v
frames_cut base h [] c (suc k) v s = v
frames_cut base h (f ∷ fs) c zero v s = v
frames_cut base h ((o, p) ∷ fs) c (suc k) v ((n, at, small, slice), s) =
    rw (handle_message-frame c n o p at small)
      (frames_cut base h fs (accept_frame c n p) k (accept_frame-Synced base h c n p v slice) s)

-- The frames of a listener stand in the stream.
pub frames_stand :
    (h : Bytes) (n : ℕ) (fs : List (ℤ × Bytes)) (rest : Bytes)
    → n ≤ length h
    → length h ≤ 2 ^ 53
    → Contiguous n fs
    → drop n h ≡ payloads fs ++ rest
    → All (IsFrame h) fs
frames_stand h n [] rest le small g e = tt
frames_stand h n ((o, p) ∷ fs) rest le small (at, g) e = (
  (n, at, omega arith, record { rest = payloads fs ++ rest; cut = cut; start = le }),
  frames_stand h (n + length p) fs rest
      (omega (arith, ap length cut, length-drop n h, length-append p (payloads fs ++ rest))) small g
      (sym (drop-drop (length p) n h)
        ∙ ap (drop (length p)) cut
        ∙ drop-append_self p (payloads fs ++ rest)),
)
  where
    cut : drop n h ≡ p ++ (payloads fs ++ rest)
    cut = e ∙ append_assoc p (payloads fs) rest

-- The rest of the output in the answer is a frame of the stream, or nothing.
rest_cut :
    (base : ℕ) (h later : Bytes) (fs : List (ℤ × Bytes)) (c : Client) (n k : ℕ)
    → Synced base (h ++ later) c
    → n ≤ length h
    → length h ≤ 2 ^ 53
    → All (IsFrame (h ++ later)) fs
    → Synced base
        (h ++ later)
        (handle_all c (take k (output_message (pos n) (drop n h) ++ live fs)))
rest_cut base h later fs c n k v le small s = sent (drop n h) refl
  where
    sent :
        (p : Bytes)
        → drop n h ≡ p
        → Synced base (h ++ later) (handle_all c (take k (output_message (pos n) p ++ live fs)))
    sent [] e = frames_cut base (h ++ later) fs c k v s
    sent (x ∷ xs) e = frames_cut base (h ++ later) ((pos n, x ∷ xs) ∷ fs) c k v (
      (
        n,
        refl,
        omega arith,
        record {
          rest = later;
          cut = drop-append_within n h later le ∙ ap (λ k. k ++ later) e;
          start = omega (arith, length-append h later);
        },
      ),
      s,
    )

module _ (b : ReplayBuffer) (h : Bytes) (holds : Holds b h) (small : length h ≤ 2 ^ 53)
    (id : Bytes) where
  pub replay-resumed :
      (o : ℕ)
      → length h - b.capacity ≤ o
      → o ≤ length h
      → replay true (some (pos o)) id b ≡ resumed id (pos o) (drop o h)
  unfolding replay
  replay-resumed o retained le = rw (in_range, replay)
    where
      in_range : slice_from b (pos o) ≡ some (drop o h)
      in_range = slice_from_lem b h holds (pos o) ∙ unfold retained_from in ground arith

  -- A hello that is resumed, cut anywhere: `later` is what the process has output since, and the
  -- frames are of the whole output.
  pub resume_cut :
      (later : Bytes) (base : ℕ) (c : Client) (fs : List (ℤ × Bytes)) (k : ℕ)
      → Synced base (h ++ later) c
      → length h - b.capacity ≤ c.offset
      → c.offset ≤ length h
      → All (IsFrame (h ++ later)) fs
      → Synced base
          (h ++ later)
          (handle_all c (take k (replay true (some (pos c.offset)) id b ++ live fs)))
  unfolding handle_all handle_message handle_control
  resume_cut later base c fs zero v retained le s = v
  resume_cut later base c fs (suc k) v retained le s =
      rw (replay-resumed c.offset retained le) (rest_cut base h later fs c c.offset k v le small s)

  -- A repaint, cut anywhere but between its welcome and its reset.
  pub repaint_cut :
      (later : Bytes) (base : ℕ) (c : Client) (fs : List (ℤ × Bytes)) (k : ℕ)
      → Synced base (h ++ later) c
      → k ≢ 1
      → All (IsFrame (h ++ later)) fs
      → (base' : ℕ) × Synced base' (h ++ later) (handle_all c (take k (repainted id b ++ live fs)))
  unfolding handle_all handle_message handle_control
  repaint_cut later base c fs zero v whole s = (base, v)
  repaint_cut later base c fs (suc zero) v whole s = absurd (whole refl)
  repaint_cut later base c fs (suc (suc k)) v whole s =
      let (o, le, _, e) = repainted_lem b h holds small id in
      rw e (
        o,
        rest_cut o h later fs (record { offset = o; shown = [] }) o k
            (start-Synced (h ++ later) o (omega (arith, length-append h later))) le small s,
      )
