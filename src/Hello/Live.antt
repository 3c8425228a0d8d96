-- ===== src/Hello/Live.antt =====
-- The live frames of a listener as the client takes them, and what happens when one overtakes the
-- answer to a hello: the listener is attached before the answer is read and written, and another
-- goroutine writes its frames.
use web_terminal.Prelude.{
  ℕ, ◌+◌, ◌^◌, ◌≤◌, ◌<◌, ◌≡◌, ◌≢◌, refl, ap, ◌∙◌, Bool, Option, List, [], ◌∷◌, ◌++◌, Bytes, length,
  arith, length-append, lt→ltb,
}
use web_terminal.Prelude.Int.{ℤ, pos}
use web_terminal.Protocol.{encode_output}
use web_terminal.Delivery.Frames.{Contiguous, payloads}
use web_terminal.Client.{Client, handle_binary, accept_frame}
use web_terminal.Replay.{ReplayBuffer}
use web_terminal.Replay.History.{Holds}
use web_terminal.Hello.{Message, binary, replay, handle_message, handle_all}
use web_terminal.Hello.Answer.{handle_binary-encode, Repaints, repaint_synchronises}

-- The frames that a listener's delivery writes, as messages.
abbrev pub live : List (ℤ × Bytes) → List Message
live [] = []
live ((o, p) ∷ fs) = binary (encode_output o p) ∷ live fs

pub handle_all-live :
    (c : Client) (n : ℕ) (o : ℤ) (p : Bytes) (fs : List (ℤ × Bytes))
    → o ≡ pos n
    → n ≤ 2 ^ 53
    → handle_all c (live ((o, p) ∷ fs)) ≡ handle_all (accept_frame c n p) (live fs)
unfolding handle_all handle_message
handle_all-live c n o p fs at small =
    ap (λ k. handle_all k (live fs))
      (ap (λ k. handle_binary c (encode_output k p)) at ∙ handle_binary-encode c n p small)

gap_drops : (c : Client) (n : ℕ) (p : Bytes) → c.offset < n → accept_frame c n p ≡ c
unfolding accept_frame
gap_drops c n p gap = rw (lt→ltb c.offset n gap)

-- Contiguous frames that begin past the client's offset and end at most at 2 ^ 53 are all dropped: the
-- client stays as it is.
pub gap_wedges :
    (n : ℕ) (fs : List (ℤ × Bytes)) (c : Client)
    → c.offset < n
    → n + length (payloads fs) ≤ 2 ^ 53
    → Contiguous n fs
    → handle_all c (live fs) ≡ c
unfolding handle_all
gap_wedges n [] c gap small g = refl
gap_wedges n ((o, p) ∷ fs) c gap small (at, g) =
    rw
      (
        handle_all-live c n o p fs at (omega (arith, length-append p (payloads fs))),
        gap_drops c n p gap,
      )
      (gap_wedges (n + length p) fs c (omega arith) (omega (arith, length-append p (payloads fs)))
        g)

pub handle_all-append :
    (ms ns : List Message) (c : Client) → handle_all c (ms ++ ns) ≡ handle_all (handle_all c ms) ns
unfolding handle_all
handle_all-append [] ns c = refl
handle_all-append (m ∷ ms) ns c = handle_all-append ms ns (handle_message c m)

-- The race of a repaint: the answer to a hello is read from a buffer that holds the output `h`; a
-- first live frame, of a chunk that comes after and is not empty, is written before the messages of
-- the answer. Then, with offsets up to 2 ^ 53, the client is left at the end of `h`, and the
-- contiguous frames after that chunk are all dropped.
pub overtaken_answer_wedges :
    (b : ReplayBuffer) (h id chunk : Bytes) (c : Client) (existing : Bool) (last_offset : Option ℤ)
    (fs : List (ℤ × Bytes))
    → Holds b h
    → length h + length chunk + length (payloads fs) ≤ 2 ^ 53
    → chunk ≢ []
    → Repaints b h existing last_offset
    → Contiguous (length h + length chunk) fs
    → let c' =
        handle_all c (live ((pos (length h), chunk) ∷ []) ++ replay existing last_offset id b) in
      (c'.offset ≡ length h) × (handle_all c' (live fs) ≡ c')
overtaken_answer_wedges b h id chunk c existing last_offset fs v small more r g =
    let (base, s, e) =
      repaint_synchronises b h v (omega arith) id existing last_offset
        (handle_all c (live ((pos (length h), chunk) ∷ []))) r in
    rw handle_all-append (
      e,
      gap_wedges (length h + length chunk) fs _
          (past
            (handle_all (handle_all c (live ((pos (length h), chunk) ∷ [])))
              (replay existing last_offset id b)).offset
            e chunk more)
          small g,
    )
  where
    past : (k : ℕ) → k ≡ length h → (p : Bytes) → p ≢ [] → k < length h + length p
    past k e [] more = absurd (more refl)
    past k e (x ∷ xs) more = omega arith
