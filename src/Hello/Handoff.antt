-- ===== src/Hello/Handoff.antt =====
-- The answer to a hello followed by the live frames of the listener that was attached before it: the
-- frames may begin with bytes that the answer has already replayed.
use web_terminal.Prelude.{
  ℕ, ◌+◌, ◌-◌, ◌^◌, ◌≤◌, ◌≡◌, sym, ap, ◌∙◌, true, some, List, [], ◌∷◌, ◌++◌, Bytes, length, drop,
  arith, length-append, drop-drop, drop-append_within, drop-append_self, append_assoc, max,
}
use web_terminal.Prelude.Int.{ℤ, pos}
use web_terminal.Delivery.Frames.{Contiguous, payloads}
use web_terminal.Client.{Client, accept_frame}
use web_terminal.Client.Frames.{Synced, IsSlice, accept_frame-Synced, offset-accept_frame}
use web_terminal.Replay.{ReplayBuffer}
use web_terminal.Replay.History.{Holds}
use web_terminal.Hello.{replay, handle_all}
use web_terminal.Hello.Answer.{resume_continues}
use web_terminal.Hello.Live.{live, handle_all-live, handle_all-append}

-- Contiguous frames of the stream that begin at or before the client's offset.
pub live_overlap :
    (base : ℕ) (h : Bytes) (n : ℕ) (fs : List (ℤ × Bytes)) (c : Client) (rest : Bytes)
    → Synced base h c
    → length h ≤ 2 ^ 53
    → n ≤ c.offset
    → Contiguous n fs
    → drop n h ≡ payloads fs ++ rest
    → let c' = handle_all c (live fs) in
      Synced base h c' × (c'.offset ≡ max c.offset (n + length (payloads fs)))
unfolding handle_all
live_overlap base h n [] c rest v small le g e = (v, omega arith)
live_overlap base h n ((o, p) ∷ fs) c rest v small le (at, g) e =
    rw (handle_all-live c n o p fs at (let in_range = v.within in omega arith)) (
      let (s, reached) =
        live_overlap base h (n + length p) fs next rest (accept_frame-Synced base h c n p v slice)
          small (omega (arith, advanced)) g later in
      (s, omega (arith, reached, advanced, length-append p (payloads fs))))
  where
    next : Client
    next = accept_frame c n p

    advanced : next.offset ≡ max c.offset (n + length p)
    advanced = ground (arith, offset-accept_frame c n p)

    cut : drop n h ≡ p ++ (payloads fs ++ rest)
    cut = e ∙ append_assoc p (payloads fs) rest

    slice : IsSlice h n p
    slice = record {
      rest = payloads fs ++ rest;
      cut = cut;
      start = let in_range = v.within in omega arith;
    }

    later : drop (n + length p) h ≡ payloads fs ++ rest
    later =
        sym (drop-drop (length p) n h)
        ∙ ap (drop (length p)) cut
        ∙ drop-append_self p (payloads fs ++ rest)

-- A client in step with a stream is in step with the stream as it goes on.
pub Synced-append :
    (base : ℕ) (h later : Bytes) (c : Client) → Synced base h c → Synced base (h ++ later) c
Synced-append base h later c v = record {
  shows =
      ap (◌++◌ c.shown) (drop-append_within c.offset h later v.within)
      ∙ sym (append_assoc c.shown (drop c.offset h) later)
      ∙ ap (λ k. k ++ later) v.shows
      ∙ sym (
          drop-append_within base h later
            (let counted = v.counts in let in_range = v.within in omega arith));
  counts = v.counts;
  within = let in_range = v.within in omega (arith, length-append h later);
}

-- A client in step with the output that the buffer holds, at an offset still retained, says hello
-- again, and the output goes on. The listener was attached at an offset of that output, and its
-- frames are contiguous from there and follow the whole output, of at most 2 ^ 53 bytes. When the
-- answer is written first and the frames after it, then the client is in step with the whole output
-- from the same base, up to the end of the answer or of the frames, whichever is later: nothing is
-- missing or shown twice where they overlap.
handoff_continues :
    (b : ReplayBuffer) (h later id : Bytes) (base n : ℕ) (c : Client) (fs : List (ℤ × Bytes))
    (rest : Bytes)
    → Holds b h
    → length h + length later ≤ 2 ^ 53
    → Synced base h c
    → length h - b.capacity ≤ c.offset
    → n ≤ length h
    → Contiguous n fs
    → drop n (h ++ later) ≡ payloads fs ++ rest
    → let c' = handle_all c (replay true (some (pos c.offset)) id b ++ live fs) in
      Synced base (h ++ later) c' × (c'.offset ≡ max (length h) (n + length (payloads fs)))
handoff_continues b h later id base n c fs rest v small s retained le g e =
    let (synced, reached) = resume_continues b h v (omega arith) id base c s retained in
    let (all, far) =
      live_overlap base (h ++ later) n fs answered rest (Synced-append base h later answered synced)
        (omega (arith, length-append h later)) (omega (arith, reached)) g e in
    rw (handle_all-append (replay true (some (pos c.offset)) id b) (live fs) c)
      (all, far ∙ ap (λ k. max k (n + length (payloads fs))) reached)
  where
    answered : Client
    answered = handle_all c (replay true (some (pos c.offset)) id b)
