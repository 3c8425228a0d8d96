-- ===== src/Hello/Lost.antt =====
-- Two answers to a hello that leave the browser's screen wrong: a repaint whose connection is lost
-- after the welcome, and a resume that a live frame overtakes.
use web_terminal.Prelude.{
  ℕ, ◌+◌, ◌-◌, ◌^◌, ◌≤◌, ◌<◌, ◌≡◌, refl, sym, ap, ap₂, ◌∙◌, true, some, inr, [], ◌∷◌, ◌++◌, Bytes,
  length, take, drop, arith, not_lt→ltb, lt→not_leb, length-append, length-drop, append-nil,
  drop-append_self,
}
use web_terminal.Prelude.Int.{pos}
use web_terminal.Client.{Client, accept_frame}
use web_terminal.Replay.{ReplayBuffer}
use web_terminal.Replay.History.{Holds}
use web_terminal.Replay.Slice.{retained_from}
use web_terminal.Hello.{output_message, replay, handle_control, handle_message, handle_all}
use web_terminal.Hello.Answer.{Repaints, repainted_lem, replay-repainted}
use web_terminal.Hello.Live.{live, handle_all-live, handle_all-append}
use web_terminal.Hello.Cut.{replay-resumed}

-- A frame at the client's own offset is shown whole.
accept_frame-next :
    (c : Client) (p : Bytes)
    → accept_frame c c.offset p ≡ record { offset = c.offset + length p; shown = c.shown ++ p }
unfolding accept_frame
accept_frame-next c [] = ground (arith, append-nil c.shown)
accept_frame-next c (x ∷ xs) =
    rw
      (
        not_lt→ltb c.offset c.offset (omega arith),
        same c.offset,
        lt→not_leb 0 (length (x ∷ xs)) (omega arith),
      )
      refl
  where
    same : (n : ℕ) → n - n ≡ 0
    same n = omega arith

client_eq :
    {m n : ℕ} {a b : Bytes}
    → m ≡ n
    → a ≡ b
    → ◌≡◌ {A = Client} (record { offset = m; shown = a }) (record { offset = n; shown = b })
client_eq = ap₂ (λ n a. record { offset = n; shown = a })

-- The rest of an output, sent to a client that need not be in step with it.
rest_shown :
    (c : Client) (h : Bytes)
    → c.offset ≤ length h
    → length h ≤ 2 ^ 53
    → handle_all c (output_message (pos c.offset) (drop c.offset h))
      ≡ record { offset = length h; shown = c.shown ++ drop c.offset h }
unfolding handle_all
rest_shown c h le small = sent (drop c.offset h) refl
  where
    sent :
        (p : Bytes)
        → drop c.offset h ≡ p
        → handle_all c (output_message (pos c.offset) p)
          ≡ record { offset = length h; shown = c.shown ++ p }
    sent [] e =
        client_eq (omega (arith, ap length e, length-drop c.offset h)) (sym (append-nil c.shown))
    sent (x ∷ xs) e =
        handle_all-live c c.offset (pos c.offset) (x ∷ xs) [] refl (omega arith)
        ∙ accept_frame-next c (x ∷ xs)
        ∙ client_eq (omega (arith, ap length e, length-drop c.offset h)) refl

-- The buffer holds the last bytes of an output of at most 2 ^ 53 bytes, and a browser comes back
-- when its offset is no longer retained. It is repainted, and the connection is lost
-- after the welcome, before the reset. When it comes back again and nothing has been output since,
-- it is resumed, at a later offset: the output between the two offsets is never shown, and what the
-- browser showed stays on its screen, with the output after the gap behind it.
pub cut_welcome_skips :
    (b : ReplayBuffer) (h id : Bytes) (c : Client)
    → Holds b h
    → length h ≤ 2 ^ 53
    → c.offset < length h - b.capacity
    → let c' = handle_all c (take 1 (replay true (some (pos c.offset)) id b)) in
      (c.offset < c'.offset)
      × (c'.offset ≤ length h)
      × (handle_all c' (replay true (some (pos c'.offset)) id b)
          ≡ record { offset = length h; shown = c.shown ++ drop c'.offset h })
unfolding handle_all handle_message handle_control
cut_welcome_skips b h id c holds small gone =
    let (o, le, kept, e) = repainted_lem b h holds small id in
    rw (replay-repainted b h holds small id true (some (pos c.offset)) repaints, e)
      (
        omega arith,
        le,
        rw (replay-resumed b h holds small id o kept le)
            (rest_shown (record { offset = o; shown = c.shown }) h le small),
      )
  where
    repaints : Repaints b h true (some (pos c.offset))
    repaints = inr (inr (pos c.offset, refl, unfold retained_from in ground arith))

-- A browser comes back whose offset is the end of the output `h`; the process outputs a chunk that is
-- no longer than the buffer. Its frame is written before the messages of the answer, which is
-- read after the chunk was appended. With offsets up to 2 ^ 53, the browser shows the chunk twice.
pub overtaken_answer_repeats :
    (b : ReplayBuffer) (h chunk id : Bytes) (c : Client)
    → Holds b (h ++ chunk)
    → length (h ++ chunk) ≤ 2 ^ 53
    → c.offset ≡ length h
    → length chunk ≤ b.capacity
    → handle_all c (live ((pos c.offset, chunk) ∷ []) ++ replay true (some (pos c.offset)) id b)
      ≡ record { offset = length (h ++ chunk); shown = c.shown ++ chunk ++ chunk }
unfolding handle_all handle_message handle_control
overtaken_answer_repeats b h chunk id c holds small at_end fits =
    rw
      (
        handle_all-append (live ((pos c.offset, chunk) ∷ []))
            (replay true (some (pos c.offset)) id b) c,
        handle_all-live c c.offset (pos c.offset) chunk [] refl
            (omega (arith, length-append h chunk)),
        replay-resumed b (h ++ chunk) holds small id c.offset (omega (arith, length-append h chunk))
            (omega (arith, length-append h chunk)),
        accept_frame-next c chunk,
      )
      (rest_shown (record { offset = c.offset; shown = c.shown ++ chunk }) (h ++ chunk)
          (omega (arith, length-append h chunk)) small
        ∙ client_eq refl (
            ap (◌++◌ (c.shown ++ chunk))
              (ap (λ n. drop n (h ++ chunk)) at_end ∙ drop-append_self h chunk)))
