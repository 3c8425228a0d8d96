-- ===== src/Wstest/Resume.antt =====
-- The command against the server: what it counts and what it checks, of the server's messages.
use web_terminal.Prelude.{
  ℕ, ◌+◌, ◌-◌, ◌^◌, ◌≤◌, ◌≡◌, ◌≢◌, ◌↔◌, refl, sym, ap, ◌∙◌, Bool, true, false, ◌&&◌, none, some,
  List, [], ◌∷◌, ◌++◌, map, append_assoc, append-nil, Bytes, length, drop, ltb, arith,
  if◌then◌else◌, length-append, Option-cases, inl, inr, length-drop,
}
use web_terminal.Prelude.Int.{ℤ, pos, add64, add64-pos, eq_ℤ, eq_ℤ→≡, eq_ℤ_refl}
use web_terminal.Prelude.Text.{codes, str_eq, str_eq_refl}
use web_terminal.Protocol.{ServerControl, encode_output}
use web_terminal.Delivery.Frames.{Contiguous, payloads}
use web_terminal.Client.{Client}
use web_terminal.Client.Frames.{Synced}
use web_terminal.Replay.{ReplayBuffer, slice_from}
use web_terminal.Replay.History.{Holds}
use web_terminal.Replay.Slice.{retained_from, slice_from_lem}
use web_terminal.Hello.{
  Message, control, binary, blank, welcome, reset, output_message, replay, handle_all,
}
use web_terminal.Hello.Answer.{repainted_lem, replay-repainted}
use web_terminal.Hello.Live.{live}
use web_terminal.Hello.Handoff.{live_overlap}
use web_terminal.Wstest.{Reading, text_message, binary_message, read_output, await_resume}

module _ (marshal : ServerControl → Bytes) where
  -- A message of the server as the command reads it; `marshal` is json.Marshal.
  abbrev pub reading_of : Message → Reading
  reading_of (control m) = text_message (marshal m)
  reading_of (binary bytes) = binary_message bytes

  -- Only the payloads of live frames are counted, each in full.
  read_output-live :
      (out : Bytes) (fs : List (ℤ × Bytes))
      → read_output out (map reading_of (live fs)) ≡ out ++ payloads fs
  unfolding read_output encode_output
  read_output-live out [] = sym (append-nil out)
  read_output-live out ((o, []) ∷ fs) = read_output-live out fs
  read_output-live out ((o, x ∷ xs) ∷ fs) =
      ap (λ k. read_output k (map reading_of (live fs))) counted
      ∙ read_output-live (out ++ x ∷ xs) fs
      ∙ append_assoc out (x ∷ xs) (payloads fs)
    where
      counted :
          (if ltb 9 (length (encode_output o (x ∷ xs))) then out ++ x ∷ xs else out) ≡ out ++ x ∷ xs
      counted = ground arith

  -- The offset that the command resumes from, against the browser's. A browser in step with a stream
  -- of at most 2 ^ 53 bytes is sent contiguous frames of it that begin at or before its offset and
  -- reach it. The command, which adds the length of all that it reads to that offset, is ahead of the
  -- browser by exactly the distance from the start of the frames to that offset.
  counted_offset :
      (base : ℕ) (h : Bytes) (n : ℕ) (fs : List (ℤ × Bytes)) (c : Client) (rest : Bytes)
      → Synced base h c
      → length h ≤ 2 ^ 53
      → n ≤ c.offset
      → c.offset ≤ n + length (payloads fs)
      → Contiguous n fs
      → drop n h ≡ payloads fs ++ rest
      → add64 (pos c.offset) (pos (length (read_output [] (map reading_of (live fs)))))
        ≡ pos ((handle_all c (live fs)).offset + (c.offset - n))
  counted_offset base h n fs c rest v small le reach g e =
      ap (λ k. add64 (pos c.offset) (pos (length k))) (read_output-live [] fs)
      ∙ add64-pos c.offset (length (payloads fs)) (
          let in_range = v.within in
          omega (arith, ap length e, length-append (payloads fs) rest, length-drop n h))
      ∙ ap pos (omega (arith, (live_overlap base h n fs c rest v small le g e).1))

-- A welcome to the session is decoded as it was encoded.
module _ (marshal : ServerControl → Bytes) (unmarshal : Bytes → ServerControl) (id : Bytes)
    (round_trip : (o : ℤ)
      → let m = record blank { t = codes "welcome"; session_id = id; offset = some o } in
        unmarshal (marshal m) ≡ m) where
  -- The check of a resume, on the server's answer to a hello for an existing session with the offset
  -- `last`: when a welcome is decoded as it was encoded, and for a buffer that holds the last bytes of
  -- an output of at most 2 ^ 53 bytes, it passes when and only when the buffer still has that offset.
  pub resume_check_iff :
      (b : ReplayBuffer) (h : Bytes) (last : ℤ)
      → Holds b h
      → length h ≤ 2 ^ 53
      → ((await_resume unmarshal id last
            (map (reading_of marshal) (replay true (some last) id b))).0
          ≡ true)
        ↔ (slice_from b last ≢ none)
  unfolding await_resume replay
  resume_check_iff b h last v small = elim (Option-cases (slice_from b last)) [
    | inl gone ↦ ((λ passed. absurd (not_repainted gone passed)), (λ there. absurd (there gone)))
    | inr (bytes, there) ↦
        ((λ passed gone. absurd (some-none (sym there ∙ gone))), (λ there'. resumes bytes there))
  ]
    where
      some-none : {bytes : Bytes} → some bytes ≡ none → ⊥
      some-none e = cc

      check : List Message → Bool
      check ms = (await_resume unmarshal id last (map (reading_of marshal) ms)).0

      and_right : (p : Bool) {q : Bool} → (p && q) ≡ true → q ≡ true
      and_right true e = e
      and_right false e = cc

      retained :
          (o : ℕ)
          → o ≤ length h
          → length h - b.capacity ≤ o
          → slice_from b (pos o) ≡ some (drop o h)
      retained o le ge = slice_from_lem b h v (pos o) ∙ unfold retained_from in ground arith

      -- The check stops at the welcome.
      at_welcome :
          (offset : ℤ) (rest : List Message)
          → (await_resume unmarshal id last (map (reading_of marshal) (welcome id offset ∷ rest))).0
            ≡ (str_eq id id && eq_ℤ offset last)
      at_welcome offset rest = simp (round_trip offset) refl

      resumed_with :
          (bytes : Bytes)
          → slice_from b last ≡ some bytes
          → replay true (some last) id b ≡ welcome id last ∷ output_message last bytes
      resumed_with bytes there = rw (there, replay) refl

      resumes :
          (bytes : Bytes)
          → slice_from b last ≡ some bytes
          → (await_resume unmarshal id last
              (map (reading_of marshal) (replay true (some last) id b))).0
            ≡ true
      resumes bytes there =
          ap check (resumed_with bytes there)
          ∙ at_welcome last (output_message last bytes)
          ∙ rw (str_eq_refl id, eq_ℤ_refl last) refl

      not_repainted :
          slice_from b last ≡ none
          → (await_resume unmarshal id last
              (map (reading_of marshal) (replay true (some last) id b))).0
            ≡ true
          → ⊥
      not_repainted gone passed =
          let (o, le, ge, e) = repainted_lem b h v small id in
          let cut_at : eq_ℤ (pos o) last ≡ true = and_right (str_eq id id) (
            sym (at_welcome (pos o) (reset (pos o) ∷ output_message (pos o) (drop o h)))
            ∙ sym (ap check e)
            ∙ sym (
                ap check (
                  replay-repainted b h v small id true (some last)
                    (inr (inr (last, refl, sym (slice_from_lem b h v last) ∙ gone)))))
            ∙ passed) in
          some-none (sym (retained o le ge) ∙ ap (slice_from b) (eq_ℤ→≡ (pos o) last cut_at) ∙ gone)
