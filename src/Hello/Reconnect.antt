-- ===== src/Hello/Reconnect.antt =====
-- A client that comes back to a session, from its hello to the last frame: it is attached, at any
-- moment of the loop of the pump, the answer is read from the buffer and written, and the listener's
-- frames follow.
use web_terminal.Prelude.{
  ℕ, ◌+◌, ◌-◌, ◌^◌, ◌≤◌, ◌≡◌, sym, ap, ◌∙◌, Bool, true, some, Option, ◌++◌, Bytes, length, drop,
  arith, length-append, length-drop, append_assoc, max, subst,
}
use web_terminal.Prelude.Int.{ℤ, pos}
use web_terminal.Replay.History.{Holds}
use web_terminal.Delivery.Frames.{payloads}
use web_terminal.Client.{Client}
use web_terminal.Client.Frames.{Synced}
use web_terminal.Session.{Listener, Session}
use web_terminal.Session.Attached.{find_listener, HasDrained}
use web_terminal.Session.Pump.{reading, Threads, Run}
use web_terminal.Session.Pump.Rising.{Rising}
use web_terminal.Session.Pump.Whole.{Run-append}
use web_terminal.Session.Pump.Streams.{attached_at, attached_anytime}
use web_terminal.Hello.{replay, handle_all}
use web_terminal.Hello.Answer.{Repaints, resume_continues, repaint_synchronises}
use web_terminal.Hello.Live.{live, handle_all-append}
use web_terminal.Hello.Handoff.{live_overlap, Synced-append}

-- A session runs to `p`, where a client is attached; it runs to `q`, where the answer is read from the
-- buffer; and it runs to `r`, where the new listener is still there.
module _ (s : Session) (h : Bytes) (holds : Holds s.buffer h) (rising : Rising s)
    {out during after : Bytes} {p q r : Threads}
    (before : Run (record { session = s; pump = reading }) out p)
    (until_read : Run (attached_at s h holds rising before) during q) (since_read : Run q after r)
    (l : Listener) (small : length h + length out + length during + length after ≤ 2 ^ 53)
    (found : find_listener p.session.next_listener r.session.listeners ≡ some l) where
  -- The output when the client is attached, when the answer is read, and in the end.
  abbrev pub at_attach : Bytes
  at_attach = h ++ out

  abbrev pub by_then : Bytes
  by_then = h ++ (out ++ during)

  abbrev pub whole : Bytes
  whole = h ++ (out ++ (during ++ after))

  pub whole_later : by_then ++ after ≡ whole
  whole_later = append_assoc h (out ++ during) after ∙ ap (◌++◌ h) (append_assoc out during after)

  pub attach_later : at_attach ++ during ≡ by_then
  attach_later = append_assoc h out during

  pub answering-Holds : Holds q.session.buffer by_then
  answering-Holds = (attached_anytime s h holds rising before until_read (omega arith)).0

  pub lengths :
      (length at_attach ≡ length h + length out)
      × (length by_then ≡ length h + length out + length during)
      × (length whole ≡ length h + length out + length during + length after)
  lengths = (
    length-append h out,
    omega (arith, length-append h (out ++ during), length-append out during),
    omega (
      arith,
      length-append h (out ++ (during ++ after)),
      length-append out (during ++ after),
      length-append during after,
    ),
  )

  pub by_then_small : length by_then ≤ 2 ^ 53
  by_then_small = omega (arith, lengths)

  -- A client that the answer has left at the end of the output by then takes the frames.
  frames_follow :
      (base : ℕ) (c : Client)
      → Synced base by_then c
      → c.offset ≡ length by_then
      → let c' = handle_all c (live l.runner.written) in
        Synced base whole c' × (r.pump ≡ reading → HasDrained l → c'.offset ≡ length whole)
  frames_follow base c v at_end =
      let (n, le, (contiguous, (rest, cut), all)) =
        (attached_anytime s h holds rising before (Run-append until_read since_read)
            (omega (arith, length-append during after))).1
          l found in
      let (synced, reached) =
        live_overlap base whole n l.runner.written c rest
          (subst (λ k. Synced base k c) whole_later (Synced-append base by_then after c v))
          (omega (arith, lengths)) (omega (arith, at_end, lengths)) contiguous (sym cut) in
      (synced, λ idle drained. reached ∙ ends n le (all idle drained))
    where
      ends :
          (n : ℕ)
          → n ≤ length at_attach
          → payloads l.runner.written ≡ drop n whole
          → max c.offset (n + length (payloads l.runner.written)) ≡ length whole
      ends n le e = omega (arith, at_end, ap length e, length-drop n whole, lengths)

  -- A client in step with the output of a session at its attach comes back, and its offset is still
  -- retained when the answer is read. The pump is anywhere in its loop, at the attach and at the read;
  -- what happens to the session meanwhile and afterwards is any run, up to 2 ^ 53 bytes; the answer is
  -- written before the frames that the listener's delivery has written in the end. The client is then
  -- in step, from the same base, with all that the process has produced; and once the pump is in a
  -- read and the delivery runs with nothing queued or in flight, it shows that to the end.
  pub resume_streams :
      (id : Bytes) (base : ℕ) (c : Client)
      → Synced base at_attach c
      → length by_then - q.session.buffer.capacity ≤ c.offset
      → let c' =
          handle_all c
            (replay true (some (pos c.offset)) id q.session.buffer ++ live l.runner.written) in
        Synced base whole c' × (r.pump ≡ reading → HasDrained l → c'.offset ≡ length whole)
  resume_streams id base c v retained =
      let (synced, at_end) =
        resume_continues q.session.buffer by_then answering-Holds by_then_small id base c
          (subst (λ k. Synced base k c) attach_later (Synced-append base at_attach during c v))
          retained in
      rw
        (handle_all-append (replay true (some (pos c.offset)) id q.session.buffer)
          (live l.runner.written) c)
        (frames_follow base _ synced at_end)

  -- A client whose hello cannot be resumed, whatever it had. The pump is anywhere in its loop, at the
  -- attach and at the read of the answer; what happens to the session meanwhile and afterwards is any
  -- run, up to 2 ^ 53 bytes; the answer is written before the frames that the listener's delivery has
  -- written in the end. The client is then in step, from some base, with all that the process has
  -- produced; and once the pump is in a read and the delivery runs with nothing queued or in flight,
  -- it shows that to the end.
  pub repaint_streams :
      (id : Bytes) (existing : Bool) (last_offset : Option ℤ) (c : Client)
      → Repaints q.session.buffer by_then existing last_offset
      → let c' =
          handle_all c (replay existing last_offset id q.session.buffer ++ live l.runner.written) in
        (base : ℕ) × Synced base whole c'
        × (r.pump ≡ reading → HasDrained l → c'.offset ≡ length whole)
  repaint_streams id existing last_offset c u =
      let (base, synced, at_end) =
        repaint_synchronises q.session.buffer by_then answering-Holds by_then_small id existing
          last_offset c u in
      let (all, ends) = frames_follow base _ synced at_end in
      rw
        (handle_all-append (replay existing last_offset id q.session.buffer) (live l.runner.written)
          c)
        (base, all, ends)
