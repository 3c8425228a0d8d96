-- ===== src/Hello/Journey/CatchUp.antt =====
-- A page that comes back after a journey and keeps its connection.
use web_terminal.Prelude.{
  ℕ, ◌+◌, ◌^◌, ◌≤◌, ◌≡◌, inl, inr, Bool, Option, some, ◌++◌, Bytes, length, arith, length-append,
}
use web_terminal.Prelude.Int.{ℤ}
use web_terminal.Replay.History.{Holds}
use web_terminal.Client.{Client}
use web_terminal.Client.Frames.{Synced}
use web_terminal.Session.{Listener, Session, attach}
use web_terminal.Session.Attached.{find_listener, HasDrained}
use web_terminal.Session.Pump.{reading, Threads, Run}
use web_terminal.Session.Pump.Rising.{Rising}
use web_terminal.Hello.{replay, handle_all}
use web_terminal.Hello.Answer.{Repaints}
use web_terminal.Hello.Live.{live}
use web_terminal.Hello.Reconnect.{resume_streams, repaint_streams}
use web_terminal.Hello.Journey.{Tells, Journey, IsUnbroken}
use web_terminal.Hello.Journey.InStep.{answered, journey_runs, journey_in_step}

module _ (s : Session) (h : Bytes) (holds : Holds s.buffer h) (rising : Rising s) where
  -- A page has come to a session over any number of connections that were lost, as the journey says, and
  -- comes once more: it is attached while the session's pump is anywhere in its loop, the answer is
  -- read later, the session runs on, up to 2 ^ 53 bytes of output in all, and the page gets the answer
  -- and then every frame that its listener has written in the end. Then it is in step with all that
  -- the process has produced, from the start of it if this hello and all of them since the page was
  -- loaded could be resumed; and once the pump is in a read and the delivery runs with nothing queued
  -- or in flight, the page shows that to the end.
  pub journey_catches_up :
      {out during after : Bytes} {p q r : Threads} {c : Client} (j : Journey s h out p c)
      → (until_read : Run (record p { session = attach p.session }) during q)
      → (since_read : Run q after r) → (l : Listener)
      → length h + length out + length during + length after ≤ 2 ^ 53
      → find_listener p.session.next_listener r.session.listeners ≡ some l
      → (existing : Bool) (last_offset : Option ℤ) (id : Bytes) → Tells c last_offset
      → let c' =
          handle_all c (replay existing last_offset id q.session.buffer ++ live l.runner.written) in
        let whole = h ++ (out ++ (during ++ after)) in
        (base : ℕ) × Synced base whole c'
        × (IsUnbroken j
            → ¬ (Repaints q.session.buffer (h ++ (out ++ during)) existing last_offset)
            → base ≡ 0)
        × (r.pump ≡ reading → HasDrained l → c'.offset ≡ length whole)
  journey_catches_up {out} {during} {after} {p} {q} {r} {c} j until_read since_read l small found
        existing last_offset id tells =
      let (base, v, kept) = journey_in_step s h holds rising j (omega arith) in
      elim (answered q.session.buffer (h ++ (out ++ during)) existing last_offset c tells
        (reached base v)) [
          | inl gone ↦
              let (base', synced, ends) =
                repaint_streams s h holds rising (journey_runs s h holds rising j) until_read
                  since_read l small found id existing last_offset c gone in
              (base', synced, (λ unbroken resumes. absurd (resumes gone)), ends)
          | inr (found_it, told, retained) ↦
              let (synced, ends) =
                resume_streams s h holds rising (journey_runs s h holds rising j) until_read
                  since_read l small found id base c v retained in
              rw (found_it, told) (base, synced, (λ unbroken resumes. kept unbroken), ends)
        ]
    where
      reached : (base : ℕ) → Synced base (h ++ out) c → c.offset ≤ length (h ++ (out ++ during))
      reached base v =
          let within = v.within in
          omega (
            arith,
            within,
            length-append h out,
            length-append h (out ++ during),
            length-append out during,
          )
