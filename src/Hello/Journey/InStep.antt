-- ===== src/Hello/Journey/InStep.antt =====
-- A page on a journey: each visit of it, and the whole.
use web_terminal.Prelude.{
  ℕ, ◌+◌, ◌-◌, ◌^◌, ◌≤◌, ◌≡◌, ◌≢◌, ◌⊎◌, refl, sym, ◌∙◌, inl, inr, Bool, true, false, Option, some,
  [], ◌++◌, Bytes, length, take, arith, length-append, append_assoc, subst, dec_lt, All,
}
use web_terminal.Prelude.Int.{ℤ, pos}
use web_terminal.Replay.{ReplayBuffer}
use web_terminal.Replay.History.{Holds}
use web_terminal.Replay.Slice.{retained_from}
use web_terminal.Client.{Client}
use web_terminal.Client.Frames.{Synced}
use web_terminal.Session.{Listener, Session, attach, attaches, act}
use web_terminal.Session.Attached.{find_listener}
use web_terminal.Session.Pump.{reading, Threads, Run, here, later, others}
use web_terminal.Session.Pump.Rising.{Rising}
use web_terminal.Session.Pump.Whole.{Run-append}
use web_terminal.Session.Pump.Streams.{attached_anytime}
use web_terminal.Hello.{replay, handle_all}
use web_terminal.Hello.Answer.{Repaints, replay-repainted, start-Synced}
use web_terminal.Hello.Live.{live}
use web_terminal.Hello.Handoff.{Synced-append}
use web_terminal.Hello.Reconnect.{
  whole_later, attach_later, answering-Holds, by_then_small, lengths,
}
use web_terminal.Hello.Cut.{IsFrame, frames_stand, resume_cut, repaint_cut}
use web_terminal.Hello.Journey.{Tells, Journey, loads, reloads, passes, visits, IsUnbroken}

-- A hello is resumed or the page is repainted.
pub answered :
    (b : ReplayBuffer) (h : Bytes) (existing : Bool) (last_offset : Option ℤ) (c : Client)
    → Tells c last_offset
    → c.offset ≤ length h
    → Repaints b h existing last_offset
      ⊎ ((existing ≡ true)
          × (last_offset ≡ some (pos c.offset))
          × (length h - b.capacity ≤ c.offset))
answered b h false last_offset c t le = inl (inl refl)
answered b h true last_offset c (inl e) le = inl (inr (inl e))
answered b h true last_offset c (inr e) le = elim (dec_lt c.offset (length h - b.capacity)) [
  | yes gone ↦ inl (inr (inr (pos c.offset, e, unfold retained_from in ground arith)))
  | no kept ↦ inr (refl, e, omega arith)
]

-- One visit, from the session `s` that had run to `p`.
module _ (s : Session) (h : Bytes) (holds : Holds s.buffer h) (rising : Rising s)
    {out during after : Bytes} {p q r : Threads}
    (before : Run (record { session = s; pump = reading }) out p)
    (until_read : Run (record p { session = attach p.session }) during q)
    (since_read : Run q after r) (l : Listener)
    (small : length h + length out + length during + length after ≤ 2 ^ 53)
    (found : find_listener p.session.next_listener r.session.listeners ≡ some l) where
  visit_frames : All (IsFrame ((h ++ (out ++ during)) ++ after)) l.runner.written
  visit_frames =
      let (n, le, (contiguous, (rest, cut), _)) =
        (attached_anytime s h holds rising before (Run-append until_read since_read)
            (omega (arith, length-append during after))).1
          l found in
      subst (λ k. All (IsFrame k) l.runner.written)
        (sym (whole_later s h holds rising before until_read since_read l small found))
        (frames_stand (h ++ (out ++ (during ++ after))) n l.runner.written rest
          (omega (arith, sizes)) (omega (arith, sizes)) contiguous (sym cut))
    where
      sizes :
          (length (h ++ out) ≡ length h + length out)
          × (length (h ++ (out ++ during)) ≡ length h + length out + length during)
          × (length (h ++ (out ++ (during ++ after)))
              ≡ length h + length out + length during + length after)
      sizes = lengths s h holds rising before until_read since_read l small found

  visit_in_step :
      (base : ℕ) (c : Client) (existing : Bool) (last_offset : Option ℤ) (id : Bytes) (k : ℕ)
      → Synced base (h ++ out) c
      → Tells c last_offset
      → (Repaints q.session.buffer (h ++ (out ++ during)) existing last_offset → k ≢ 1)
      → let c' =
          handle_all c
            (take k (replay existing last_offset id q.session.buffer ++ live l.runner.written)) in
        (base' : ℕ) × Synced base' (h ++ (out ++ (during ++ after))) c'
        × (¬ (Repaints q.session.buffer (h ++ (out ++ during)) existing last_offset) → base' ≡ base)
  visit_in_step base c existing last_offset id k v tells uncut =
      let c' =
        handle_all c
          (take k (replay existing last_offset id q.session.buffer ++ live l.runner.written)) in
      subst
        (λ w.
          (base' : ℕ) × Synced base' w c'
          × (¬ (Repaints q.session.buffer (h ++ (out ++ during)) existing last_offset)
              → base' ≡ base))
        (whole_later s h holds rising before until_read since_read l small found)
        (elim (answered q.session.buffer (h ++ (out ++ during)) existing last_offset c tells
          by_then.within) [
            | inl gone ↦ repainted_then gone
            | inr kept ↦ (base, resumed_then kept, λ _. refl)
          ])
    where
      by_then : Synced base (h ++ (out ++ during)) c
      by_then =
          subst (λ k. Synced base k c)
            (attach_later s h holds rising before until_read since_read l small found)
            (Synced-append base (h ++ out) during c v)

      answer-Holds : Holds q.session.buffer (h ++ (out ++ during))
      answer-Holds = answering-Holds s h holds rising before until_read since_read l small found

      fits : length (h ++ (out ++ during)) ≤ 2 ^ 53
      fits = by_then_small s h holds rising before until_read since_read l small found

      resumed_then :
          (existing ≡ true)
            × (last_offset ≡ some (pos c.offset))
            × (length (h ++ (out ++ during)) - q.session.buffer.capacity ≤ c.offset)
          → Synced base ((h ++ (out ++ during)) ++ after) (
              handle_all c
                (take k (replay existing last_offset id q.session.buffer ++ live l.runner.written)))
      resumed_then (found_it, told, retained) =
          rw (found_it, told)
            (resume_cut q.session.buffer (h ++ (out ++ during)) answer-Holds fits id after base c
              l.runner.written k (Synced-append base (h ++ (out ++ during)) after c by_then)
              retained by_then.within visit_frames)

      repainted_then :
          Repaints q.session.buffer (h ++ (out ++ during)) existing last_offset
          → (base' : ℕ) × Synced base' ((h ++ (out ++ during)) ++ after) (
              handle_all c
                (take k (replay existing last_offset id q.session.buffer ++ live l.runner.written)))
            × (¬ (Repaints q.session.buffer (h ++ (out ++ during)) existing last_offset)
                → base' ≡ base)
      repainted_then gone =
          let (base', w) =
            repaint_cut q.session.buffer (h ++ (out ++ during)) answer-Holds fits id after base c
              l.runner.written k (Synced-append base (h ++ (out ++ during)) after c by_then)
              (uncut gone) visit_frames in
          rw
            (replay-repainted q.session.buffer (h ++ (out ++ during)) answer-Holds fits id existing
              last_offset gone)
            (base', w, λ kept. absurd (kept gone))

attached : (p : Threads) → Run p [] (record p { session = attach p.session })
unfolding act
attached p = later here (others 0 attaches refl (λ e. cc))

module _ (s : Session) (h : Bytes) (holds : Holds s.buffer h) (rising : Rising s) where
  -- What the session does in a journey is a run.
  pub journey_runs :
      {out : Bytes} {p : Threads} {c : Client}
      → Journey s h out p c
      → Run (record { session = s; pump = reading }) out p
  journey_runs loads = here
  journey_runs (reloads j) = journey_runs j
  journey_runs (passes j more) = Run-append (journey_runs j) more
  journey_runs (visits {p} j until_read since_read l found existing last_offset id k tells whole) =
      Run-append (journey_runs j) (Run-append (Run-append (attached p) until_read) since_read)

  -- A page comes to a session, whose buffer holds the last bytes of the output so far and whose
  -- listeners have rising numbers, over any number of connections, each of them lost after any number
  -- of messages; the session runs on between and during the connections in any way, up to 2 ^ 53 bytes
  -- of output in all. Each answer is written before the frames of its listener, and none that
  -- repaints is cut between its welcome and its reset. Then the page is in step with all that the
  -- process has produced: what it shows is exactly the output from some offset up to its own. That
  -- offset is the start of the output, if each hello since the page was loaded could be resumed.
  pub journey_in_step :
      {out : Bytes} {p : Threads} {c : Client} (j : Journey s h out p c)
      → length h + length out ≤ 2 ^ 53
      → (base : ℕ) × Synced base (h ++ out) c × (IsUnbroken j → base ≡ 0)
  journey_in_step loads fits = (0, start-Synced (h ++ []) 0 (omega arith), λ _. refl)
  journey_in_step (reloads {out} j) fits = (0, start-Synced (h ++ out) 0 (omega arith), λ _. refl)
  journey_in_step (passes {out} {more} {c} j run) fits =
      let (base, v, kept) = journey_in_step j (omega (arith, length-append out more)) in
      (
        base,
        subst (λ k. Synced base k c) (append_assoc h out more)
            (Synced-append base (h ++ out) more c v),
        kept,
      )
  journey_in_step
        (visits {out} {during} {after} {p} {q} {r} {c} j until_read since_read l found existing
          last_offset id k tells uncut)
        fits =
      let (base, v, kept) = journey_in_step j (omega (arith, sizes)) in
      let (base', w, same) =
        visit_in_step s h holds rising (journey_runs j) until_read since_read l
          (omega (arith, sizes)) found base c existing last_offset id k v tells uncut in
      (base', w, λ (before, resumes). same resumes ∙ kept before)
    where
      sizes : length (out ++ (during ++ after)) ≡ length out + (length during + length after)
      sizes = omega (arith, length-append out (during ++ after), length-append during after)
