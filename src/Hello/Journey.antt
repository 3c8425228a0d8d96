-- ===== src/Hello/Journey.antt =====
-- A browser page and a session over any number of connections: the page says hello, reads some of the
-- messages of the answer and of the frames after it, and loses the connection, again and again, while
-- the session goes on.
pub mod InStep
pub mod CatchUp
use web_terminal.Prelude.{
  ℕ, ◌+◌, ◌-◌, ◌^◌, ◌≤◌, ◌≡◌, ◌≢◌, ◌⊎◌, refl, sym, ◌∙◌, inl, inr, Bool, true, false, Option, none,
  some, [], ◌++◌, Bytes, length, take, arith, length-append, append_assoc, subst, dec_lt, All,
}
use web_terminal.Prelude.Int.{ℤ, pos}
use web_terminal.Replay.{ReplayBuffer}
use web_terminal.Replay.History.{Holds}
use web_terminal.Replay.Slice.{retained_from}
use web_terminal.Client.{Client}
use web_terminal.Client.Frames.{Synced}
use web_terminal.Session.{Listener, Session, attach, attaches, act}
use web_terminal.Session.Attached.{find_listener}
use web_terminal.Session.Pump.{reading, Threads, Run, here, later, others}
use web_terminal.Session.Pump.Rising.{Rising}
use web_terminal.Session.Pump.Whole.{Run-append}
use web_terminal.Session.Pump.Streams.{attached_anytime}
use web_terminal.Hello.{replay, handle_all}
use web_terminal.Hello.Answer.{Repaints, replay-repainted, start-Synced}
use web_terminal.Hello.Live.{live}
use web_terminal.Hello.Handoff.{Synced-append}
use web_terminal.Hello.Reconnect.{
  whole_later, attach_later, answering-Holds, by_then_small, lengths,
}
use web_terminal.Hello.Cut.{IsFrame, frames_stand, resume_cut, repaint_cut}

-- A page that has just been loaded.
abbrev pub new_page : Client
new_page = record { offset = 0; shown = [] }

-- What a hello of the page tells: no offset, or the page's own.
abbrev pub Tells : Client → Option ℤ → Type 0
Tells c last_offset = (last_offset ≡ none) ⊎ (last_offset ≡ some (pos c.offset))

-- From the session `s` with the output `h`: what the process has output since, where the session and
-- its pump are, and what the page has.
pub data Journey (s : Session) (h : Bytes) : Bytes → Threads → Client → Type 0 where
  loads : Journey s h [] (record { session = s; pump = reading }) new_page
  -- a page reload forgets the screen and the offset, and not the session
  reloads :
      {out : Bytes} {p : Threads} {c : Client} → Journey s h out p c → Journey s h out p new_page
  -- anything happens to the session
  passes :
      {out more : Bytes} {p q : Threads} {c : Client}
      → Journey s h out p c
      → Run p more q
      → Journey s h (out ++ more) q c
  -- the page is attached at `p`, the answer is read at `q`, and of the messages of the answer and of
  -- the frames that the listener has written by `r` the page gets the first `k`; a repaint is not cut
  -- after its first message
  visits :
      {out during after : Bytes} {p q r : Threads} {c : Client}
      → Journey s h out p c
      → Run (record p { session = attach p.session }) during q
      → Run q after r
      → (l : Listener) → find_listener p.session.next_listener r.session.listeners ≡ some l
      → (existing : Bool) (last_offset : Option ℤ) (id : Bytes) (k : ℕ) → Tells c last_offset
      → (Repaints q.session.buffer (h ++ (out ++ during)) existing last_offset → k ≢ 1)
      → Journey s h (out ++ (during ++ after)) r (
          handle_all c
            (take k (replay existing last_offset id q.session.buffer ++ live l.runner.written)))

-- The page was never told to forget what it shows: each hello of it could be resumed.
abbrev pub IsUnbroken :
    {s : Session} {h out : Bytes} {p : Threads} {c : Client} → Journey s h out p c → Type 0
IsUnbroken loads = Unit {0}
IsUnbroken (reloads j) = Unit {0}
IsUnbroken (passes j more) = IsUnbroken j
IsUnbroken {h = h}
      (visits {out} {during} {q = q} j until_read since_read l found existing last_offset id k tells
        whole) =
    IsUnbroken j × ¬ (Repaints q.session.buffer (h ++ (out ++ during)) existing last_offset)
