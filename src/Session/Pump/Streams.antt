-- ===== src/Session/Pump/Streams.antt =====
-- A client that attaches while the pump is anywhere in its loop.
use web_terminal.Prelude.{
  ℕ, suc, ◌+◌, ◌^◌, ◌≤◌, ◌<◌, ◌≡◌, refl, sym, ap, ◌∙◌, some, List, [], ◌∷◌, ◌++◌, append-nil,
  append_assoc, arith, Bytes, length, All, All-append, All-weaken, subst, length-append,
}
use web_terminal.Replay.History.{Holds}
use web_terminal.Session.{Listener, Session, attaches, attach, act, new_listener}
use web_terminal.Session.Following.{IsFollowing}
use web_terminal.Session.Attached.{
  NumberFollows, NumberFollows-IsFollowing, find_listener, found-All,
}
use web_terminal.Session.Pump.{reading, Threads, Run}
use web_terminal.Session.Pump.Rising.{Rising, Rising-below, act-Rising}
use web_terminal.Session.Pump.Flow.{pending, InPlace-later, At, Underway}
use web_terminal.Session.Pump.Stages.{Run-Underway}
use web_terminal.Session.Pump.Place.{
  base_at, base_at-le, new_listener-At, Reached, IsStreamed, Reached-IsStreamed,
}

-- Nothing is asked of a listener.
abbrev Anything : Bytes → Listener → Type 0
Anything h l = Unit {0}

Anything-IsFollowing : IsFollowing Anything 0
Anything-IsFollowing = record {
  grows = λ h chunk l v. tt;
  turns = λ h e l v. tt;
  begins = λ h s low. tt;
}

-- A session with an output and rising numbers, and a run of it up to an attach.
module _ (s : Session) (h : Bytes) (holds : Holds s.buffer h) (rising : Rising s) {out : Bytes}
    {p : Threads} (before : Run (record { session = s; pump = reading }) out p) where
  -- The same moment, just after the attach.
  abbrev pub attached_at : Threads
  attached_at = record p { session = attach p.session }

  started : Underway Anything 0 Anything-IsFollowing h (record { session = s; pump = reading })
  started = record {
    holds = subst (Holds s.buffer) (sym (append-nil h)) holds;
    follow = anything s.listeners;
    later = omega arith;
    rising = rising;
    place = tt;
  }
    where
      anything : (ls : List Listener) → All (At Anything 0 Anything-IsFollowing h reading) ls
      anything [] = tt
      anything (l ∷ ls) = (((λ b. tt), (λ b. tt)), anything ls)

  attach-Underway :
      (d : Bytes)
      → Underway Anything 0 Anything-IsFollowing d p
      → Underway
          (NumberFollows p.session.next_listener (base_at d p.pump))
          (suc p.session.next_listener)
          (NumberFollows-IsFollowing p.session.next_listener (base_at d p.pump))
          d
          attached_at
  unfolding act attach
  attach-Underway d v =
      let (new_waits, new_served) = new_listener-At d p.pump p.session v.place in
      record {
        holds = v.holds;
        follow =
            All-append _ p.session.listeners (new_listener p.session ∷ [])
              (All-weaken (λ (l : Listener). l.number < p.session.next_listener) _
                p.session.listeners
                (λ l low. ((λ b same. absurd (omega arith)), (λ b same. absurd (omega arith))))
                (Rising-below p.session v.rising))
              (((λ b same. new_waits b), (λ b same. new_served b)), tt);
        later = omega arith;
        rising = (act-Rising p.session 0 attaches refl v.rising).0;
        place =
            InPlace-later d p.session.next_listener (p.session.next_listener + 1) p.pump
              (omega arith) v.place;
      }

  -- From the place of the pump at the attach.
  attached_in_place :
      (d : Bytes) {more : Bytes} {q : Threads}
      → d ++ pending p.pump ≡ h ++ out
      → Underway Anything 0 Anything-IsFollowing d p
      → Run attached_at more q
      → length h + length out + length more < 2 ^ 63
      → let whole = h ++ (out ++ more) in
        Holds q.session.buffer whole
        × ((l : Listener)
            → find_listener p.session.next_listener q.session.listeners ≡ some l
            → IsStreamed (base_at d p.pump) whole q.pump l)
  attached_in_place d {more} {q} e v after fits =
      let (d', e', w) =
        Run-Underway (NumberFollows p.session.next_listener (base_at d p.pump))
          (suc p.session.next_listener)
          (NumberFollows-IsFollowing p.session.next_listener (base_at d p.pump)) d after
          (omega (arith, ap length e, length-append h out)) (attach-Underway d v) in
      whole_of d' (e' ∙ ap (λ k. k ++ more) e ∙ append_assoc h out more) w
    where
      whole_of :
          (d' : Bytes)
          → d' ++ pending q.pump ≡ h ++ (out ++ more)
          → Underway
              (NumberFollows p.session.next_listener (base_at d p.pump))
              (suc p.session.next_listener)
              (NumberFollows-IsFollowing p.session.next_listener (base_at d p.pump))
              d'
              q
          → Holds q.session.buffer (h ++ (out ++ more))
            × ((l : Listener)
                → find_listener p.session.next_listener q.session.listeners ≡ some l
                → IsStreamed (base_at d p.pump) (h ++ (out ++ more)) q.pump l)
      whole_of d' same w = (
        subst (Holds q.session.buffer) same w.holds,
        λ l found.
            subst (λ k. IsStreamed (base_at d p.pump) k q.pump l) same
              (Reached-IsStreamed (base_at d p.pump) d' q.pump l (
                found-All (Reached (base_at d p.pump) d' q.pump) p.session.next_listener
                  q.session.listeners l
                  (All-weaken
                    (At (NumberFollows p.session.next_listener (base_at d p.pump))
                      (suc p.session.next_listener)
                      (NumberFollows-IsFollowing p.session.next_listener (base_at d p.pump)) d'
                      q.pump)
                    (λ (k : Listener).
                      k.number ≡ p.session.next_listener → Reached (base_at d p.pump) d' q.pump k)
                    q.session.listeners
                    (λ k (waits, served) at. ((λ b. waits b at), (λ b. served b at))) w.follow)
                  found)),
      )

  -- A client attaches at any moment of the loop of the pump: between the append of a chunk to the
  -- buffer, the copy of the listeners, and any of its enqueues. Whatever happens before and after
  -- that, in any order, with fewer than 2 ^ 63 bytes in all: the buffer holds the whole output, and as long as the
  -- listener is there its frames are contiguous from an offset that was at most the end of the output
  -- when it attached; their bytes are a prefix of the whole output from that offset on, and all of
  -- that when the pump is in a read, the delivery runs, and it has nothing queued or in flight.
  pub attached_anytime :
      {more : Bytes} {q : Threads}
      → Run attached_at more q
      → length h + length out + length more < 2 ^ 63
      → let whole = h ++ (out ++ more) in
        Holds q.session.buffer whole
        × ((l : Listener)
            → find_listener p.session.next_listener q.session.listeners ≡ some l
            → (base : ℕ) × (base ≤ length (h ++ out)) × IsStreamed base whole q.pump l)
  attached_anytime {more} {q} after fits =
      let (d, e, v) =
        Run-Underway Anything 0 Anything-IsFollowing h before (omega (arith, length-append h []))
          started in
      let at_attach : d ++ pending p.pump ≡ h ++ out = e ∙ ap (λ k. k ++ out) (append-nil h) in
      let (kept, streamed) = attached_in_place d at_attach v after fits in
      (
        kept,
        λ l found. (
          base_at d p.pump,
          omega (arith, base_at-le d p.pump, ap length at_attach),
          streamed l found,
        ),
      )
