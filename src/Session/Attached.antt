-- ===== src/Session/Attached.antt =====
-- A client that attaches to a session: what its delivery writes.
use web_terminal.Prelude.{
  ℕ, suc, ◌+◌, ◌^◌, ◌<◌, ◌≡◌, sym, ap, ◌∙◌, inl, inr, Option, none, some, List, [], ◌∷◌, ◌++◌,
  append-nil, arith, ◌==◌, Bool-cases, Bytes, length, All, All-append, if◌then◌else◌, some_inj,
  subst, drop-append_self,
}
use web_terminal.Replay.History.{Holds}
use web_terminal.Delivery.{running, Phase, draining, writing, returned}
use web_terminal.Delivery.Frames.{Contiguous, payloads, in_flight}
use web_terminal.Delivery.Stream.{Tracks-written, Tracks-running}
use web_terminal.Delivery.Tracks.{Tracks}
use web_terminal.Session.{Listener, Session, Action, receives, attach, acts, new_listener}
use web_terminal.Session.Following.{
  FollowsAt, receives-FollowsAt, turn-FollowsAt, new_listener-FollowsAt, IsFollowing, acts-Flowing,
  produced, Flowing,
}

-- If the listener is the one with the number `n`, it follows the output from `base`.
abbrev pub NumberFollows : ℕ → ℕ → Bytes → Listener → Type 0
NumberFollows n base h l = l.number ≡ n → FollowsAt base h l

pub NumberFollows-IsFollowing : (n base : ℕ) → IsFollowing (NumberFollows n base) (suc n)
unfolding receives
NumberFollows-IsFollowing n base = record {
  grows = λ h chunk l v e. receives-FollowsAt base h chunk l (v e);
  turns = λ h e l v same. turn-FollowsAt base h e l (v same);
  begins = λ h s low same. absurd (omega arith);
}

-- The listener with a number.
unfoldable pub find_listener : ℕ → List Listener → Option Listener
find_listener n [] = none
find_listener n (l ∷ ls) = if l.number == n then some l else find_listener n ls

pub found-All :
    (P : Listener → Type 0) (n : ℕ) (ls : List Listener) (l : Listener)
    → All (λ (k : Listener). k.number ≡ n → P k) ls
    → find_listener n ls ≡ some l
    → P l
unfolding find_listener
found-All P n [] l v e = cc
found-All P n (k ∷ ls) l v e = elim (Bool-cases (k.number == n)) [
  | inl hit ↦ subst P (some_inj (simp hit at e)) (v.0 (ground arith))
  | inr miss ↦ found-All P n ls l v.1 (simp miss at e)
]

below-NumberFollows :
    (n base : ℕ) (h : Bytes) (ls : List Listener)
    → All (λ (l : Listener). l.number < n) ls
    → All (NumberFollows n base h) ls
below-NumberFollows n base h [] v = tt
below-NumberFollows n base h (l ∷ ls) v =
    (λ same. absurd (let below = v.0 in omega arith), below-NumberFollows n base h ls v.1)

-- The frames of a delivery that has written all of a stream.
abbrev pub HasDrained : Listener → Type 0
HasDrained l =
    (l.runner.delivery.state ≡ running)
    × (l.runner.phase ≡ draining)
    × (l.runner.delivery.pending ≡ [])

attach-Flowing :
    (s : Session) (h : Bytes)
    → Holds s.buffer h
    → All (λ (l : Listener). l.number < s.next_listener) s.listeners
    → Flowing
        (NumberFollows s.next_listener (length h))
        (suc s.next_listener)
        (NumberFollows-IsFollowing s.next_listener (length h))
        h
        (attach s)
unfolding attach
attach-Flowing s h holds below = record {
  holds = holds;
  follow =
      All-append (NumberFollows s.next_listener (length h) h) s.listeners (new_listener s ∷ [])
        (below-NumberFollows s.next_listener (length h) h s.listeners below)
        ((λ same. new_listener-FollowsAt h s), tt);
  later = omega arith;
}

pub follows_out :
    {base : ℕ} {out : Bytes} (l : Listener)
    → Tracks base out l.runner
    → Contiguous base l.runner.written
      × ((rest : Bytes) × (payloads l.runner.written ++ rest ≡ out))
      × (HasDrained l → payloads l.runner.written ≡ out)
follows_out {base} {out} l tracks =
    let (contiguous, prefix) = Tracks-written base out l.runner tracks in (contiguous, prefix, all)
  where
    all : HasDrained l → payloads l.runner.written ≡ out
    all (on, idle, none_queued) =
        sym (append-nil (payloads l.runner.written))
        ∙ ap (◌++◌ (payloads l.runner.written)) (sym (empty l.runner.phase idle))
        ∙ Tracks-running base out l.runner tracks on
      where
        empty :
            (phase : Phase)
            → phase ≡ draining
            → payloads (in_flight phase) ++ l.runner.delivery.pending ≡ []
        empty draining e = none_queued
        empty (writing o bs) e = cc
        empty returned e = cc

-- A client attaches to a session whose buffer holds an output and whose listeners have smaller
-- numbers than the next. Under any schedule after that, up to 2 ^ 63 bytes: the buffer holds the
-- whole output, and as long as the listener is there its frames are contiguous from the offset at
-- which it attached, and their bytes are a prefix of what the process has produced since, and all of
-- that when the delivery runs and has nothing queued or in flight.
attached_streams :
    (s : Session) (h : Bytes) (actions : List (ℕ × Action))
    → Holds s.buffer h
    → All (λ (l : Listener). l.number < s.next_listener) s.listeners
    → length h + length (produced (attach s) actions) < 2 ^ 63
    → let t = acts (attach s) actions in
      let out = produced (attach s) actions in
      Holds t.buffer (h ++ out)
      × ((l : Listener)
          → find_listener s.next_listener t.listeners ≡ some l
          → Contiguous (length h) l.runner.written
            × ((rest : Bytes) × (payloads l.runner.written ++ rest ≡ out))
            × (HasDrained l → payloads l.runner.written ≡ out))
attached_streams s h actions holds below fits = (flowing.holds, written)
  where
    base : ℕ
    base = length h

    out : Bytes
    out = produced (attach s) actions

    flowing :
        Flowing
          (NumberFollows s.next_listener (length h))
          (suc s.next_listener)
          (NumberFollows-IsFollowing s.next_listener (length h))
          (h ++ out)
          (acts (attach s) actions)
    flowing =
        acts-Flowing (NumberFollows s.next_listener (length h)) (suc s.next_listener)
          (NumberFollows-IsFollowing s.next_listener (length h)) actions h (attach s)
          (attach-Flowing s h holds below) fits

    written :
        (l : Listener)
        → find_listener s.next_listener (acts (attach s) actions).listeners ≡ some l
        → Contiguous (length h) l.runner.written
          × ((rest : Bytes) × (payloads l.runner.written ++ rest ≡ out))
          × (HasDrained l → payloads l.runner.written ≡ out)
    written l found =
        let (_, tracks) =
          found-All (FollowsAt base (h ++ out)) s.next_listener (acts (attach s) actions).listeners
            l flowing.follow found in
        follows_out l (subst (λ k. Tracks base k l.runner) (drop-append_self h out) tracks)
