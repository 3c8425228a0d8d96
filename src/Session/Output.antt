-- ===== src/Session/Output.antt =====
-- The output of a session's process, as its replay buffer and its listeners have it.
use web_terminal.Prelude.{ℕ, ◌^◌, ◌<◌, ◌≡◌, List, [], arith, Bytes, length, All}
use web_terminal.Replay.History.{Holds}
use web_terminal.Session.{Listener, Session, Action, acts}
use web_terminal.Session.Following.{
  FollowsAt, receives-FollowsAt, turn-FollowsAt, new_listener-FollowsAt, IsFollowing, acts-Flowing,
  produced,
}

-- The listener's delivery follows the output from some offset of it.
abbrev pub Follows : Bytes → Listener → Type 0
Follows h l = (base : ℕ) × FollowsAt base h l

-- The buffer holds the output `h`, and every listener follows it.
pub record Streaming (h : Bytes) (s : Session) : Type 0 where
  pub holds : Holds s.buffer h
  pub follow : All (Follows h) s.listeners

Follows-IsFollowing : IsFollowing Follows 0
Follows-IsFollowing = record {
  grows = λ h chunk l v. (v.0, receives-FollowsAt v.0 h chunk l v.1);
  turns = λ h e l v. (v.0, turn-FollowsAt v.0 h e l v.1);
  begins = λ h s low. (length h, new_listener-FollowsAt h s);
}

-- Under any schedule of a session with no output and no client so far, whose process produces fewer
-- than 2 ^ 63 bytes: the buffer holds the last bytes of all that the process produced, and the
-- delivery of every listener still attached tracks that output from some offset of it on.
session_streams :
    (s : Session) (actions : List (ℕ × Action))
    → s.listeners ≡ []
    → Holds s.buffer []
    → length (produced s actions) < 2 ^ 63
    → Streaming (produced s actions) (acts s actions)
session_streams s actions none_yet empty f =
    let v =
      acts-Flowing Follows 0 Follows-IsFollowing actions [] s
        (record { holds = empty; follow = rw none_yet tt; later = omega arith }) (omega arith) in
    record { holds = v.holds; follow = v.follow }
