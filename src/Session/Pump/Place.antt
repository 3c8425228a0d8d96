-- ===== src/Session/Pump/Place.antt =====
-- Where a listener stands that is attached while the pump is anywhere in its loop.
use web_terminal.Prelude.{
  ℕ, ◌-◌, ◌≤◌, ◌≡◌, sym, ap, ◌∙◌, inl, inr, true, false, [], ◌++◌, append-nil, append_assoc, arith,
  Bool-cases, Bytes, length, drop, subst, length-append, drop-append,
}
use web_terminal.Delivery.Frames.{Contiguous, payloads}
use web_terminal.Session.{Listener, Session, new_listener}
use web_terminal.Session.Exits.{not_has_above}
use web_terminal.Session.Following.{FollowsAt, new_listener-FollowsAt}
use web_terminal.Session.Attached.{HasDrained, follows_out}
use web_terminal.Session.Pump.{Pumping, reading, appended, copied}
use web_terminal.Session.Pump.Flow.{pending, awaits, InPlace}

-- Where the frames of a listener begin that is attached after the output `d` and the chunk after it.
abbrev pub base_at : Bytes → Pumping → ℕ
base_at d reading = length d
base_at d (appended o chunk) = length d
base_at d (copied o chunk targets) = length (d ++ chunk)

pub base_at-le : (d : Bytes) (pump : Pumping) → base_at d pump ≤ length (d ++ pending pump)
base_at-le d reading = omega (arith, length-append d [])
base_at-le d (appended o chunk) = omega (arith, length-append d chunk)
base_at-le d (copied o chunk targets) = omega arith

-- The new listener, wherever the pump is.
pub new_listener-At :
    (d : Bytes) (pump : Pumping) (s : Session)
    → InPlace d s.next_listener pump
    → (awaits s.next_listener pump ≡ true → FollowsAt (base_at d pump) d (new_listener s))
      × (awaits s.next_listener pump ≡ false
          → FollowsAt (base_at d pump) (d ++ pending pump) (new_listener s))
new_listener-At d reading s v = (
  (λ b. cc),
  (λ b.
      subst (λ k. FollowsAt (length d) k (new_listener s)) (sym (append-nil d))
        (new_listener-FollowsAt d s)),
)
new_listener-At d (appended o chunk) s v = ((λ b. new_listener-FollowsAt d s), (λ b. cc))
new_listener-At d (copied o chunk targets) s (same, (lo, hi, rising, high)) = (
  (λ b. absurd (ground (arith, not_has_above s.next_listener lo hi targets rising high, b))),
  (λ b. new_listener-FollowsAt (d ++ chunk) s),
)

module _ (base : ℕ) where
  -- What one listener has, given by the output before the chunk that the pump has in hand.
  abbrev pub Reached : Bytes → Pumping → Listener → Type 0
  Reached d pump l =
      (awaits l.number pump ≡ true → FollowsAt base d l)
      × (awaits l.number pump ≡ false → FollowsAt base (d ++ pending pump) l)

  abbrev pub IsStreamed : Bytes → Pumping → Listener → Type 0
  IsStreamed whole pump l =
      Contiguous base l.runner.written
      × ((rest : Bytes) × (payloads l.runner.written ++ rest ≡ drop base whole))
      × (pump ≡ reading → HasDrained l → payloads l.runner.written ≡ drop base whole)

  pub Reached-IsStreamed :
      (d : Bytes) (pump : Pumping) (l : Listener)
      → Reached d pump l
      → IsStreamed (d ++ pending pump) pump l
  Reached-IsStreamed d pump l (waits, served) = elim (Bool-cases (awaits l.number pump)) [
    | inl b ↦ behind b (waits b)
    | inr b ↦
        let (contiguous, prefix, all) = follows_out l (served b).1 in
        (contiguous, prefix, λ at drained. all drained)
  ]
    where
      behind :
          awaits l.number pump ≡ true → FollowsAt base d l → IsStreamed (d ++ pending pump) pump l
      behind b (within, tracks) =
          let (contiguous, (rest, cut), all) = follows_out l tracks in
          (
            contiguous,
            (
              rest ++ pending pump,
              sym (append_assoc (payloads l.runner.written) rest (pending pump))
                  ∙ ap (λ k. k ++ pending pump) cut
                  ∙ ap (λ k. drop base d ++ drop k (pending pump)) (none_before within)
                  ∙ sym (drop-append base d (pending pump)),
            ),
            λ at drained. absurd (true-false (sym b ∙ ap (awaits l.number) at)),
          )
        where
          true-false : true ≡ false → ⊥
          true-false e = cc

          none_before : base ≤ length d → 0 ≡ base - length d
          none_before le = omega arith
