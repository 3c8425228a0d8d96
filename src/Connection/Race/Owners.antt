-- ===== src/Connection/Race/Owners.antt =====
-- Every listener that a connection has registered is in the hands of attach or of cleanup.
use web_terminal.Prelude.{
  Bytes, ℕ, ◌≡◌, ◌≢◌, refl, inl, Bool, true, false, Option, none, some, List, [], ◌∷◌, arith, All,
  ◌==◌, ◌⊎◌, if_cases, sym, some_inj, All-append, All-weaken,
}
use web_terminal.Connection.Race.{
  Attaching, idle, swapped, released, registered, Cleaning, waiting, taken, finished, Race, without,
  release, Step, swap, release_old, register, keep, drop_new, take, release_taken, fails, Reach,
  start, later,
}

-- The listener that the loop would detach next: between `old()` and sess.Attach it is none, whatever
-- `detach` still is.
abbrev held : Attaching → Option ℕ → Option ℕ
held idle detach = detach
held (swapped old s) detach = old
held (released s) detach = none
held (registered d s) detach = some d

abbrev in_cleaning : Cleaning → Option ℕ
in_cleaning waiting = none
in_cleaning (taken d) = d
in_cleaning finished = none

abbrev Owned : Race → ℕ → Type 0
Owned r n = (held r.attaching r.detach ≡ some n) ⊎ (in_cleaning r.cleaning ≡ some n)

record Inv (late : Bool) (r : Race) : Type 0 where
  owned : All (Owned r) r.live
  -- with no late hello, cleanup leaves nothing that attach would keep
  closed : late ≡ false → r.cleaning ≢ waiting → (r.current ≡ none) × (r.detach ≡ none)

-- What is owned before a step that removes `n`, and what has to be owned after it.
without-Owned :
    (P Q : ℕ → Type 0) (n : ℕ) (l : List ℕ)
    → ((m : ℕ) → P m → m ≢ n → Q m)
    → All P l
    → All Q (without n l)
unfolding without
without-Owned P Q n [] f v = tt
without-Owned P Q n (m ∷ l) f v =
    if_cases (All Q) (m == n) (without n l) (m ∷ without n l) (λ hit. without-Owned P Q n l f v.1)
      (λ miss. (f m v.0 (ground arith), without-Owned P Q n l f v.1))

release-Owned :
    (P Q : ℕ → Type 0) (d : Option ℕ) (l : List ℕ)
    → ((m : ℕ) → P m → d ≢ some m → Q m)
    → All P l
    → All Q (release d l)
unfolding release
release-Owned P Q none l f v = All-weaken P Q l (λ m p. f m p (λ e. cc)) v
release-Owned P Q (some n) l f v =
    without-Owned P Q n l (λ m p other. f m p (λ e. other (sym (some_inj e)))) v

Step-Inv : {late : Bool} {r q : Race} → Step late r q → Inv late r → Inv late q
Step-Inv {late} {r} (swap session at allowed) v = record {
  owned = All-weaken (Owned r) _ r.live (λ n o. ground arith) v.owned;
  closed = λ early begun. ground arith;
}
Step-Inv {late} {r} (release_old old session at) v = record {
  owned = release-Owned (Owned r) _ old r.live (λ n o other. ground arith) v.owned;
  closed = v.closed;
}
Step-Inv {late} {r} (register session at) v = record {
  owned =
      All-append _ r.live (r.next ∷ [])
        (All-weaken (Owned r) _ r.live (λ n o. ground arith) v.owned) (inl refl, tt);
  closed = v.closed;
}
Step-Inv {late} {r} (keep d session at here) v = record {
  owned = All-weaken (Owned r) _ r.live (λ n o. ground arith) v.owned;
  closed = λ early begun. ground (arith, v.closed early begun);
}
Step-Inv {late} {r} (drop_new d session at gone) v = record {
  owned = without-Owned (Owned r) _ d r.live (λ n o other. ground arith) v.owned;
  closed = v.closed;
}
Step-Inv {late} {r} (take at) v = record {
  owned = All-weaken (Owned r) _ r.live (λ n o. taken_over r.attaching refl n o) v.owned;
  closed = λ early begun. (refl, refl);
}
  where
    taken_over :
        (a : Attaching)
        → r.attaching ≡ a
        → (n : ℕ) → Owned r n
        → (held a none ≡ some n) ⊎ (r.detach ≡ some n)
    taken_over idle e n o = ground arith
    taken_over (swapped old s) e n o = ground arith
    taken_over (released s) e n o = ground arith
    taken_over (registered d s) e n o = ground arith
Step-Inv {late} {r} (release_taken d at) v = record {
  owned = release-Owned (Owned r) _ d r.live (λ n o other. ground arith) v.owned;
  closed = λ early begun. v.closed early (λ e. cc);
}
Step-Inv {late} {r} (fails n) v = record {
  owned = without-Owned (Owned r) _ n r.live (λ m o other. o) v.owned;
  closed = v.closed;
}

Reach-Inv : {late : Bool} {r : Race} → Reach late r → Inv late r
Reach-Inv start = record { owned = tt; closed = λ early begun. (refl, refl) }
Reach-Inv (later reach step) = Step-Inv step (Reach-Inv reach)

none_owned : (P : ℕ → Type 0) (l : List ℕ) → ((n : ℕ) → P n → ⊥) → All P l → l ≡ []
none_owned P [] f v = refl
none_owned P (n ∷ l) f v = absurd (f n v.0)

-- However attach, cleanup and failures of deliveries interleave: whenever no attach is running and
-- cleanup has not begun, every listener of the connection that is registered at a session is the one
-- that `detach` removes.
one_listener :
    {late : Bool} (r : Race)
    → Reach late r
    → r.attaching ≡ idle
    → r.cleaning ≡ waiting
    → All (λ n. r.detach ≡ some n) r.live
one_listener r reach at begun =
    All-weaken (Owned r) (λ n. r.detach ≡ some n) r.live (λ n o. ground arith)
      (Reach-Inv reach).owned

-- If no hello is handled after cleanup has begun: once cleanup and the last attach have finished, in
-- whatever order they interleaved, the connection has no listener registered at any session.
pub no_leak : (r : Race) → Reach false r → r.attaching ≡ idle → r.cleaning ≡ finished → r.live ≡ []
no_leak r reach at over =
    none_owned (Owned r) r.live (λ n o. unowned n ((Reach-Inv reach).closed refl (λ e. cc)).1 o)
      (Reach-Inv reach).owned
  where
    unowned : (n : ℕ) → r.detach ≡ none → Owned r n → ⊥
    unowned n e o = ground arith

-- With a late hello that fails: for every session, cleanup and the attach to that session can both
-- finish and leave a listener registered.
late_hello_leaks :
    (session : Bytes)
    → (r : Race) × Reach true r
      × (r.attaching ≡ idle)
      × (r.cleaning ≡ finished)
      × (r.current ≡ some session)
      × (r.live ≢ [])
unfolding release
late_hello_leaks session = (
  _,
  later
      (later
        (later
          (later (later (later start (take refl)) (release_taken none refl))
            (swap session refl (inl refl)))
          (release_old none session refl))
        (register session refl))
      (keep 0 session refl refl),
  refl,
  refl,
  refl,
  λ e. cc,
)
