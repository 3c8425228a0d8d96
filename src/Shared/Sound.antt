-- ===== src/Shared/Sound.antt =====
-- Every step of the server keeps its sessions and their owners sound.
use web_terminal.Prelude.{
  ℕ, ◌≡◌, refl, sym, ap, ◌∙◌, inl, inr, true, false, Option, none, some, List, [], Bytes, arith,
  some_inj, Bool-cases, subst,
}
use mathlib.Core.Option
use web_terminal.Prelude.Text.{str_eq, str_eq→≡, str_eq_refl}
use web_terminal.Pty.{Options}
use web_terminal.Session.{Session, attach, remove_listener, act}
use web_terminal.Session.Idle.{IsIdleWell}
use web_terminal.Store.{Store, lookup, insert, new_session, update, start_session, reap}
use web_terminal.Store.Maps.{
  lookup-update_other, Unique-update, Unique-insert, lookup-insert, lookup-update,
}
use web_terminal.Store.Reaping.{Unique-reap, lookup-reap, kept, kept-inv}
use web_terminal.Shared.{
  new_shared, Run, here, later, Cause, Step, hello_reaps, tick, starts, attaches_to, attaches_late,
  detaches_from, uses, goes_on, Shared, own, issue, at_session,
}
use web_terminal.Shared.Owned.{
  IsOwned, IsSound, act-IsOwned, remove_listener-IsOwned, attach-IsOwned,
}

-- The sessions, after an operation on one of them that leaves the others and their owners alone.
at_session-IsSound :
    (w : Shared) (id : Bytes) (f : Session → Session) (owner : Bytes → ℕ → Option ℕ)
    → IsSound w
    → ((s : Session)
        → lookup id w.store.sessions ≡ some s
        → IsOwned w.owner w.issued id s
        → IsOwned owner w.issued id (f s))
    → ((j : Bytes) (n : ℕ) → str_eq id j ≡ false → owner j n ≡ w.owner j n)
    → ((j : Bytes) (n i : ℕ) → owner j n ≡ some i → w.issued j ≡ true)
    → IsSound (record (at_session id f w) { owner = owner })
at_session-IsSound w id f owner v one others known = record {
  unique = Unique-update id f w.store.sessions v.unique;
  each = λ j s e. elim (Bool-cases (str_eq id j)) [
    | inl hit ↦ here j s (str_eq→≡ id j hit) e
    | inr miss ↦
        elsewhere j s miss (v.each j s (sym (lookup-update_other id j f w.store.sessions miss) ∙ e))
  ];
  known = known;
}
  where
    found :
        (o : Option Session) (t : Session)
        → lookup id w.store.sessions ≡ o
        → Option.map f o ≡ some t
        → IsOwned owner w.issued id t
    found none t there e = cc
    found (some s) t there e =
        subst (IsOwned owner w.issued id) (some_inj e) (one s there (v.each id s there))

    here :
        (j : Bytes) (s : Session)
        → id ≡ j
        → lookup j (update id f w.store.sessions) ≡ some s
        → IsOwned owner w.issued j s
    here j s same e =
        subst (λ k. IsOwned owner w.issued k s) same
          (found (lookup id w.store.sessions) s refl (
            sym (lookup-update id f w.store.sessions)
            ∙ ap (λ k. lookup k (update id f w.store.sessions)) same
            ∙ e))

    elsewhere :
        (j : Bytes) (s : Session)
        → str_eq id j ≡ false
        → IsOwned w.owner w.issued j s
        → IsOwned owner w.issued j s
    elsewhere j s miss u = record {
      keyed = u.keyed;
      idle = u.idle;
      rising = u.rising;
      given = u.given;
      low = λ n i e. u.low n i (sym (others j n miss) ∙ e);
      owned = λ n h e. u.owned n h (sym (others j n miss) ∙ e);
    }

reap-IsSound :
    (w : Shared) (now : ℕ) → IsSound w → IsSound (record w { store = (reap w.store now).0 })
unfolding reap
reap-IsSound w now v = record {
  unique = Unique-reap now w.store.idle_grace w.store.sessions v.unique;
  each = λ id s e.
      stayed id s (lookup id w.store.sessions) refl (sym (lookup-reap w.store now id v.unique) ∙ e);
  known = v.known;
}
  where
    stayed :
        (id : Bytes) (s : Session) (o : Option Session)
        → lookup id w.store.sessions ≡ o
        → kept now w.store.idle_grace o ≡ some s
        → IsOwned w.owner w.issued id s
    stayed id s none there e = cc
    stayed id s (some t) there e =
        let (same, _, _) = kept-inv now w.store.idle_grace t s e in
        v.each id s (there ∙ ap some same)

insert-IsSound :
    (w : Shared) (id : Bytes) (s : Session)
    → IsSound w
    → w.issued id ≡ false
    → (s.id ≡ id) × (s.listeners ≡ []) × IsIdleWell s
    → IsSound (record w {
      store = record (w.store) { sessions = insert id s w.store.sessions };
      issued = issue id w.issued;
    })
insert-IsSound w id s v fresh (named, none_yet, idle) = record {
  unique = Unique-insert id s w.store.sessions v.unique;
  each = λ j t e. elim (Bool-cases (str_eq id j)) [
    | inl hit ↦
        subst (IsOwned w.owner (issue id w.issued) j)
          (some_inj (ground (arith, lookup-insert id j s w.store.sessions)))
          (new j (str_eq→≡ id j hit))
    | inr miss ↦ old j t (v.each j t (ground (arith, lookup-insert id j s w.store.sessions)))
  ];
  known = λ j n i e. ground (arith, v.known j n i e);
}
  where
    no_listener : false ≡ true → ⊥
    no_listener e = cc

    new : (j : Bytes) → id ≡ j → IsOwned w.owner (issue id w.issued) j s
    new j same =
        subst (λ k. IsOwned w.owner (issue id w.issued) k s) same
          (record {
            keyed = named;
            idle = idle;
            rising = rw none_yet (omega arith);
            given = ground (arith, str_eq_refl id);
            low = λ n i e. absurd (ground (arith, v.known id n i e));
            owned = λ n h. absurd (no_listener (simp none_yet at h));
          })

    old :
        (j : Bytes) (t : Session)
        → IsOwned w.owner w.issued j t
        → IsOwned w.owner (issue id w.issued) j t
    old j t u = record {
      keyed = u.keyed;
      idle = u.idle;
      rising = u.rising;
      given = ground (arith, u.given);
      low = u.low;
      owned = u.owned;
    }

module _ (spawn : Options → Option ℕ) (env : List Bytes) where
  pub start_session-new :
      (st : Store) (id : Bytes) (now : ℕ) (command : List Bytes) (cols rows : ℕ) (title : Bytes)
      (s : Session) (st' : Store)
      → start_session spawn env st id now command cols rows title ≡ some (s, st')
      → (st' ≡ record st { sessions = insert id s st.sessions })
        × (s.id ≡ id)
        × (s.listeners ≡ [])
        × IsIdleWell s
  unfolding start_session new_session
  start_session-new st id now command cols rows title s st' e = ground (arith, e)

  -- Every step keeps the store sound.
  pub Step-IsSound : {w u : Shared} {c : Cause} → IsSound w → Step spawn env w c u → IsSound u
  Step-IsSound {w} v (hello_reaps i now) = reap-IsSound w now v
  Step-IsSound {w} v (tick now) = reap-IsSound w now v
  Step-IsSound {w} v (starts i now id command cols rows title s st fresh e) =
      let (same, named, none_yet, idle) =
        start_session-new w.store id now command cols rows title s st e in
      rw same (insert-IsSound w id s v fresh (named, none_yet, idle))
  Step-IsSound v (attaches_late i id gone) = v
  Step-IsSound {w} v (attaches_to i id s there) =
      at_session-IsSound w id attach (own id s.next_listener i w.owner) v
        (λ t e u.
          subst (λ k. IsOwned (own id k.next_listener i w.owner) w.issued id (attach t))
            (some_inj (sym e ∙ there)) (attach-IsOwned w.owner w.issued id t u i))
        (λ j n miss. rw miss refl)
        (λ j n k e. ground (arith, v.known j n k, str_eq→≡ id j, (v.each id s there).given))
  Step-IsSound {w} v (detaches_from i now id n e) =
      at_session-IsSound w id (λ s. remove_listener s now n) w.owner v
        (λ s e u. remove_listener-IsOwned w.owner w.issued id s u now n) (λ j n miss. refl) v.known
  Step-IsSound {w} v (uses i now id a client) =
      at_session-IsSound w id (λ s. act s now a) w.owner v
        (λ s e u. act-IsOwned w.owner w.issued id s u now a (rw client refl)) (λ j n miss. refl)
        v.known
  Step-IsSound {w} v (goes_on now id a runs) =
      at_session-IsSound w id (λ s. act s now a) w.owner v
        (λ s e u. act-IsOwned w.owner w.issued id s u now a (ground arith)) (λ j n miss. refl)
        v.known

  -- A server starts with no session. Whatever its connections, the reaper and the processes do, in
  -- any order: no two sessions have one id and each is stored under its own; a session has an idle time
  -- exactly when it has no listener; its listeners' numbers rise; and each of its listeners was
  -- attached by a connection.
  pub Run-IsSound :
      (st : Store) {cs : List Cause} {u : Shared}
      → st.sessions ≡ []
      → Run spawn env (new_shared st) cs u
      → IsSound u
  unfolding lookup
  Run-IsSound st none_yet here = record {
    unique = rw none_yet tt;
    each = λ id s e. absurd (none-some (simp none_yet at e));
    known = λ id n i e. absurd (none-some e);
  }
    where
      none-some : {A : Type 0} {a : A} → none ≡ some a → ⊥
      none-some e = cc
  Run-IsSound st none_yet (later run step) = Step-IsSound (Run-IsSound st none_yet run) step
