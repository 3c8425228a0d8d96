-- ===== src/Shared/Runs.antt =====
-- Runs of the own steps of one connection, built up from the operations that its handlers call.
use web_terminal.Prelude.{
  ℕ, ◌≡◌, refl, ◌∙◌, inl, inr, Bool, true, false, Option, none, some, List, [], ◌∷◌, Bytes, All,
  arith, Bool-cases,
}
use web_terminal.Prelude.Text.{str_eq, str_eq→≡, str_eq_refl}
use web_terminal.Pty.{Options}
use web_terminal.Session.{Session, Action, attach, remove_listener, act}
use web_terminal.Store.{Store, lookup, update, reap, start_session}
use web_terminal.Store.Maps.{lookup-update_other, lookup-update_found}
use web_terminal.Hello.{Conn, detached}
use web_terminal.Shared.{
  Shared, Cause, connection, hello_reaps, starts, attaches_to, detaches_from, uses, Run, here,
  later, own, issue, is_client,
}

-- The listener that a connection shows is its own.
abbrev pub Owns : (Bytes → ℕ → Option ℕ) → ℕ → Option (Bytes × ℕ) → Type 0
Owns owner i none = Unit {0}
Owns owner i (some (id, n)) = owner id n ≡ some i

module _ (spawn : Options → Option ℕ) (env : List Bytes) where
  -- A run of a connection's own steps that ends with a store, and with what the connection shows.
  pub record IsRun (w : Shared) (i : ℕ) (st : Store) (c : Conn) : Type 0 where
    pub owner : Bytes → ℕ → Option ℕ
    pub issued : Bytes → Bool
    pub causes : List Cause
    pub run : Run spawn env w causes (record { store = st; owner = owner; issued = issued })
    pub alone : All (λ k. k ≡ connection i) causes
    pub owns : Owns owner i c.current

  unfoldable pub nothing_done :
      (w : Shared) (i : ℕ) (c : Conn) → Owns w.owner i c.current → IsRun w i w.store c
  nothing_done w i c v = record {
    owner = w.owner;
    issued = w.issued;
    causes = [];
    run = here;
    alone = tt;
    owns = v;
  }

  module _ {w : Shared} {i : ℕ} {st : Store} {c : Conn} (r : IsRun w i st c) where
    unfoldable pub then_reaps : (now : ℕ) → IsRun w i (reap st now).0 c
    then_reaps now = record {
      owner = r.owner;
      issued = r.issued;
      causes = connection i ∷ r.causes;
      run = later r.run (hello_reaps i now);
      alone = (refl, r.alone);
      owns = r.owns;
    }

    pub then_uses :
        (now : ℕ) (id : Bytes) (a : Action)
        → is_client a ≡ true
        → IsRun w i (record st { sessions = update id (λ s. act s now a) st.sessions }) c
    then_uses now id a client = record {
      owner = r.owner;
      issued = r.issued;
      causes = connection i ∷ r.causes;
      run = later r.run (uses i now id a client);
      alone = (refl, r.alone);
      owns = r.owns;
    }

    pub then_starts :
        (now : ℕ) (id : Bytes) (command : List Bytes) (cols rows : ℕ) (title : Bytes) (s : Session)
        (st' : Store)
        → r.issued id ≡ false
        → start_session spawn env st id now command cols rows title ≡ some (s, st')
        → IsRun w i st' c
    then_starts now id command cols rows title s st' fresh e = record {
      owner = r.owner;
      issued = issue id r.issued;
      causes = connection i ∷ r.causes;
      run = later r.run (starts i now id command cols rows title s st' fresh e);
      alone = (refl, r.alone);
      owns = r.owns;
    }

    pub then_detaches :
        (now : ℕ) (id : Bytes) (n : ℕ)
        → r.owner id n ≡ some i
        → IsRun w i
            (record st { sessions = update id (λ s. remove_listener s now n) st.sessions })
            c
    then_detaches now id n mine = record {
      owner = r.owner;
      issued = r.issued;
      causes = connection i ∷ r.causes;
      run = later r.run (detaches_from i now id n mine);
      alone = (refl, r.alone);
      owns = r.owns;
    }

    pub then_attaches :
        (id : Bytes) (s : Session)
        → lookup id st.sessions ≡ some s
        → IsRun w i
            (record st { sessions = update id attach st.sessions })
            (record { current = some (id, s.next_listener) })
    then_attaches id s there = record {
      owner = own id s.next_listener i r.owner;
      issued = r.issued;
      causes = connection i ∷ r.causes;
      run = later r.run (attaches_to i id s there);
      alone = (refl, r.alone);
      owns = ground (arith, str_eq_refl id);
    }

    pub then_shows_none : IsRun w i st (record { current = none })
    then_shows_none = record {
      owner = r.owner;
      issued = r.issued;
      causes = r.causes;
      run = r.run;
      alone = r.alone;
      owns = tt;
    }

  pub then_leaves :
      {w : Shared} {i : ℕ} {st : Store} (current : Option (Bytes × ℕ)) (now : ℕ)
      → IsRun w i st (record { current = current })
      → IsRun w i
          (record st { sessions = detached now current st.sessions })
          (record { current = current })
  unfolding detached
  then_leaves none now r = r
  then_leaves (some (id, n)) now r = then_detaches r now id n r.owns

  pub lookup-detached :
      (now : ℕ) (current : Option (Bytes × ℕ)) (id : Bytes) (s : Session)
      (m : List (Bytes × Session))
      → lookup id m ≡ some s
      → (t : Session) × (lookup id (detached now current m) ≡ some t)
        × (t.next_listener ≡ s.next_listener)
  unfolding detached
  lookup-detached now none id s m e = (s, e, refl)
  lookup-detached now (some (j, n)) id s m e = elim (Bool-cases (str_eq j id)) [
    | inl hit ↦ (
      remove_listener s now n,
      lookup-update_found j id _ m s (str_eq→≡ j id hit) e,
      unfold remove_listener in ground arith,
    )
    | inr miss ↦ (s, lookup-update_other j id _ m miss ∙ e, refl)
  ]
