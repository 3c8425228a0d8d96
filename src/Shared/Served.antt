-- ===== src/Shared/Served.antt =====
-- A connection keeps its client's session: nothing that other connections, the reaper or the
-- processes do takes it or the connection's listener away, as long as the process runs.
use web_terminal.Prelude.{
  ℕ, ◌≡◌, ◌≢◌, ◌<◌, refl, sym, ap, ap₂, ◌∙◌, inl, inr, true, false, ◌||◌, Option, some, List, Bytes,
  All, arith, some_inj, Bool-cases,
}
use web_terminal.Prelude.Text.{str_eq, str_eq→≡}
use web_terminal.Pty.{Options}
use web_terminal.Session.{Session, Action, exits_now, new_listener, attach, remove_listener, act}
use web_terminal.Session.Exits.{numbers, numbers-snoc, has, has-snoc}
use web_terminal.Store.{lookup}
use web_terminal.Store.Maps.{lookup-insert}
use web_terminal.Shared.{
  Shared, Cause, connection, process, Step, hello_reaps, tick, starts, attaches_to, attaches_late,
  detaches_from, uses, goes_on, Run, here, later, own, at_session, is_client, is_process,
}
use web_terminal.Shared.Owned.{IsSound, act-quiet}
use web_terminal.Shared.Sound.{start_session-new, Step-IsSound}
use web_terminal.Shared.Spared.{
  IsServed, has-delete_other, alive-act, at_session-IsServed, reap-IsServed,
}

module _ {w : Shared} (id : Bytes) (n i : ℕ) (sound : IsSound w)
    (mine : w.owner id n ≡ some i) where
  -- The listener that an attach makes is another one.
  still_mine :
      (j : Bytes) (k : ℕ) (s : Session)
      → lookup j w.store.sessions ≡ some s
      → own j s.next_listener k w.owner id n ≡ some i
  still_mine j k s there = elim (Bool-cases (str_eq j id)) [
    | inl hit ↦ ground (arith, mine, newer (str_eq→≡ j id hit))
    | inr miss ↦ rw miss mine
  ]
    where
      newer : j ≡ id → n < s.next_listener
      newer same =
          (sound.each id s (ap (λ k. lookup k w.store.sessions) (sym same) ∙ there)).low n i mine

  -- A listener stays with its connection.
  pub Step-owner :
      (spawn : Options → Option ℕ) (env : List Bytes) {c : Cause} {u : Shared}
      → Step spawn env w c u
      → u.owner id n ≡ some i
  Step-owner spawn env (hello_reaps k now) = mine
  Step-owner spawn env (tick now) = mine
  Step-owner spawn env (starts k now j command cols rows title s st fresh e) = mine
  Step-owner spawn env (attaches_late k j gone) = mine
  Step-owner spawn env (attaches_to k j s there) = still_mine j k s there
  Step-owner spawn env (detaches_from k now j m theirs) = mine
  Step-owner spawn env (uses k now j a client) = mine
  Step-owner spawn env (goes_on now j a process_does) = mine

module _ (spawn : Options → Option ℕ) (env : List Bytes) {w : Shared} (id : Bytes) (n i : ℕ)
    (sound : IsSound w) (mine : w.owner id n ≡ some i) (v : IsServed w.store id n) where
  another_id : (j : Bytes) → w.issued j ≡ false → str_eq j id ≡ false
  another_id j fresh = elim (Bool-cases (str_eq j id)) [
    | inl hit ↦ ground (arith, str_eq→≡ j id hit, fresh, (sound.each id v.session v.there).given)
    | inr miss ↦ miss
  ]

  another_number :
      (k : ℕ) (j : Bytes) (m : ℕ)
      → connection k ≢ connection i
      → w.owner j m ≡ some k
      → j ≡ id
      → m ≢ n
  another_number k j m others theirs same e =
      others (ap connection (some_inj (sym theirs ∙ ap₂ w.owner same e ∙ mine)))

  exit_is_no_use : false ≡ true → ⊥
  exit_is_no_use e = cc

  quietly :
      (now : ℕ) (j : Bytes) (a : Action)
      → is_client a || is_process a ≡ true
      → (j ≡ id → a ≢ exits_now)
      → IsServed (at_session j (λ s. act s now a) w).store id n
  quietly now j a quiet on =
      at_session-IsServed w id n v j (λ s. act s now a)
        (λ same. alive-act v.session now a quiet (on same) ∙ v.runs)
        (λ same. ap (has n) ((act-quiet v.session now a quiet).2) ∙ v.registered)

  -- A step that is neither the connection's own nor the exit of the process.
  Step-IsServed :
      {c : Cause} {u : Shared}
      → c ≢ connection i
      → c ≢ process id exits_now
      → Step spawn env w c u
      → IsServed u.store id n × (u.owner id n ≡ some i)
  unfolding attach remove_listener
  Step-IsServed others runs (hello_reaps k now) = (reap-IsServed w id n v now sound, mine)
  Step-IsServed others runs (tick now) = (reap-IsServed w id n v now sound, mine)
  Step-IsServed others runs (starts k now j command cols rows title s st fresh e) =
      let (same, _, _, _) =
        start_session-new spawn env w.store j now command cols rows title s st e in
      (
        record {
          session = v.session;
          there =
              ap (λ k. lookup id k.sessions) same
              ∙ lookup-insert j id s w.store.sessions
              ∙ rw (another_id j fresh) v.there;
          runs = v.runs;
          registered = v.registered;
        },
        mine,
      )
  Step-IsServed others runs (attaches_late k j gone) = (v, mine)
  Step-IsServed others runs (attaches_to k j s there) =
      let u =
        at_session-IsServed w id n v j attach (λ same. v.runs)
          (λ same. ground (
            arith,
            numbers-snoc v.session.listeners (new_listener v.session),
            has-snoc n v.session.next_listener (numbers v.session.listeners),
            v.registered,
          )) in
      (
        record { session = u.session; there = u.there; runs = u.runs; registered = u.registered },
        still_mine id n i sound mine j k s there,
      )
  Step-IsServed others runs (detaches_from k now j m theirs) = (
    at_session-IsServed w id n v j (λ s. remove_listener s now m) (λ same. ground (arith, v.runs))
        (λ same. ground (
          arith,
          has-delete_other n m v.session.listeners (another_number k j m others theirs same)
              v.registered,
        )),
    mine,
  )
  Step-IsServed others runs (uses k now j a client) = (
    quietly now j a (rw client refl) (λ same e. exit_is_no_use (ap is_client (sym e) ∙ client)),
    mine,
  )
  Step-IsServed others runs (goes_on now j a process_does) =
      (quietly now j a (ground arith) (λ same e. runs (ap₂ process same e)), mine)

module _ (spawn : Options → Option ℕ) (env : List Bytes) {w : Shared} (id : Bytes) (n i : ℕ) where
  -- The store is sound; the listener `n` of the session `id`, whose process runs, is registered and the
  -- connection `i`'s. In any run without a step of that connection and without the exit of that
  -- process: the session stays in the store, its process runs, the listener stays registered and
  -- the connection's, and the store stays sound.
  pub listener_kept :
      {cs : List Cause} {u : Shared}
      → IsSound w
      → w.owner id n ≡ some i
      → IsServed w.store id n
      → Run spawn env w cs u
      → All (λ c. (c ≢ connection i) × (c ≢ process id exits_now)) cs
      → IsSound u × IsServed u.store id n × (u.owner id n ≡ some i)
  listener_kept sound mine v here others = (sound, v, mine)
  listener_kept sound mine v (later run step) ((not_mine, runs), others) =
      let (sound', v', mine') = listener_kept sound mine v run others in
      let (still, owned) = Step-IsServed spawn env id n i sound' mine' v' not_mine runs step in
      (Step-IsSound spawn env sound' step, still, owned)
