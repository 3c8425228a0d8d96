-- ===== src/Shared/Spared.antt =====
-- What an operation on one session, and a reap, leave of a session that a connection is served.
use web_terminal.Prelude.{
  ℕ, ◌≡◌, ◌≢◌, refl, ap, ◌∙◌, inl, inr, true, false, ◌||◌, some, List, [], ◌∷◌, Bytes, arith,
  Bool-cases,
}
use web_terminal.Prelude.Int.{ℤ}
use web_terminal.Prelude.Text.{str_eq, str_eq→≡}
use web_terminal.Session.{
  Listener, Session, Action, outputs, exits_now, attaches, detaches, client_closes, reaps, writes,
  resizes, delivers, delete, act, pump_chunk, fanout, mark_client_closed, write, resize,
  kill_if_idle, idle_for,
}
use web_terminal.Session.Exits.{numbers, has}
use web_terminal.Session.Idle.{IsIdleWell}
use web_terminal.Store.{Store, lookup, reap}
use web_terminal.Store.Maps.{lookup-update_other, lookup-update_found}
use web_terminal.Store.Reaping.{kept, lookup-reap}
use web_terminal.Shared.{Shared, at_session, is_client, is_process}
use web_terminal.Shared.Owned.{IsSound}

-- The session `id` is in the store, its process runs, and its listener `n` is registered.
pub record IsServed (st : Store) (id : Bytes) (n : ℕ) : Type 0 where
  pub session : Session
  pub there : lookup id st.sessions ≡ some session
  pub runs : session.alive ≡ true
  pub registered : has n (numbers session.listeners) ≡ true

-- A reap spares a session with a listener.
spared :
    (s : Session) (n now : ℕ) (grace : ℤ)
    → IsIdleWell s
    → s.alive ≡ true
    → has n (numbers s.listeners) ≡ true
    → kept now grace (some s) ≡ some s
unfolding kill_if_idle idle_for
spared s n now grace idle runs h = by_listeners s.listeners refl
  where
    by_listeners : (ls : List Listener) → s.listeners ≡ ls → kept now grace (some s) ≡ some s
    by_listeners [] e = absurd (no_listener (simp e at h))
      where
        no_listener : false ≡ true → ⊥
        no_listener e = cc
    by_listeners (l ∷ ls) e = ground (arith, e)

pub has-delete_other :
    (n m : ℕ) (ls : List Listener)
    → m ≢ n
    → has n (numbers ls) ≡ true
    → has n (numbers (delete m ls)) ≡ true
unfolding delete
has-delete_other n m [] other h = h
has-delete_other n m (l ∷ ls) other h = ground (arith, has-delete_other n m ls other)

pub alive-act :
    (s : Session) (now : ℕ) (a : Action)
    → is_client a || is_process a ≡ true
    → a ≢ exits_now
    → (act s now a).alive ≡ s.alive
unfolding act pump_chunk fanout mark_client_closed write resize
alive-act s now (outputs chunk) quiet on = ground arith
alive-act s now exits_now quiet on = absurd (on refl)
alive-act s now attaches quiet on = cc
alive-act s now (detaches n) quiet on = cc
alive-act s now (client_closes grace) quiet on = ground arith
alive-act s now (reaps grace) quiet on = cc
alive-act s now (writes bytes) quiet on = ground arith
alive-act s now (resizes cols rows) quiet on = ground arith
alive-act s now (delivers n e) quiet on = ground arith

module _ (w : Shared) (id : Bytes) (n : ℕ) (v : IsServed w.store id n) where
  -- An operation on a session that keeps the listener, if it is that session.
  pub at_session-IsServed :
      (j : Bytes) (f : Session → Session)
      → (j ≡ id → (f v.session).alive ≡ true)
      → (j ≡ id → has n (numbers (f v.session).listeners) ≡ true)
      → IsServed (at_session j f w).store id n
  at_session-IsServed j f runs keeps = elim (Bool-cases (str_eq j id)) [
    | inl hit ↦ here (str_eq→≡ j id hit)
    | inr miss ↦ record {
      session = v.session;
      there = lookup-update_other j id f w.store.sessions miss ∙ v.there;
      runs = v.runs;
      registered = v.registered;
    }
  ]
    where
      here : j ≡ id → IsServed (at_session j f w).store id n
      here same = record {
        session = f v.session;
        there = lookup-update_found j id f w.store.sessions v.session same v.there;
        runs = runs same;
        registered = keeps same;
      }

  pub reap-IsServed : (now : ℕ) → IsSound w → IsServed (reap w.store now).0 id n
  reap-IsServed now sound = record {
    session = v.session;
    there =
        lookup-reap w.store now id sound.unique
        ∙ ap (kept now w.store.idle_grace) v.there
        ∙ spared v.session n now w.store.idle_grace (sound.each id v.session v.there).idle v.runs
            v.registered;
    runs = v.runs;
    registered = v.registered;
  }
