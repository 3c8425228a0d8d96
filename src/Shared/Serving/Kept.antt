-- ===== src/Shared/Serving/Kept.antt =====
-- What connections that are served together leave to one another.
use web_terminal.Prelude.{
  ℕ, ◌≡◌, ◌≢◌, refl, sym, ap, ◌∙◌, ◌⊎◌, inl, inr, true, false, Option, none, some, List, [], Bytes,
  All, ◌==◌, if◌then◌else◌, arith, Bool-cases, subst,
}
use web_terminal.Protocol.{ClientControl, Error}
use web_terminal.Pty.{Options}
use web_terminal.Session.{exits_now}
use web_terminal.Store.{Store}
use web_terminal.Hello.{Conn}
use web_terminal.Connection.{Incoming, serve_one, Serve}
use web_terminal.Shared.{Shared, Cause, connection, process, Step, tick, goes_on, Run, here, later}
use web_terminal.Shared.Owned.{IsSound}
use web_terminal.Shared.Sound.{Step-IsSound}
use web_terminal.Shared.Spared.{IsServed}
use web_terminal.Shared.Served.{Step-owner, listener_kept}
use web_terminal.Shared.Runs.{Owns, IsRun}
use web_terminal.Shared.Handlers.{serve_one_run, HasRun, other_steps}
use web_terminal.Shared.Serving.{
  over, set, Turn, reads, fails, ticks, proceeds, Turns, at_first, then_turns, IsServing,
}

Owns-later :
    (owner owner' : Bytes → ℕ → Option ℕ) (i : ℕ) (current : Option (Bytes × ℕ))
    → ((id : Bytes) (n : ℕ) → owner id n ≡ some i → owner' id n ≡ some i)
    → Owns owner i current
    → Owns owner' i current
Owns-later owner owner' i none keeps v = tt
Owns-later owner owner' i (some (id, n)) keeps v = keeps id n v

module _ (spawn : Options → Option ℕ) (env : List Bytes) where
  Run-IsSound_owner :
      {w u : Shared} {cs : List Cause} (id : Bytes) (n i : ℕ)
      → IsSound w
      → Run spawn env w cs u
      → IsSound u × (w.owner id n ≡ some i → u.owner id n ≡ some i)
  Run-IsSound_owner id n i sound here = (sound, λ e. e)
  Run-IsSound_owner id n i sound (later run step) =
      let (sound', keeps) = Run-IsSound_owner id n i sound run in
      (Step-IsSound spawn env sound' step, λ e. Step-owner id n i sound' (keeps e) spawn env step)

  -- A run of the steps of one connection, and what it shows then.
  ran-IsServing :
      {w : Shared} {peers : ℕ → Serve} {i : ℕ} (v : Serve)
      → IsServing w peers
      → (r : HasRun spawn env w i v)
      → IsServing (record { store = v.store; owner = r.owner; issued = r.issued }) (set i v peers)
  ran-IsServing {w} {peers} {i} v serving r = record {
    sound = (Run-IsSound_owner [] 0 0 serving.sound r.run).0;
    owns = λ j. elim (Bool-cases (i == j)) [
      | inl hit ↦ rw hit (subst (λ k. Owns r.owner k v.conn.current) (same_number j hit) r.owns)
      | inr miss ↦ rw miss (
          Owns-later w.owner r.owner j (peers j).conn.current
            (λ id n. (Run-IsSound_owner id n j serving.sound r.run).1) (serving.owns j))
    ];
  }
    where
      same_number : (j : ℕ) → i == j ≡ true → i ≡ j
      same_number j hit = ground (arith, hit)

elsewhere : (i j : ℕ) → connection j ≢ connection i → i ≢ j
elsewhere i j apart e = apart (ap connection (sym e))

not_set : (j i : ℕ) (t : Serve) (peers : ℕ → Serve) → i ≢ j → set j t peers i ≡ peers i
not_set j i t peers apart = ap (λ b. if b then t else peers i) (differs (Bool-cases (j == i)))
  where
    differs : (j == i ≡ true) ⊎ (j == i ≡ false) → j == i ≡ false
    differs (inl hit) = absurd (apart (ground (arith, hit)))
    differs (inr miss) = miss

module _ (spawn : Options → Option ℕ) (env : List Bytes) {w : Shared} {peers : ℕ → Serve}
    (id : Bytes) (n i : ℕ) where
  kept_by_others :
      (j : ℕ) {st : Store} {c : Conn}
      → IsServing w peers
      → (peers i).conn.current ≡ some (id, n)
      → IsServed w.store id n
      → i ≢ j
      → IsRun spawn env w j st c
      → IsServed st id n
  kept_by_others j v shows served apart r =
      (listener_kept spawn env id n i v.sound (subst (Owns w.owner i) shows (v.owns i)) served r.run
        (other_steps i j id r.causes apart r.alone)).1

  kept_in_step :
      {c : Cause} {u : Shared}
      → IsServing w peers
      → (peers i).conn.current ≡ some (id, n)
      → IsServed w.store id n
      → c ≢ connection i
      → c ≢ process id exits_now
      → Step spawn env w c u
      → IsServed u.store id n
  kept_in_step v shows served other runs step =
      (listener_kept spawn env id n i v.sound (subst (Owns w.owner i) shows (v.owns i)) served
        (later here step) ((other, runs), tt)).1

module _ (spawn : Options → Option ℕ) (env default_command : List Bytes)
    (unmarshal : Bytes → Option ClientControl) (show : Error → Bytes) where
  Turn-IsServing :
      {w : Shared} {peers : ℕ → Serve} {u : Shared} {q : ℕ → Serve} {c : Cause}
      → IsServing w peers
      → Turn spawn env default_command unmarshal show w peers c u q
      → IsServing u q
  Turn-IsServing v (reads i now new m fresh r) = ran-IsServing spawn env _ v r
  Turn-IsServing v (fails i now id n mine r) = ran-IsServing spawn env _ v r
  Turn-IsServing v (ticks now) = record {
    sound = Step-IsSound spawn env v.sound (tick now);
    owns = v.owns;
  }
  Turn-IsServing v (proceeds now id a runs) = record {
    sound = Step-IsSound spawn env v.sound (goes_on now id a runs);
    owns = v.owns;
  }

  -- A turn of another connection, of the reaper or of a process that does not exit.
  Turn-keeps :
      {w : Shared} {peers : ℕ → Serve} {u : Shared} {q : ℕ → Serve} {c : Cause} (id : Bytes)
      (n i : ℕ)
      → IsServing w peers
      → (peers i).conn.current ≡ some (id, n)
      → IsServed w.store id n
      → c ≢ connection i
      → c ≢ process id exits_now
      → Turn spawn env default_command unmarshal show w peers c u q
      → IsServed u.store id n × (q i ≡ peers i)
  Turn-keeps {peers = peers} id n i v shows served other runs (reads j now new m fresh r) = (
    kept_by_others spawn env id n i j v shows served (elsewhere i j other) r,
    not_set j i _ peers (elsewhere i j other),
  )
  Turn-keeps {peers = peers} id n i v shows served other runs (fails j now failed k mine r) = (
    kept_by_others spawn env id n i j v shows served (elsewhere i j other) r,
    not_set j i _ peers (elsewhere i j other),
  )
  Turn-keeps id n i v shows served other runs (ticks now) =
      (kept_in_step spawn env id n i v shows served other runs (tick now), refl)
  Turn-keeps id n i v shows served other runs (proceeds now j a does) =
      (kept_in_step spawn env id n i v shows served other runs (goes_on now j a does), refl)

  -- A connection can take a turn on whatever it reads.
  reads_on :
      (w : Shared) (peers : ℕ → Serve) (i now : ℕ) (new : Bytes) (m : Incoming)
      → IsServing w peers
      → w.issued new ≡ false
      → (u : Shared) × Turn spawn env default_command unmarshal show w peers (connection i) u (
          set i
            (serve_one spawn env default_command unmarshal show now new m (over w (peers i)))
            peers)
  reads_on w peers i now new m v fresh =
      let r =
        serve_one_run spawn env default_command unmarshal show w.owner w.issued (over w (peers i)) i
          v.sound (v.owns i) now new m fresh in
      (_, reads i now new m fresh r)

  -- Any number of connections are served over a store that is sound, and the listener that each shows
  -- is its own; the connection `i` shows the listener `n` of the session `id`, which is registered, and
  -- the process of the session runs. Then any turns are taken in any order, without one of that
  -- connection and without the exit of that process. Afterwards the session is in the store, its
  -- process runs, the listener is registered and the connection still shows it; the store is sound,
  -- the listener that each connection shows is its own, and each connection can take a turn on
  -- whatever it reads, with an id of newID that has not been issued.
  pub clients_kept :
      {w : Shared} {peers : ℕ → Serve} {cs : List Cause} {u : Shared} {q : ℕ → Serve} (id : Bytes)
      (n i : ℕ)
      → IsServing w peers
      → (peers i).conn.current ≡ some (id, n)
      → IsServed w.store id n
      → Turns spawn env default_command unmarshal show w peers cs u q
      → All (λ c. (c ≢ connection i) × (c ≢ process id exits_now)) cs
      → IsServing u q
        × IsServed u.store id n
        × (q i ≡ peers i)
        × ((j now : ℕ) (new : Bytes) (m : Incoming)
            → u.issued new ≡ false
            → (u' : Shared) × Turn spawn env default_command unmarshal show u q (connection j) u' (
                set j
                  (serve_one spawn env default_command unmarshal show now new m (over u (q j)))
                  q))
  clients_kept id n i v shows served at_first others =
      (v, served, refl, λ j now new m fresh. reads_on _ _ j now new m v fresh)
  clients_kept id n i v shows served (then_turns turns turn) ((other, runs), others) =
      let (v', served', same, _) = clients_kept id n i v shows served turns others in
      let (still, unmoved) =
        Turn-keeps id n i v' (ap (λ (p : Serve). p.conn.current) same ∙ shows) served' other runs
          turn in
      let serving = Turn-IsServing v' turn in
      (serving, still, unmoved ∙ same, λ j now new m fresh. reads_on _ _ j now new m serving fresh)
