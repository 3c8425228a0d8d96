-- ===== src/Shared/Handlers.antt =====
-- What ServeWS does to the store, in the steps of the server: each handler of a connection is a run of
-- that connection's own steps.
use web_terminal.Prelude.{
  ℕ, ◌≡◌, ◌≢◌, refl, sym, ◌∙◌, Bool, true, false, Option, none, some, List, [], ◌∷◌, Bytes, All,
  if_cases,
}
use web_terminal.Prelude.Int.{to_u16}
use web_terminal.Prelude.Text.{codes, str_eq}
use web_terminal.Protocol.{ClientControl}
use web_terminal.Pty.{Options}
use web_terminal.Session.{Action, exits_now, client_closes, writes, resizes, act, write}
use web_terminal.Hello.{detached}
use web_terminal.Shared.{Shared, Cause, connection, process, own, is_client}
use web_terminal.Shared.Owned.{IsSound}
use web_terminal.Protocol.{Error, Result, ok, err, parse_client_control, decode_input}
use web_terminal.Connection.{
  Serve, Incoming, text, binary_frame, read_fails, close_with, on_current, cleanup, returns, send,
  refuses, on_error, serve_control, serve_one,
}
use web_terminal.Shared.Spared.{IsServed}
use web_terminal.Shared.Served.{listener_kept}
use web_terminal.Shared.Runs.{
  Owns, IsRun, nothing_done, then_uses, then_detaches, then_shows_none, then_leaves,
}
use web_terminal.Shared.Joining.{hello_run}

module _ (spawn : Options → Option ℕ) (env : List Bytes) (w : Shared) (i : ℕ) where
  -- The connection is where a run of its own steps has ended.
  abbrev pub HasRun : Serve → Type 0
  HasRun v = IsRun spawn env w i v.store v.conn

  -- What the connection does to the session that it shows.
  on_current_run :
      (now : ℕ) (a : Action) (v : Serve)
      → is_client a ≡ true
      → HasRun v
      → HasRun (on_current (λ s. act s now a) v)
  unfolding on_current
  on_current_run now a v client r = by_current v.conn.current refl
    where
      by_current :
          (o : Option (Bytes × ℕ)) → v.conn.current ≡ o → HasRun (on_current (λ s. act s now a) v)
      by_current none e = rw (e, on_current) r
      by_current (some (id, n)) e = rw (e, on_current) (then_uses spawn env r now id a client)

  cleanup_run : (now : ℕ) (clean : Bool) (v : Serve) → HasRun v → HasRun (cleanup now clean v)
  unfolding cleanup act
  cleanup_run now clean v r =
      if_cases HasRun v.cleaned v _ (λ again. r)
        (λ first. then_shows_none spawn env (
          if_cases HasRun clean
            (on_current (λ s. act s now (client_closes v.store.close_grace)) left) left
            (λ on. on_current_run now (client_closes v.store.close_grace) left refl gone)
            (λ off. gone)))
    where
      left : Serve
      left = record v {
        store = record (v.store) { sessions = detached now v.conn.current v.store.sessions };
      }

      gone : HasRun left
      gone = then_leaves spawn env v.conn.current now r

  returns_run : (now : ℕ) (clean : Bool) (v : Serve) → HasRun v → HasRun (returns now clean v)
  unfolding returns close_with
  returns_run now clean v r = cleanup_run now clean v r

  refuses_run : (now : ℕ) (message : Bytes) (v : Serve) → HasRun v → HasRun (refuses now message v)
  unfolding refuses close_with send
  refuses_run now message v r = returns_run now false _ r

  on_error_run :
      (now : ℕ) (id : Bytes) (n : ℕ) (v : Serve) (r : HasRun v)
      → r.owner id n ≡ some i
      → HasRun (on_error now id n v)
  unfolding on_error close_with
  on_error_run now id n v r mine = cleanup_run now false _ (then_detaches spawn env r now id n mine)

-- A connection that reads, with the owners and the ids so far; `unmarshal` is json.Unmarshal, `show` the
-- text of an error.
module _ (spawn : Options → Option ℕ) (env default_command : List Bytes)
    (unmarshal : Bytes → Option ClientControl) (show : Error → Bytes) (owner : Bytes → ℕ → Option ℕ)
    (issued : Bytes → Bool) (v : Serve) (i : ℕ) where
  abbrev pub now_shared : Shared
  now_shared = record { store = v.store; owner = owner; issued = issued }

  module _ (sound : IsSound now_shared) (mine : Owns owner i v.conn.current) where
    began : HasRun spawn env now_shared i v
    began = nothing_done spawn env now_shared i v.conn mine

    serve_control_run :
        (now : ℕ) (id : Bytes) (c : ClientControl)
        → issued id ≡ false
        → HasRun spawn env now_shared i
            (serve_control spawn env default_command unmarshal show now id c v)
    unfolding serve_control send act
    serve_control_run now id c fresh =
        if_cases (HasRun spawn env now_shared i) (str_eq c.t (codes "hello")) _ _
          (λ hello.
            hello_run spawn env default_command now_shared i v.conn c id now sound mine fresh)
          (λ not_hello.
            if_cases (HasRun spawn env now_shared i) (str_eq c.t (codes "resize")) _ _
              (λ resize.
                on_current_run spawn env now_shared i now (resizes (to_u16 c.cols) (to_u16 c.rows))
                  v refl began)
              (λ not_resize.
                if_cases (HasRun spawn env now_shared i) (str_eq c.t (codes "ping")) _ _
                  (λ ping. began) (λ unknown. began)))

    pub serve_one_run :
        (now : ℕ) (id : Bytes) (m : Incoming)
        → issued id ≡ false
        → HasRun spawn env now_shared i
            (serve_one spawn env default_command unmarshal show now id m v)
    unfolding serve_one act
    serve_one_run now id (text raw) fresh = told (parse_client_control unmarshal raw)
      where
        told :
            (r : Result ClientControl)
            → HasRun spawn env now_shared i (elim r [
              | err e ↦ refuses now (show e) v
              | ok c ↦ serve_control spawn env default_command unmarshal show now id c v
            ])
        told (err e) = refuses_run spawn env now_shared i now (show e) v began
        told (ok c) = serve_control_run now id c fresh
    serve_one_run now id (binary_frame bytes) fresh = told (decode_input bytes)
      where
        told :
            (r : Result Bytes)
            → HasRun spawn env now_shared i (elim r [
              | err e ↦ refuses now (show e) v
              | ok payload ↦ on_current (λ s. write s payload) v
            ])
        told (err e) = refuses_run spawn env now_shared i now (show e) v began
        told (ok payload) = on_current_run spawn env now_shared i now (writes payload) v refl began
    serve_one_run now id (read_fails clean) fresh =
        returns_run spawn env now_shared i now clean v began

-- All the steps are the connection's own, so none is another's or the exit of a process.
pub other_steps :
    (i j : ℕ) (id : Bytes) (cs : List Cause)
    → i ≢ j
    → All (λ c. c ≡ connection j) cs
    → All (λ c. (c ≢ connection i) × (c ≢ process id exits_now)) cs
other_steps i j id [] other own = tt
other_steps i j id (c ∷ cs) other (same, own) = (
  ((λ e. other (connection_inj (sym e ∙ same))), (λ e. not_process (sym same ∙ e))),
  other_steps i j id cs other own,
)
  where
    connection_inj : connection i ≡ connection j → i ≡ j
    connection_inj e = cc

    not_process : connection j ≡ process id exits_now → ⊥
    not_process e = cc

-- The connections `i` and `j` are served over one store, which is sound. The listener `n` of the session
-- `id`, whose process runs, is `i`'s. Whatever `j` reads, with an id that is not taken from newID, and
-- whenever a delivery of `j`'s reports an error: afterwards the session is still in the store, its
-- process runs and the listener is registered.
others_harmless :
    (spawn : Options → Option ℕ) (env default_command : List Bytes)
    (unmarshal : Bytes → Option ClientControl) (show : Error → Bytes) (owner : Bytes → ℕ → Option ℕ)
    (issued : Bytes → Bool) (v : Serve) (i j n now : ℕ) (id : Bytes)
    → IsSound (record { store = v.store; owner = owner; issued = issued })
    → Owns owner j v.conn.current
    → i ≢ j
    → owner id n ≡ some i
    → IsServed v.store id n
    → ((new : Bytes) (m : Incoming)
        → issued new ≡ false
        → IsServed (serve_one spawn env default_command unmarshal show now new m v).store id n)
      × ((failed : Bytes) (k : ℕ)
          → owner failed k ≡ some j
          → IsServed (on_error now failed k v).store id n)
unfolding nothing_done
others_harmless spawn env default_command unmarshal show owner issued v i j n now id sound theirs
      other mine served =
    (
      λ new m fresh.
          let r =
            serve_one_run spawn env default_command unmarshal show owner issued v j sound theirs now
              new m fresh in
          (listener_kept spawn env id n i sound mine served r.run
            (other_steps i j id r.causes other r.alone)).1,
      λ failed k owned.
          let r =
            on_error_run spawn env (record { store = v.store; owner = owner; issued = issued }) j
              now failed k v
              (nothing_done spawn env (record { store = v.store; owner = owner; issued = issued }) j
                v.conn theirs)
              owned in
          (listener_kept spawn env id n i sound mine served r.run
            (other_steps i j id r.causes other r.alone)).1,
    )
