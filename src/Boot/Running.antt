-- ===== src/Boot/Running.antt =====
-- main of main.go from the listen to its return, with the reaper that runs under its context. What
-- http.Server does, the signals and the ticker are events.
use web_terminal.Prelude.{ℕ, ◌≡◌, refl, ◌∙◌, Bool, true, false, List, [], ◌∷◌, if◌then◌else◌}
use web_terminal.Store.{Store, reap, reap_ticks}

-- Where main is: at `<-ctx.Done()`, in Shutdown, or gone with a status.
pub data Phase : Type 0 where
  waiting shutting_down : Phase
  exited : ℕ → Phase

pub record Running : Type 0 where
  pub phase : Phase
  pub store : Store

-- The reaper's ticker is due; ListenAndServe returns, with ErrServerClosed or with another error; a
-- signal comes; Shutdown returns.
pub data Event : Type 0 where
  due : ℕ → Event
  serve_returns : Bool → Event
  signalled : Event
  shutdown_returns : Event

unfoldable runs_on : Event → Running → Running
runs_on e r = elim r.phase [
  | waiting ↦ elim e [
    | due now ↦ record r { store = (reap r.store now).0 }
    | serve_returns was_closed ↦ if was_closed then r else record r { phase = exited 1 }
    | signalled ↦ record r { phase = shutting_down }
    | shutdown_returns ↦ r
  ]
  | shutting_down ↦ elim e [
    | due now ↦ r
    | serve_returns was_closed ↦ if was_closed then r else record r { phase = exited 1 }
    | signalled ↦ r
    | shutdown_returns ↦ record r { phase = exited 0 }
  ]
  | exited status ↦ r
]

unfoldable run_main : List Event → Running → Running
run_main [] r = r
run_main (e ∷ es) r = run_main es (runs_on e r)

-- The times at which the reaper is due before main is told to stop.
abbrev pub ticks_before : List Event → List ℕ
ticks_before [] = []
ticks_before (due now ∷ es) = now ∷ ticks_before es
ticks_before (serve_returns true ∷ es) = ticks_before es
ticks_before (serve_returns false ∷ es) = []
ticks_before (signalled ∷ es) = []
ticks_before (shutdown_returns ∷ es) = ticks_before es

abbrev is_waiting : Phase → Bool
is_waiting waiting = true
is_waiting shutting_down = false
is_waiting (exited status) = false

one_stopped :
    (e : Event) (p : Phase) (st : Store)
    → is_waiting p ≡ false
    → let q = runs_on e (record { phase = p; store = st }) in
      (q.store ≡ st) × (is_waiting q.phase ≡ false)
unfolding runs_on
one_stopped e waiting st w = cc
one_stopped (due now) shutting_down st w = (refl, refl)
one_stopped (serve_returns true) shutting_down st w = (refl, refl)
one_stopped (serve_returns false) shutting_down st w = (refl, refl)
one_stopped signalled shutting_down st w = (refl, refl)
one_stopped shutdown_returns shutting_down st w = (refl, refl)
one_stopped e (exited status) st w = (refl, refl)

-- Once main does not wait any more, the store stays.
stopped :
    (es : List Event) (r : Running) → is_waiting r.phase ≡ false → (run_main es r).store ≡ r.store
unfolding run_main
stopped [] r w = refl
stopped (e ∷ es) r w =
    let (same, still) = one_stopped e r.phase r.store w in stopped es (runs_on e r) still ∙ same

-- Whatever happens while main runs, the store in the end is the one that the reaper leaves at the ticks
-- before the first signal or the first failure of the server: it reaps nothing after that.
reaps_until_stopped :
    (es : List Event) (st : Store)
    → (run_main es (record { phase = waiting; store = st })).store ≡ reap_ticks st (ticks_before es)
unfolding run_main runs_on reap_ticks
reaps_until_stopped [] st = refl
reaps_until_stopped (due now ∷ es) st = reaps_until_stopped es (reap st now).0
reaps_until_stopped (serve_returns true ∷ es) st = reaps_until_stopped es st
reaps_until_stopped (serve_returns false ∷ es) st =
    stopped es (record { phase = exited 1; store = st }) refl
reaps_until_stopped (signalled ∷ es) st =
    stopped es (record { phase = shutting_down; store = st }) refl
reaps_until_stopped (shutdown_returns ∷ es) st = reaps_until_stopped es st
