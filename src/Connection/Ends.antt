-- ===== src/Connection/Ends.antt =====
-- When the loop of a connection ends, and how the connection is closed.
use web_terminal.Prelude.{
  ℕ, ◌≡◌, refl, sym, ap, ◌∙◌, inl, inr, Bool, true, false, not, ◌&&◌, ◌||◌, Option, none, some,
  List, [], ◌∷◌, Bytes, arith, Bool-cases,
}
use web_terminal.Protocol.{ClientControl, Error}
use web_terminal.Pty.{Options}
use web_terminal.Store.{Store}
use web_terminal.Connection.Readings.{first_of, first_of_nothing, ends, greets, reason, reason-ends}
use web_terminal.Connection.Rounds.{
  Round, Blank, on_error-Blank, on_error-fails, contrary, serve_one-Round,
}
use web_terminal.Connection.{
  Serve, new_serve, CloseStatus, try_again_later, Happening, reads, delivery_fails, served,
  on_error, serve_one,
}

module _ (unmarshal : Bytes → Option ClientControl) where
  -- Whether a message has ended the loop.
  abbrev pub any_ends : List Happening → Bool
  any_ends [] = false
  any_ends (reads now id m ∷ es) = ends unmarshal m || any_ends es
  any_ends (delivery_fails now id n ∷ es) = any_ends es

  -- The first reason to close the connection.
  abbrev pub first_reason : List Happening → Option CloseStatus
  first_reason [] = none
  first_reason (reads now id m ∷ es) = first_of (reason unmarshal m) (first_reason es)
  first_reason (delivery_fails now id n ∷ es) = some try_again_later

  -- Whether a hello is read after a delivery has failed, and before the loop has ended.
  abbrev pub late_hello : Bool → List Happening → Bool
  late_hello failed [] = false
  late_hello failed (reads now id m ∷ es) =
      not (ends unmarshal m) && (failed && greets unmarshal m || late_hello failed es)
  late_hello failed (delivery_fails now id n ∷ es) = late_hello true es

first_of_assoc :
    (a b c : Option CloseStatus) → first_of (first_of a b) c ≡ first_of a (first_of b c)
first_of_assoc none b c = refl
first_of_assoc (some status) b c = refl

module _ (spawn : Options → Option ℕ) (env default_command : List Bytes)
    (unmarshal : Bytes → Option ClientControl) (show : Error → Bytes) where
  -- After its end the loop has ended for good, and the connection stays closed and blank.
  served_over :
      (es : List Happening) (v : Serve) (status : CloseStatus)
      → v.done ≡ true
      → v.closed ≡ some status
      → let w = served spawn env default_command unmarshal show es v in
        (w.done ≡ true) × (w.closed ≡ some status)
  unfolding served
  served_over [] v status over shut = (over, shut)
  served_over (reads now id m ∷ es) v status over shut =
      simp over (served_over es v status over shut)
  served_over (delivery_fails now id n ∷ es) v status over shut =
      let (done, closed) = on_error-fails now id n v in
      served_over es (on_error now id n v) status (done ∙ over)
        (closed ∙ ap (λ o. first_of o (some try_again_later)) shut)

  served-Blank :
      (es : List Happening) (v : Serve)
      → v.done ≡ true
      → Blank v
      → Blank (served spawn env default_command unmarshal show es v)
  unfolding served
  served-Blank [] v over blank = blank
  served-Blank (reads now id m ∷ es) v over blank = simp over (served-Blank es v over blank)
  served-Blank (delivery_fails now id n ∷ es) v over blank =
      served-Blank es (on_error now id n v) ((on_error-fails now id n v).0 ∙ over)
        (on_error-Blank now id n v (λ e. blank.1))

  first_some :
      (a : Option CloseStatus) (s : CloseStatus)
      → (t : CloseStatus) × (first_of a (some s) ≡ some t)
  first_some none s = (s, refl)
  first_some (some t) s = (t, refl)

  -- The end and the status, from a loop that runs.
  served_ends :
      (es : List Happening) (v : Serve)
      → v.done ≡ false
      → let w = served spawn env default_command unmarshal show es v in
        (w.done ≡ any_ends unmarshal es)
        × (w.closed ≡ first_of v.closed (first_reason unmarshal es))
  unfolding served
  served_ends [] v on = (on, sym (first_of_nothing v.closed))
  served_ends (delivery_fails now id n ∷ es) v on =
      let (done, closed) = on_error-fails now id n v in
      let (done', closed') = served_ends es (on_error now id n v) (done ∙ on) in
      (
        done',
        closed'
            ∙ ap (λ o. first_of o (first_reason unmarshal es)) closed
            ∙ first_of_assoc v.closed (some try_again_later) (first_reason unmarshal es),
      )
  served_ends (reads now id m ∷ es) v on = simp on (elim (Bool-cases (ends unmarshal m)) [
    | inl e ↦ over e
    | inr e ↦ goes e (served_ends es next)
  ])
    where
      next : Serve
      next = serve_one spawn env default_command unmarshal show now id m v

      round : Round (ends unmarshal m) (greets unmarshal m) (reason unmarshal m) v next
      round = serve_one-Round spawn env default_command unmarshal show now id m v on

      Outcome : Type 0
      Outcome =
          let w = served spawn env default_command unmarshal show es next in
          (w.done ≡ (ends unmarshal m || any_ends unmarshal es))
          × (w.closed
              ≡ first_of v.closed (first_of (reason unmarshal m) (first_reason unmarshal es)))

      over : ends unmarshal m ≡ true → Outcome
      over e =
          let (status, why) = reason-ends unmarshal m e in
          let (t, is) = first_some v.closed status in
          let (done, closed) =
            served_over es next t (round.done ∙ e)
              (round.closed ∙ ap (first_of v.closed) why ∙ is) in
          (
            done ∙ sym (ap (λ b. b || any_ends unmarshal es) e),
            closed
                ∙ sym is
                ∙ sym (ap (λ o. first_of v.closed (first_of o (first_reason unmarshal es))) why),
          )

      goes :
          ends unmarshal m ≡ false
          → (next.done ≡ false
              → let w = served spawn env default_command unmarshal show es next in
                (w.done ≡ any_ends unmarshal es)
                × (w.closed ≡ first_of next.closed (first_reason unmarshal es)))
          → Outcome
      goes e rest =
          let (done, closed) = rest (round.done ∙ e) in
          (
            done ∙ sym (ap (λ b. b || any_ends unmarshal es) e),
            closed
                ∙ ap (λ o. first_of o (first_reason unmarshal es)) round.closed
                ∙ first_of_assoc v.closed (reason unmarshal m) (first_reason unmarshal es),
          )

  -- The session shown, unless a hello came late.
  served_shows :
      (es : List Happening) (failed : Bool) (v : Serve)
      → v.done ≡ false
      → v.cleaned ≡ failed
      → (failed ≡ true → v.conn.current ≡ none)
      → any_ends unmarshal es ≡ true
      → late_hello unmarshal failed es ≡ false
      → (served spawn env default_command unmarshal show es v).conn.current ≡ none
  unfolding served
  served_shows [] failed v on cleaned blank ended timely = absurd (contrary (sym ended))
  served_shows (delivery_fails now id n ∷ es) failed v on cleaned blank ended timely =
      let (done, closed) = on_error-fails now id n v in
      let (cleaned', blank') = on_error-Blank now id n v (λ e. blank (sym cleaned ∙ e)) in
      served_shows es true (on_error now id n v) (done ∙ on) cleaned' (λ e. blank') ended timely
  served_shows (reads now id m ∷ es) failed v on cleaned blank ended timely =
      simp on (elim (Bool-cases (ends unmarshal m)) [
        | inl e ↦ over e
        | inr e ↦ goes e (served_shows es failed next)
      ])
    where
      next : Serve
      next = serve_one spawn env default_command unmarshal show now id m v

      round : Round (ends unmarshal m) (greets unmarshal m) (reason unmarshal m) v next
      round = serve_one-Round spawn env default_command unmarshal show now id m v on

      Outcome : Type 0
      Outcome = (served spawn env default_command unmarshal show es next).conn.current ≡ none

      over : ends unmarshal m ≡ true → Outcome
      over e =
          (served-Blank es next (round.done ∙ e) (round.blanks e (λ c. blank (sym cleaned ∙ c)))).1

      goes :
          ends unmarshal m ≡ false
          → (next.done ≡ false
              → next.cleaned ≡ failed
              → (failed ≡ true → next.conn.current ≡ none)
              → any_ends unmarshal es ≡ true
              → late_hello unmarshal failed es ≡ false
              → Outcome)
          → Outcome
      goes e rest =
          let (cleaned', conn) = round.stays e in
          let timely' =
            timely_parts (ends unmarshal m) failed (greets unmarshal m)
              (late_hello unmarshal failed es) e timely in
          rest (round.done ∙ e) (cleaned' ∙ cleaned)
            (λ f. ap (λ c. c.current) (conn (timely'.0 f)) ∙ blank f)
            (sym (ap (λ b. b || any_ends unmarshal es) e) ∙ ended) timely'.1
        where
          timely_parts :
              (a f g l : Bool)
              → a ≡ false
              → (not a && (f && g || l)) ≡ false
              → (f ≡ true → g ≡ false) × (l ≡ false)
          timely_parts a f g l e t = ground arith

  -- A new connection, on which messages are read and deliveries fail, in any order. The loop has
  -- returned exactly when one of the messages read was a text that is no "hello", "resize" or
  -- "ping" with dimensions in range, a binary message that is no input, or a read error. The server has
  -- closed the connection exactly when it has returned or a delivery has failed, with the status of
  -- what came first: a violation, a normal closure for a read error, "try again later" for a
  -- delivery.
  pub loop_ends :
      (es : List Happening) (st : Store)
      → let w = served spawn env default_command unmarshal show es (new_serve st) in
        (w.done ≡ any_ends unmarshal es) × (w.closed ≡ first_reason unmarshal es)
  loop_ends es st = served_ends es (new_serve st) refl

  -- A connection whose loop has returned, and on which no hello was read between a failed delivery and
  -- that end, shows no session any more.
  pub loop_detaches :
      (es : List Happening) (st : Store)
      → any_ends unmarshal es ≡ true
      → late_hello unmarshal false es ≡ false
      → (served spawn env default_command unmarshal show es (new_serve st)).conn.current ≡ none
  loop_detaches es st =
      served_shows es false (new_serve st) refl refl (λ e. absurd (contrary (sym e)))
