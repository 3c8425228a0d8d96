-- ===== src/Tests/Owning.antt =====
-- A connection that attaches to a session and is cleaned up while it attaches to a second one.
use web_terminal.Prelude.{◌≡◌, refl, inr, false, some, [], ◌∷◌}
use web_terminal.Connection.Race.{
  Race, finished, release, without, swap, release_old, register, keep, drop_new, take,
  release_taken, fresh_race, Reach, start, later,
}
use web_terminal.Connection.Race.Owners.{no_leak}

abbrev attached : Race
attached = record fresh_race { current = some (97 ∷ []); detach = some 0; live = 0 ∷ []; next = 1 }

attached-Reach : Reach false attached
unfolding release
attached-Reach =
    later
      (later (later (later start (swap (97 ∷ []) refl (inr refl))) (release_old _ (97 ∷ []) refl))
        (register (97 ∷ []) refl))
      (keep 0 (97 ∷ []) refl refl)

-- The cleanup comes between the registration at the second session and the section that keeps it.
abbrev overtaken : Race
overtaken = record fresh_race { cleaning = finished; next = 2 }

overtaken-Reach : Reach false overtaken
unfolding release without
overtaken-Reach =
    later
      (later
        (later
          (later
            (later (later attached-Reach (swap (98 ∷ []) refl (inr refl)))
              (release_old _ (98 ∷ []) refl))
            (register (98 ∷ []) refl))
          (take refl))
        (release_taken _ refl))
      (drop_new 1 (98 ∷ []) refl (λ e. cc))

no_leak_example : overtaken.live ≡ []
no_leak_example = no_leak overtaken overtaken-Reach refl refl
