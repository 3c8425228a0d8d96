-- ===== src/Tests/Starting.antt =====
-- A server that is started, its first session, and the reaper's ticks after that.
use web_terminal.Prelude.{
  ◌≡◌, ◌↔◌, refl, true, false, none, some, Option, [], ◌∷◌, Bytes, All, arith, if◌then◌else◌, Bool,
}
use web_terminal.Prelude.Int.{pos}
use web_terminal.Prelude.Text.{codes, str_eq}
use web_terminal.Pty.{start}
use web_terminal.Session.{Session}
use web_terminal.Session.Idle.{IsOrphaned}
use mathlib.Core.List.{Permᴰ}
use web_terminal.Store.Order.{any_order}
use mathlib.Core.List.{List}
use web_terminal.Store.Maps.{Unique}
use web_terminal.Store.{
  get_live, list, reap, Store, lookup, new_session, start_session, reap_ticks, insert,
}
use web_terminal.Store.Starting.{IsStarted, start_session-IsStarted}
use web_terminal.Store.Ticks.{reap_ticks_iff}
use web_terminal.Config.{
  config_of, load_config, read_number, env_or, atoi, parse_some_digits, parse_digits,
}
use web_terminal.Boot.{Server, server_of, with_static_dir, boot, boot_with, IsSetUp, boot-IsSetUp}

abbrev empty_store : Store
empty_store = record {
  sessions = [];
  default_command = [];
  files_root = [];
  idle_grace = pos 10;
  close_grace = pos 5;
}

abbrev first : Session
first =
    new_session (97 ∷ []) (codes "sh") 100
      (record { pid = 42; closed = false; closes = 0; kills = 0 }) 80 24

abbrev one_session : Store
one_session = record empty_store { sessions = insert (97 ∷ []) first [] }

spawned :
    start_session (λ o. some 42) [] empty_store (97 ∷ []) 100 (codes "sh" ∷ []) 80 24 (codes "sh")
    ≡ some (first, one_session)
unfolding start_session start
spawned = refl

start_session-IsStarted_example : IsStarted empty_store (97 ∷ []) 100 80 24 first one_session
start_session-IsStarted_example =
    start_session-IsStarted (λ o. some 42) [] empty_store (97 ∷ []) 100 (codes "sh" ∷ []) 80 24
      (codes "sh") first one_session tt spawned

reap_ticks_iff_example :
    (lookup (97 ∷ []) (reap_ticks one_session (104 ∷ 109 ∷ [])).sessions ≡ some first)
    ↔ All (λ now. ¬ IsOrphaned first now (pos 10)) (104 ∷ 109 ∷ [])
unfolding insert lookup new_session
reap_ticks_iff_example =
    reap_ticks_iff (104 ∷ 109 ∷ []) one_session (97 ∷ []) first (refl, tt)
      ((omega arith, omega arith), ((omega arith, omega arith), tt)) refl refl

abbrev second : Session
second = record first { id = 98 ∷ [] }

abbrev in_order : List (Bytes × Session)
in_order = (97 ∷ [], first) ∷ (98 ∷ [], second) ∷ []

abbrev reversed : List (Bytes × Session)
reversed = (98 ∷ [], second) ∷ (97 ∷ [], first) ∷ []

in_order-Unique : Unique in_order
unfolding lookup
in_order-Unique = (refl, (refl, tt))

any_order_example :
    let st = record empty_store { sessions = in_order } in
    let st' = record empty_store { sessions = reversed } in
    ((get_live st' (98 ∷ []) ≡ some second)
      ↔ ((lookup (98 ∷ []) in_order ≡ some second) × (second.alive ≡ true)))
    × ((lookup (98 ∷ []) (reap st' 105).0.sessions ≡ some second) ↔ (
        (lookup (98 ∷ []) in_order ≡ some second)
        × (second.alive ≡ true)
        × ¬ IsOrphaned second 105 (pos 10)))
    × Permᴰ (list st) (list st')
    × Permᴰ (reap st 105).1 (reap st' 105).1
    × Permᴰ (reap st 105).0.sessions (reap st' 105).0.sessions
unfolding new_session
any_order_example =
    any_order (record empty_store { sessions = in_order }) reversed 105 (98 ∷ []) second
      in_order-Unique (Permᴰ.swap refl refl) (omega arith, omega arith)

-- An environment that sets the port.
abbrev getenv : Bytes → Bytes
getenv key = if str_eq key (codes "WT_PORT") then codes "8080" else []

abbrev no_path : Bytes → Option Bytes
no_path name = none

abbrev has_web : Bytes → Bool
has_web path = str_eq path (codes "web")

abbrev server : Server
server = server_of getenv none no_path has_web (
    with_static_dir getenv none no_path has_web
      (config_of getenv none (pos 8080) (pos 1800) (pos 10)))

booted : boot getenv none no_path has_web ≡ some server
unfolding boot boot_with load_config read_number env_or atoi parse_some_digits parse_digits
booted = refl

boot-IsSetUp_example : IsSetUp getenv none no_path has_web server
boot-IsSetUp_example = boot-IsSetUp getenv none no_path has_web server booted
