-- ===== src/Store/Maps.antt =====
-- The map of the sessions: lookups after an insert and after an action of one session.
use web_terminal.Prelude.{
  ◌≡◌, refl, sym, ap, ◌∙◌, false, none, some, List, [], ◌∷◌, Bytes, arith, if◌then◌else◌,
}
use mathlib.Core.Option
use web_terminal.Prelude.Text.{str_eq, str_eq→≡, str_eq_refl}
use web_terminal.Session.{Session}
use web_terminal.Store.{lookup, insert, update}

-- No two pairs of a map have one key.
abbrev pub Unique : List (Bytes × Session) → Type 0
Unique [] = Unit {0}
Unique ((j, s) ∷ m) = (lookup j m ≡ none) × Unique m

pub lookup-insert :
    (k j : Bytes) (s : Session) (m : List (Bytes × Session))
    → lookup j (insert k s m) ≡ (if str_eq k j then some s else lookup j m)
unfolding lookup insert
lookup-insert k j s [] = refl
lookup-insert k j s ((i, w) ∷ m) = ground (
  arith,
  lookup-insert k j s m,
  str_eq→≡ i k,
  str_eq→≡ i j,
  str_eq→≡ k j,
  str_eq_refl j,
  str_eq_refl k,
)

pub Unique-insert :
    (k : Bytes) (s : Session) (m : List (Bytes × Session)) → Unique m → Unique (insert k s m)
unfolding insert
Unique-insert k s [] u = (unfold lookup in refl, tt)
Unique-insert k s ((i, w) ∷ m) u = ground (
  arith,
  Unique-insert k s m u.1,
  lookup-insert k i s m,
  str_eq→≡ i k,
  str_eq→≡ k i,
  str_eq_refl i,
)

pub lookup-update :
    (id : Bytes) (f : Session → Session) (m : List (Bytes × Session))
    → lookup id (update id f m) ≡ Option.map f (lookup id m)
unfolding lookup update
lookup-update id f [] = refl
lookup-update id f ((j, s) ∷ m) = ground (arith, lookup-update id f m)

pub lookup-update_other :
    (id j : Bytes) (f : Session → Session) (m : List (Bytes × Session))
    → str_eq id j ≡ false
    → lookup j (update id f m) ≡ lookup j m
unfolding lookup update
lookup-update_other id j f [] other = refl
lookup-update_other id j f ((i, s) ∷ m) other =
    ground (arith, lookup-update_other id j f m other, str_eq→≡ i id)

pub lookup-update_found :
    (j id : Bytes) (f : Session → Session) (m : List (Bytes × Session)) (s : Session)
    → j ≡ id
    → lookup id m ≡ some s
    → lookup id (update j f m) ≡ some (f s)
lookup-update_found j id f m s same e =
    ap (λ k. lookup k (update j f m)) (sym same)
    ∙ lookup-update j f m
    ∙ ap (Option.map f) (ap (λ k. lookup k m) same ∙ e)

lookup-update_absent :
    (id j : Bytes) (f : Session → Session) (m : List (Bytes × Session))
    → lookup j m ≡ none
    → lookup j (update id f m) ≡ none
unfolding lookup update
lookup-update_absent id j f [] e = refl
lookup-update_absent id j f ((i, s) ∷ m) e = ground (arith, lookup-update_absent id j f m)

pub Unique-update :
    (id : Bytes) (f : Session → Session) (m : List (Bytes × Session))
    → Unique m
    → Unique (update id f m)
unfolding update
Unique-update id f [] u = tt
Unique-update id f ((j, s) ∷ m) (new, u) =
    ground (arith, Unique-update id f m u, lookup-update_absent id j f m new)
