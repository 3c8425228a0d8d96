-- ===== src/Paths.antt =====
-- AbsPath of internal/web/server.go, over filepath.Clean and filepath.Join of Go's library on a system
-- whose separator is a slash.
pub mod Split
pub mod Inside
pub mod Clean
use web_terminal.Prelude.{
  ℕ, ◌≡◌, Bool, true, false, not, ◌&&◌, ◌||◌, Option, none, some, List, [], ◌∷◌, ◌++◌, Bytes, ◌==◌,
  if◌then◌else◌,
}
use web_terminal.Prelude.Text.{codes, str_eq, has_prefix}

abbrev pub add_first : ℕ → List Bytes → List Bytes
add_first c [] = (c ∷ []) ∷ []
add_first c (part ∷ parts) = (c ∷ part) ∷ parts

-- The elements of a path, at its slashes.
unfoldable pub split_slash : Bytes → List Bytes
split_slash [] = [] ∷ []
split_slash (c ∷ cs) =
    let parts = split_slash cs in if c == b'/' then [] ∷ parts else add_first c parts

-- Without the last element.
unfoldable pub pop : List Bytes → List Bytes
pop [] = []
pop (part ∷ []) = []
pop (part ∷ next ∷ parts) = part ∷ pop (next ∷ parts)

-- Whether there is a last element that `..` takes back.
unfoldable pub can_pop : List Bytes → Bool
can_pop [] = false
can_pop (part ∷ []) = not (str_eq part (codes ".."))
can_pop (part ∷ next ∷ parts) = can_pop (next ∷ parts)

-- An element after the ones that are kept so far.
unfoldable pub resolve_one : Bool → List Bytes → Bytes → List Bytes
unfolding pop can_pop
resolve_one rooted kept part =
    if str_eq part [] || str_eq part (codes ".")
    then kept
    else if not (str_eq part (codes ".."))
    then kept ++ part ∷ []
    else if can_pop kept
    then pop kept
    else if rooted
    then kept
    else kept ++ part ∷ []

unfoldable pub resolve : Bool → List Bytes → List Bytes → List Bytes
resolve rooted kept [] = kept
resolve rooted kept (part ∷ parts) = resolve rooted (resolve_one rooted kept part) parts

-- Each element after a slash.
abbrev pub slashed : List Bytes → Bytes
slashed [] = []
slashed (part ∷ parts) = b'/' ∷ (part ++ slashed parts)

unfoldable pub render_rooted : List Bytes → Bytes
render_rooted [] = codes "/"
render_rooted (part ∷ parts) = slashed (part ∷ parts)

unfoldable render_relative : List Bytes → Bytes
render_relative [] = codes "."
render_relative (part ∷ parts) = part ++ slashed parts

-- filepath.Clean
unfoldable pub clean : Bytes → Bytes
unfolding resolve split_slash render_rooted render_relative
clean [] = codes "."
clean (c ∷ cs) =
    if c == b'/'
    then render_rooted (resolve true [] (split_slash cs))
    else render_relative (resolve false [] (split_slash (c ∷ cs)))

-- filepath.Join of two elements, the second one not empty.
unfoldable pub join : Bytes → Bytes → Bytes
unfolding clean
join [] b = clean b
join (c ∷ cs) b = clean ((c ∷ cs) ++ b'/' ∷ b)

-- AbsPath; `none` is its error.
unfoldable pub abs_path : Bytes → Bytes → Option Bytes
unfolding join clean
abs_path root p =
    let full = join root (clean (b'/' ∷ p)) in
    if not (str_eq full root) && not (has_prefix (root ++ b'/' ∷ []) full) then none else some full
