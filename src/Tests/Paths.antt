-- ===== src/Tests/Paths.antt =====
-- AbsPath below the root "/srv" and below "/".
use web_terminal.Prelude.{◌≡◌, refl, none, some, ◌++◌, Bytes, All}
use web_terminal.Prelude.Text.{codes}
use web_terminal.Paths.{
  slashed, abs_path, resolve, split_slash, clean, join, resolve_one, pop, can_pop, render_rooted,
}
use web_terminal.Paths.Split.{IsElement}
use web_terminal.Paths.Inside.{below_root}
use web_terminal.Paths.Clean.{abs_path_lem}

abbrev request : Bytes
request = codes "a/../../etc/./x"

climbs : abs_path (codes "/srv") request ≡ some (codes "/srv/etc/x")
unfolding abs_path clean join resolve split_slash resolve_one render_rooted pop can_pop
climbs = refl

trailing_slash : abs_path (codes "/srv/") (codes "etc") ≡ none
unfolding abs_path clean join resolve split_slash resolve_one render_rooted pop can_pop
trailing_slash = refl

abs_path_lem_example :
    (abs_path (codes "/srv") request ≡ some (codes "/srv" ++ slashed (below_root request)))
    × All IsElement (below_root request)
unfolding split_slash
abs_path_lem_example = abs_path_lem (codes "srv") request
