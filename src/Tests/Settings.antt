-- ===== src/Tests/Settings.antt =====
-- The configuration and the command in two environments.
use web_terminal.Prelude.{◌≡◌, refl, none, [], Bytes, if◌then◌else◌}
use web_terminal.Prelude.Int.{pos}
use web_terminal.Prelude.Text.{codes, str_eq}
use web_terminal.Config.{
  Config, loaded, atoi, env_or, read_number, config_of, load_config, parse_some_digits,
  parse_digits,
}
use web_terminal.Config.Loading.{IsRead, load_config-IsRead}

-- An environment that sets the port and an unknown theme.
abbrev getenv : Bytes → Bytes
getenv key =
    if str_eq key (codes "WT_PORT")
    then codes "8080"
    else if str_eq key (codes "WT_THEME")
    then codes "solarized"
    else []

abbrev settings : Config
settings = config_of getenv none (pos 8080) (pos 1800) (pos 10)

port_read : load_config getenv none ≡ loaded settings
unfolding load_config read_number env_or atoi parse_some_digits parse_digits
port_read = refl

load_config-IsRead_example : IsRead getenv none settings
load_config-IsRead_example = load_config-IsRead getenv none settings port_read
