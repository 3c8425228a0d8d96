-- ===== src/Boot.antt =====
-- main of main.go: what the server is set up with before it listens. `exists` is os.Stat with no
-- error.
pub mod Running
use web_terminal.Prelude.{
  ℕ, ◌≤◌, ◌≡◌, ◌≢◌, refl, ap, ◌∙◌, Bool, ◌&&◌, Option, none, some, [], ◌++◌, Bytes, arith,
  if◌then◌else◌, if_cases, subst,
}
use web_terminal.Prelude.Int.{ℤ, pos, negsuc}
use web_terminal.Prelude.Text.{codes}
use web_terminal.Store.{Store, new_store}
use web_terminal.Config.{
  Config, Loaded, loaded, bad_port, bad_idle_timeout, bad_close_timeout, atoi, itoa, env_or,
  is_blank, load_config,
}
use web_terminal.Config.Decimal.{atoi-itoa}
use web_terminal.Config.Loading.{IsRead, IsTimeout, load_config-IsRead}
use web_terminal.Command.{default_session_command, default_session_command-IsLogin}

-- The server: its address, its configuration, its store, and the interval of its reaper.
pub record Server : Type 0 where
  pub addr : Bytes
  pub cfg : Config
  pub store : Store
  pub reap_interval : ℤ

-- main until it listens; `none` is the log.Fatalf of a bad configuration.
module _ (getenv : Bytes → Bytes) (home : Option Bytes) (look_path : Bytes → Option Bytes)
    (exists : Bytes → Bool) where
  unfoldable pub with_static_dir : Config → Config
  with_static_dir cfg =
      if is_blank cfg.static_dir && exists (codes "web")
      then record cfg { static_dir = codes "web" }
      else cfg

  unfoldable pub server_of : Config → Server
  unfolding new_store itoa
  server_of cfg = record {
    addr = cfg.host ++ (codes ":" ++ itoa cfg.port);
    cfg = cfg;
    store = record (new_store (default_session_command getenv look_path) cfg.files_root) {
      idle_grace = cfg.idle_timeout;
      close_grace = cfg.close_timeout;
    };
    reap_interval = pos 5000000000;
  }

  unfoldable pub boot_with : Loaded → Option Server
  unfolding with_static_dir server_of
  boot_with (loaded cfg) = some (server_of (with_static_dir cfg))
  boot_with bad_port = none
  boot_with bad_idle_timeout = none
  boot_with bad_close_timeout = none

  unfoldable pub boot : Option Server
  unfolding boot_with
  boot = boot_with (load_config getenv home)

  -- What a server that listens has been set up with.
  pub record IsSetUp (server : Server) : Type 0 where
    pub port : ℕ
    pub small : port ≤ 65535
    pub asked : atoi (env_or getenv home (codes "WT_PORT") (codes "7777")) ≡ some (pos port)
    address : server.addr ≡ server.cfg.host ++ (codes ":" ++ itoa (pos port))
    readable : atoi (itoa (pos port)) ≡ some (pos port)
    pub idle :
        IsTimeout getenv home (codes "WT_IDLE_TIMEOUT") (codes "1800") server.store.idle_grace
    pub close :
        IsTimeout getenv home (codes "WT_CLOSE_TIMEOUT") (codes "10") server.store.close_grace
    pub empty : server.store.sessions ≡ []
    pub command : server.store.default_command ≢ []

  abbrev no_sessions : Store
  no_sessions = new_store [] []

  set_up :
      (cfg : Config) (n : ℕ) → cfg.port ≡ pos n → IsRead getenv home cfg → IsSetUp (server_of cfg)
  unfolding server_of new_store
  set_up cfg n e v = record {
    port = n;
    small = ground (arith, v.port_high, e);
    asked = v.port ∙ ap some e;
    address = ap (λ z. cfg.host ++ (codes ":" ++ itoa z)) e;
    readable = atoi-itoa n (ground (arith, v.port_high, e));
    idle = v.idle;
    close = v.close;
    empty = refl;
    command = λ none_left. absurd (
        ground (
          arith,
          (default_session_command-IsLogin getenv look_path (λ _. none) [] no_sessions).0.1,
          none_left,
        ));
  }

  of_port : (cfg : Config) (z : ℤ) → cfg.port ≡ z → IsRead getenv home cfg → IsSetUp (server_of cfg)
  of_port cfg (pos n) e v = set_up cfg n e v
  of_port cfg (negsuc n) e v = absurd (ground (arith, v.port_low, e))

  with_static_dir-IsRead :
      (cfg : Config) → IsRead getenv home cfg → IsRead getenv home (with_static_dir cfg)
  unfolding with_static_dir
  with_static_dir-IsRead cfg v =
      if_cases (IsRead getenv home) (is_blank cfg.static_dir && exists (codes "web")) _ cfg
        (λ found. record {
          port = v.port;
          port_low = v.port_low;
          port_high = v.port_high;
          idle = v.idle;
          close = v.close;
        })
        (λ none_found. v)

  -- A server that main starts listens at the configured host and at the port that WT_PORT asks for,
  -- between 0 and 65535, written so that it is read back as that port; its reaper uses the timeouts
  -- of the environment as its graces; its store is empty and its default command is not.
  pub boot-IsSetUp : (server : Server) → boot ≡ some server → IsSetUp server
  unfolding boot boot_with
  boot-IsSetUp server e = of_loaded (load_config getenv home) refl e
    where
      of_loaded :
          (l : Loaded) → load_config getenv home ≡ l → boot_with l ≡ some server → IsSetUp server
      of_loaded (loaded cfg) there e =
          subst IsSetUp (ground arith) (
            of_port _ _ refl
              (with_static_dir-IsRead cfg (load_config-IsRead getenv home cfg there)))
      of_loaded bad_port there e = absurd (ground arith)
      of_loaded bad_idle_timeout there e = absurd (ground arith)
      of_loaded bad_close_timeout there e = absurd (ground arith)
