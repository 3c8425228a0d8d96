-- ===== src/Config.antt =====
-- The configuration: LoadConfig of internal/web/server.go, LoadAppearance of
-- internal/web/appearance.go, and itoa of main.go, over strconv.Atoi and the functions of strings as
-- they act on ASCII text. `getenv` is os.Getenv and `home` os.UserHomeDir, `none` its error.
pub mod Decimal
pub mod Loading
use web_terminal.Prelude.{
  ℕ, zero, suc, ◌+◌, ◌*◌, ◌-◌, ◌/◌, ◌%◌, ◌^◌, Bool, true, false, not, ◌&&◌, ◌||◌, Option, none,
  some, List, [], ◌∷◌, ◌++◌, Bytes, ltb, leb, ◌==◌, if◌then◌else◌,
}
use web_terminal.Prelude.Int.{ℤ, pos, negsuc, mul64, ltb_ℤ}
use web_terminal.Prelude.Text.{codes, str_eq}

-- The loop of itoa: `room` is what is left of its buffer, `text` what was written to its end.
unfoldable pub itoa_digits : ℕ → ℕ → Bytes → Bytes
itoa_digits zero n text = text
itoa_digits (suc room) n text =
    let rest = itoa_digits room (n / 10) ((b'0' + n % 10) ∷ text) in if n == 0 then text else rest

unfoldable pub itoa : ℤ → Bytes
itoa (negsuc n) = []
itoa (pos n) = if n == 0 then codes "0" else itoa_digits 20 n []

-- The digits of a number, after the number read so far.
unfoldable pub parse_digits : ℕ → Bytes → Option ℕ
parse_digits n [] = some n
parse_digits n (c ∷ cs) =
    let rest = parse_digits (10 * n + (c - b'0')) cs in
    if leb b'0' c && leb c b'9' then rest else none

unfoldable pub parse_some_digits : Bytes → Option ℕ
unfolding parse_digits
parse_some_digits [] = none
parse_some_digits (c ∷ cs) = parse_digits 0 (c ∷ cs)

-- strconv.Atoi
unfoldable pub atoi : Bytes → Option ℤ
unfolding parse_some_digits
atoi [] = none
atoi (c ∷ cs) =
    if c == b'-'
    then elim (parse_some_digits cs) [
      | none ↦ none
      | some n ↦
          if n == 0 then some (pos 0) else if leb n (2 ^ 63) then some (negsuc (n - 1)) else none
    ]
    else elim (parse_some_digits (if c == b'+' then cs else c ∷ cs)) [
      | none ↦ none
      | some n ↦ if ltb n (2 ^ 63) then some (pos n) else none
    ]

-- time.Duration(seconds) * time.Second
unfoldable pub seconds : ℤ → ℤ
seconds n = mul64 n (pos 1000000000)

abbrev pub is_space : ℕ → Bool
is_space c = (leb 9 c && leb c 13) || c == 32

unfoldable pub trim_left : Bytes → Bytes
trim_left [] = []
trim_left (c ∷ cs) = if is_space c then trim_left cs else c ∷ cs

abbrev pub all_space : Bytes → Bool
all_space [] = true
all_space (c ∷ cs) = is_space c && all_space cs

unfoldable pub trim_right : Bytes → Bytes
trim_right [] = []
trim_right (c ∷ cs) = if all_space (c ∷ cs) then [] else c ∷ trim_right cs

-- strings.TrimSpace
unfoldable pub trim_space : Bytes → Bytes
unfolding trim_left trim_right
trim_space s = trim_right (trim_left s)

-- strings.ToLower
unfoldable to_lower : Bytes → Bytes
to_lower [] = []
to_lower (c ∷ cs) = (if leb b'A' c && leb c b'Z' then c + 32 else c) ∷ to_lower cs

-- The first part of strings.Split(s, ",") and the other parts.
unfoldable pub split_comma : Bytes → Bytes × List Bytes
split_comma [] = ([], [])
split_comma (c ∷ cs) =
    let (part, parts) = split_comma cs in
    if c == b',' then ([], part ∷ parts) else (c ∷ part, parts)

abbrev pub is_blank : Bytes → Bool
is_blank [] = true
is_blank (c ∷ cs) = false

-- The loop over the parts: the trimmed ones that are not empty.
unfoldable pub keep_origins : List Bytes → List Bytes
keep_origins [] = []
keep_origins (o ∷ os) =
    if is_blank (trim_space o) then keep_origins os else trim_space o ∷ keep_origins os

unfoldable pub split_origins : Bytes → List Bytes
unfolding keep_origins split_comma
split_origins s =
    let (part, parts) = split_comma s in if is_blank s then [] else keep_origins (part ∷ parts)

pub record Appearance : Type 0 where
  pub theme : Bytes
  pub font : Bytes
  pub font_size : ℤ
  pub alpha : Bool

pub record Config : Type 0 where
  pub host : Bytes
  pub port : ℤ
  pub files_root : Bytes
  pub static_dir : Bytes
  pub no_cache : Bool
  pub idle_timeout : ℤ
  pub close_timeout : ℤ
  pub allowed_origins : List Bytes
  pub appearance : Appearance

-- What LoadConfig returns: a configuration or one of its three errors.
pub data Loaded : Type 0 where
  loaded : Config → Loaded
  bad_port bad_idle_timeout bad_close_timeout : Loaded

abbrev pub is_valid_theme : Bytes → Bool
is_valid_theme s =
    str_eq s (codes "catppuccin-mocha")
    || str_eq s (codes "tokyo-night")
    || str_eq s (codes "gruvbox-dark")

abbrev pub is_valid_font : Bytes → Bool
is_valid_font s =
    str_eq s (codes "lilex") || str_eq s (codes "jetbrains-mono") || str_eq s (codes "iosevka")

-- The switch of envBool.
unfoldable bool_of : Bytes → Bool → Bool
bool_of s fallback =
    if str_eq s (codes "1")
      || str_eq s (codes "true")
      || str_eq s (codes "yes")
      || str_eq s (codes "on")
    then true
    else if str_eq s (codes "0")
        || str_eq s (codes "false")
        || str_eq s (codes "no")
        || str_eq s (codes "off")
    then false
    else fallback

module _ (getenv : Bytes → Bytes) (home : Option Bytes) where
  unfoldable pub env_or : Bytes → Bytes → Bytes
  env_or key fallback = if is_blank (getenv key) then fallback else getenv key

  unfoldable pub must_home : Bytes
  must_home = elim home [ none ↦ codes "/" | some h ↦ h ]

  unfoldable env_bool : Bytes → Bool → Bool
  unfolding bool_of trim_space to_lower
  env_bool key fallback = bool_of (to_lower (trim_space (getenv key))) fallback

  unfoldable font_size_of : Bytes → ℤ
  unfolding atoi
  font_size_of v = elim (atoi v) [ none ↦ pos 14 | some n ↦ n ]

  unfoldable pub load_appearance : Appearance
  unfolding env_or env_bool font_size_of
  load_appearance =
      let theme = env_or (codes "WT_THEME") (codes "catppuccin-mocha") in
      let font = env_or (codes "WT_FONT") (codes "lilex") in
      record {
        theme = if is_valid_theme theme then theme else codes "catppuccin-mocha";
        font = if is_valid_font font then font else codes "lilex";
        font_size =
            if is_blank (getenv (codes "WT_FONT_SIZE"))
            then pos 14
            else font_size_of (getenv (codes "WT_FONT_SIZE"));
        alpha = env_bool (codes "WT_ALPHA") false;
      }

  -- A number of the environment that must be at least 0 and at most `most`, if there is a bound.
  unfoldable pub read_number : Bytes → Bytes → Option ℤ → Option ℤ
  unfolding env_or atoi
  read_number key fallback most = elim (atoi (env_or key fallback)) [
    | none ↦ none
    | some n ↦
        if ltb_ℤ n (pos 0) || elim most [ none ↦ false | some m ↦ ltb_ℤ m n ] then none else some n
  ]

  unfoldable pub config_of : ℤ → ℤ → ℤ → Config
  unfolding env_or must_home seconds split_origins load_appearance
  config_of port idle_seconds close_seconds = record {
    host = env_or (codes "WT_HOST") (codes "127.0.0.1");
    port = port;
    files_root = env_or (codes "WT_FILES_ROOT") must_home;
    static_dir = env_or (codes "WT_STATIC_DIR") [];
    no_cache = not (is_blank (getenv (codes "WT_NO_CACHE")));
    idle_timeout = seconds idle_seconds;
    close_timeout = seconds close_seconds;
    allowed_origins = split_origins (getenv (codes "WT_ALLOWED_ORIGINS"));
    appearance = load_appearance;
  }

  -- LoadConfig
  unfoldable pub load_config : Loaded
  unfolding read_number config_of
  load_config = elim (read_number (codes "WT_PORT") (codes "7777") (some (pos 65535))) [
    | none ↦ bad_port
    | some port ↦ elim (read_number (codes "WT_IDLE_TIMEOUT") (codes "1800") none) [
      | none ↦ bad_idle_timeout
      | some idle_seconds ↦ elim (read_number (codes "WT_CLOSE_TIMEOUT") (codes "10") none) [
        | none ↦ bad_close_timeout
        | some close_seconds ↦ loaded (config_of port idle_seconds close_seconds)
      ]
    ]
  ]
