-- ===== src/Config/Loading.antt =====
-- What LoadConfig and LoadAppearance accept and return.
use web_terminal.Prelude.{
  ℕ, ◌*◌, ◌-◌, ◌^◌, ◌≤◌, ◌≡◌, refl, inl, inr, Bool, true, false, ◌||◌, Option, some, none, List, [],
  ◌∷◌, Bytes, All, arith, if_cases, Option-cases, ◌==◌, subst,
}
use web_terminal.Prelude.Int.{ℤ, pos, negsuc, mul64, wrap64, ◌≤ℤ◌}
use web_terminal.Prelude.Text.{codes}
use web_terminal.Session.{Session, kill_if_idle, applicable_grace}
use web_terminal.Config.{
  atoi, seconds, trim_left, trim_right, trim_space, is_blank, split_comma, keep_origins,
  split_origins, Config, loaded, is_valid_theme, is_valid_font, env_or, read_number, config_of,
  load_config, load_appearance,
}

-- Seconds that fit are counted in nanoseconds exactly.
seconds-pos : (n : ℕ) → n ≤ 9223372036 → seconds (pos n) ≡ pos (n * 1000000000)
unfolding seconds mul64 wrap64
seconds-pos n h = ground arith

-- Too many seconds become a negative duration, with which the reaper kills no session that has no
-- grace of its own.
overflow_disables :
    (n : ℕ) (s : Session) (now : ℕ)
    → 9223372037 ≤ n
    → n ≤ 18446744073
    → s.idle_grace ≡ pos 0
    → kill_if_idle s now (seconds (pos n)) ≡ (false, s)
unfolding kill_if_idle applicable_grace
overflow_disables n s now low high own = rw (seconds-negative n low high) (ground arith)
  where
    seconds-negative :
        (n : ℕ)
        → 9223372037 ≤ n
        → n ≤ 18446744073
        → seconds (pos n) ≡ negsuc (2 ^ 64 - 1 - n * 1000000000)
    seconds-negative n l h = unfold seconds mul64 wrap64 in ground arith

module _ (getenv : Bytes → Bytes) (home : Option Bytes) where
  read_number-some :
      (key fallback : Bytes) (most : Option ℤ) (n : ℤ)
      → read_number getenv home key fallback most ≡ some n
      → (atoi (env_or getenv home key fallback) ≡ some n) × (pos 0 ≤ℤ n)
  unfolding read_number
  read_number-some key fallback most n e =
      elim (Option-cases (atoi (env_or getenv home key fallback))) [
        | inl nothing ↦ absurd (ground arith)
        | inr (m, there) ↦ ground arith
      ]

  -- In every environment the theme and the font are ones that the frontend has.
  load_appearance-IsValid :
      (is_valid_theme (load_appearance getenv home).theme ≡ true)
      × (is_valid_font (load_appearance getenv home).font ≡ true)
  unfolding load_appearance
  load_appearance-IsValid = (
    if_cases (λ t. is_valid_theme t ≡ true)
        (is_valid_theme (env_or getenv home (codes "WT_THEME") (codes "catppuccin-mocha"))) _ _
        (λ valid. valid) (λ _. refl),
    if_cases (λ t. is_valid_font t ≡ true)
        (is_valid_font (env_or getenv home (codes "WT_FONT") (codes "lilex"))) _ _ (λ valid. valid)
        (λ _. refl),
  )

  -- A timeout that was read from a variable in seconds: exact if it fits.
  abbrev pub IsTimeout : Bytes → Bytes → ℤ → Type 0
  IsTimeout key fallback t =
      (n : ℕ) × (atoi (env_or getenv home key fallback) ≡ some (pos n))
      × (n ≤ 9223372036 → t ≡ pos (n * 1000000000))

  -- What is meant by a configuration that was read.
  pub record IsRead (c : Config) : Type 0 where
    pub port : atoi (env_or getenv home (codes "WT_PORT") (codes "7777")) ≡ some c.port
    pub port_low : pos 0 ≤ℤ c.port
    pub port_high : c.port ≤ℤ pos 65535
    pub idle : IsTimeout (codes "WT_IDLE_TIMEOUT") (codes "1800") c.idle_timeout
    pub close : IsTimeout (codes "WT_CLOSE_TIMEOUT") (codes "10") c.close_timeout

  read-IsTimeout :
      (key fallback : Bytes) (n : ℤ)
      → read_number getenv home key fallback none ≡ some n
      → IsTimeout key fallback (seconds n)
  read-IsTimeout key fallback (pos n) e =
      (n, (read_number-some key fallback none (pos n) e).0, seconds-pos n)
  read-IsTimeout key fallback (negsuc n) e =
      absurd (ground (arith, (read_number-some key fallback none (negsuc n) e).1))

  port_bound :
      (n : ℤ)
      → read_number getenv home (codes "WT_PORT") (codes "7777") (some (pos 65535)) ≡ some n
      → n ≤ℤ pos 65535
  unfolding read_number
  port_bound n e =
      elim (Option-cases (atoi (env_or getenv home (codes "WT_PORT") (codes "7777")))) [
        | inl nothing ↦ absurd (ground arith)
        | inr (m, there) ↦ ground arith
      ]

  of_numbers :
      (port idle close : ℤ)
      → read_number getenv home (codes "WT_PORT") (codes "7777") (some (pos 65535)) ≡ some port
      → read_number getenv home (codes "WT_IDLE_TIMEOUT") (codes "1800") none ≡ some idle
      → read_number getenv home (codes "WT_CLOSE_TIMEOUT") (codes "10") none ≡ some close
      → IsRead (config_of getenv home port idle close)
  unfolding config_of
  of_numbers port idle close p i k = record {
    port = (read_number-some (codes "WT_PORT") (codes "7777") (some (pos 65535)) port p).0;
    port_low = (read_number-some (codes "WT_PORT") (codes "7777") (some (pos 65535)) port p).1;
    port_high = port_bound port p;
    idle = read-IsTimeout (codes "WT_IDLE_TIMEOUT") (codes "1800") idle i;
    close = read-IsTimeout (codes "WT_CLOSE_TIMEOUT") (codes "10") close k;
  }

  -- A configuration that LoadConfig returns has the port of WT_PORT, between 0 and 65535, and the
  -- timeouts of WT_IDLE_TIMEOUT and WT_CLOSE_TIMEOUT, which are not negative numbers of seconds and,
  -- up to 9223372036, are counted in nanoseconds exactly; a variable that is unset or empty has its
  -- default, 7777, 1800 or 10.
  pub load_config-IsRead : (c : Config) → load_config getenv home ≡ loaded c → IsRead c
  unfolding load_config config_of
  load_config-IsRead c e =
      elim (Option-cases
        (read_number getenv home (codes "WT_PORT") (codes "7777") (some (pos 65535)))) [
          | inl bad ↦ absurd (ground arith)
          | inr (port, p) ↦
              elim (Option-cases
                (read_number getenv home (codes "WT_IDLE_TIMEOUT") (codes "1800") none)) [
                  | inl bad ↦ absurd (ground arith)
                  | inr (idle, i) ↦
                      elim (Option-cases
                        (read_number getenv home (codes "WT_CLOSE_TIMEOUT") (codes "10") none)) [
                          | inl bad ↦ absurd (ground arith)
                          | inr (close, k) ↦
                              subst IsRead (ground arith) (of_numbers port idle close p i k)
                        ]
                ]
        ]

abbrev has_comma : Bytes → Bool
has_comma [] = false
has_comma (c ∷ cs) = c == b',' || has_comma cs

trim_left-comma : (s : Bytes) → has_comma s ≡ false → has_comma (trim_left s) ≡ false
unfolding trim_left
trim_left-comma [] h = refl
trim_left-comma (c ∷ cs) h = ground (arith, trim_left-comma cs)

trim_right-comma : (s : Bytes) → has_comma s ≡ false → has_comma (trim_right s) ≡ false
unfolding trim_right
trim_right-comma [] h = refl
trim_right-comma (c ∷ cs) h = ground (arith, trim_right-comma cs)

abbrev NoComma : Bytes → Type 0
NoComma s = has_comma s ≡ false

split-NoComma : (s : Bytes) → NoComma (split_comma s).0 × All NoComma (split_comma s).1
unfolding split_comma
split-NoComma [] = (refl, tt)
split-NoComma (c ∷ cs) = ground (arith, split-NoComma cs)

abbrev pub IsOrigin : Bytes → Type 0
IsOrigin o = (is_blank o ≡ false) × NoComma o

keep-IsOrigin : (os : List Bytes) → All NoComma os → All IsOrigin (keep_origins os)
unfolding keep_origins trim_space
keep-IsOrigin [] v = tt
keep-IsOrigin (o ∷ os) v =
    ground (arith, keep-IsOrigin os v.1, trim_right-comma (trim_left o) (trim_left-comma o v.0))

-- Whatever WT_ALLOWED_ORIGINS holds, no origin is empty or has a comma.
split_origins-IsOrigin : (s : Bytes) → All IsOrigin (split_origins s)
unfolding split_origins keep_origins
split_origins-IsOrigin s =
    if_cases (All IsOrigin) (is_blank s) [] _ (λ none_given. tt)
      (λ given. keep-IsOrigin ((split_comma s).0 ∷ (split_comma s).1) (split-NoComma s))
