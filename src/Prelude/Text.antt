-- ===== src/Prelude/Text.antt =====
-- Byte strings: text literals as bytes, equality and prefixes.
use Prim.Native.Nat.{ℕ}
use Prim.Native.Char.{code}
use Prim.Native.String.{String}
use mathlib.Core.Path.{◌≡◌, refl}
use mathlib.Core.Bool.{Bool, true, false, ◌&&◌}
use mathlib.Core.List.{List, [], ◌∷◌}
use native.Mathlib.Omega.{arith}
use web_terminal.Prelude.Tests.{◌==◌}

-- The bytes of an ASCII literal.
abbrev pub codes : String → List ℕ
codes String.[] = []
codes (String.◌∷◌ c s) = code c ∷ codes s

-- a == b on strings
abbrev pub str_eq : List ℕ → List ℕ → Bool
str_eq [] [] = true
str_eq [] (y ∷ ys) = false
str_eq (x ∷ xs) [] = false
str_eq (x ∷ xs) (y ∷ ys) = x == y && str_eq xs ys

-- strings.HasPrefix(s, prefix), the prefix first
abbrev pub has_prefix : List ℕ → List ℕ → Bool
has_prefix [] s = true
has_prefix (x ∷ xs) [] = false
has_prefix (x ∷ xs) (y ∷ ys) = x == y && has_prefix xs ys

pub str_eq→≡ : (a b : List ℕ) → str_eq a b ≡ true → a ≡ b
str_eq→≡ [] [] h = refl
str_eq→≡ [] (y ∷ ys) h = cc
str_eq→≡ (x ∷ xs) [] h = cc
str_eq→≡ (x ∷ xs) (y ∷ ys) h = ground (arith, str_eq→≡ xs ys)

pub str_eq_refl : (a : List ℕ) → str_eq a a ≡ true
str_eq_refl [] = refl
str_eq_refl (x ∷ xs) = ground (arith, str_eq_refl xs)

str_eq_ne : (a b : List ℕ) → str_eq a b ≡ false → ¬ (a ≡ b)
str_eq_ne a b h e = ground (arith, str_eq_refl a)
