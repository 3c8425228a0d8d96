-- ===== src/Config/Decimal.antt =====
-- Numbers as decimal text: itoa and strconv.Atoi.
use native.Mathlib.Numerals.{unary_clauses}
use web_terminal.Prelude.{
  ℕ, zero, suc, ◌+◌, ◌*◌, ◌/◌, ◌%◌, ◌^◌, ◌≤◌, ◌<◌, ◌≡◌, refl, sym, ap, ◌∙◌, some, [], ◌∷◌, Bytes,
  arith, if_cases, ◌==◌, false,
}
use web_terminal.Prelude.Int.{pos}
use web_terminal.Config.{itoa_digits, itoa, parse_digits, parse_some_digits, atoi}

parse-digit :
    (m n : ℕ) (text : Bytes)
    → parse_digits m ((b'0' + n % 10) ∷ text) ≡ parse_digits (10 * m + n % 10) text
unfolding parse_digits
parse-digit m n text = ground arith

-- The digits that itoa writes before a text are read as its number, if its buffer has room for them.
parse-itoa_digits :
    (room n : ℕ) (text : Bytes)
    → n < 10 ^ room
    → parse_digits 0 (itoa_digits room n text) ≡ parse_digits n text
unfolding itoa_digits
parse-itoa_digits zero n text h = ap (λ k. parse_digits k text) (omega arith)
parse-itoa_digits (suc room) n text h =
    if_cases (λ t. parse_digits 0 t ≡ parse_digits n text) (n == 0) text _
      (λ none_left. ap (λ k. parse_digits k text) (ground arith))
      (λ more.
        parse-itoa_digits room (n / 10) ((b'0' + n % 10) ∷ text)
          (smaller (10 ^ room) (simp unary_clauses at h))
        ∙ parse-digit (n / 10) n text
        ∙ ap (λ k. parse_digits k text) (omega arith))
  where
    smaller : (p : ℕ) → n < p * 10 → n / 10 < p
    smaller p h = omega arith

-- The text that it writes begins with a digit.
begins_digit :
    (room n c : ℕ) (text : Bytes)
    → b'0' ≤ c
    → (d : ℕ) × (rest : Bytes) × (itoa_digits room n (c ∷ text) ≡ d ∷ rest) × (b'0' ≤ d)
unfolding itoa_digits
begins_digit zero n c text h = (c, text, refl, h)
begins_digit (suc room) n c text h =
    if_cases (λ t. (d : ℕ) × (rest : Bytes) × (t ≡ d ∷ rest) × (b'0' ≤ d)) (n == 0) (c ∷ text) _
      (λ none_left. (c, text, refl, h))
      (λ more. begins_digit room (n / 10) (b'0' + n % 10) (c ∷ text) (omega arith))

-- A text of digits that begins with one is read by Atoi as its number, if that fits an int64.
atoi-digits :
    (d n : ℕ) (rest : Bytes)
    → b'0' ≤ d
    → n < 2 ^ 63
    → parse_digits 0 (d ∷ rest) ≡ some n
    → atoi (d ∷ rest) ≡ some (pos n)
unfolding atoi parse_some_digits
atoi-digits d n rest digit fits e = ground arith

-- For a number that is not zero itoa writes at least one digit.
digits_lead :
    (room n : ℕ)
    → n == 0 ≡ false
    → (d : ℕ) × (rest : Bytes) × (itoa_digits (suc room) n [] ≡ d ∷ rest) × (b'0' ≤ d)
unfolding itoa_digits
digits_lead room n more = rw more (begins_digit room (n / 10) (b'0' + n % 10) [] (omega arith))

-- Atoi reads from what itoa writes the number that went in, for every int64 that is not negative.
pub atoi-itoa : (n : ℕ) → n < 2 ^ 63 → atoi (itoa (pos n)) ≡ some (pos n)
unfolding itoa
atoi-itoa n fits =
    if_cases (λ t. atoi t ≡ some (pos n)) (n == 0) (b'0' ∷ []) _
      (λ zero_value. zero_text ∙ ap (λ k. some (pos k)) (ground arith))
      (λ more.
        let (d, rest, e, digit) = digits_lead 19 n more in
        ap atoi e
        ∙ atoi-digits d n rest digit fits
            (ap (parse_digits 0) (sym e) ∙ parse-itoa_digits 20 n [] (omega arith) ∙ read_all))
  where
    zero_text : atoi (b'0' ∷ []) ≡ some (pos 0)
    zero_text = atoi-digits b'0' 0 [] (omega arith) (omega arith) (unfold parse_digits in refl)

    read_all : parse_digits n [] ≡ some n
    read_all = unfold parse_digits in refl
