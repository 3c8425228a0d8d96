-- ===== src/Wstest/Search.antt =====
-- contains against the definition of a part of a text.
use web_terminal.Prelude.{
  ℕ, zero, suc, ◌+◌, ◌≤◌, ◌<◌, ◌≡◌, ◌≢◌, ◌↔◌, refl, sym, ap, ◌∙◌, inl, inr, true, [], ◌∷◌, ◌++◌,
  Bytes, length, take, drop, arith, Bool-cases, take-append-drop, subst, dec_lt, take-append_self,
  drop-append_self, length-append,
}
use web_terminal.Prelude.Text.{str_eq, str_eq→≡, str_eq_refl}
use web_terminal.Wstest.{search_from, string_contains, contains}

-- `sub` stands somewhere in `s`.
abbrev pub Occurs : Bytes → Bytes → Type 0
Occurs s sub = (before : Bytes) × (after : Bytes) × (s ≡ before ++ (sub ++ after))

str_eq-Occurs :
    (i : ℕ) (s sub : Bytes) → str_eq (take (length sub) (drop i s)) sub ≡ true → Occurs s sub
str_eq-Occurs i s sub e = (
  take i s,
  drop (length sub) (drop i s),
  sym (take-append-drop i s)
      ∙ ap (◌++◌ (take i s)) (
          sym (take-append-drop (length sub) (drop i s))
          ∙ ap (λ k. k ++ drop (length sub) (drop i s)) (str_eq→≡ _ sub e)),
)

search-Occurs : (rounds i : ℕ) (s sub : Bytes) → search_from rounds i s sub ≡ true → Occurs s sub
unfolding search_from
search-Occurs zero i s sub e = cc
search-Occurs (suc rounds) i s sub e =
    elim (Bool-cases (str_eq (take (length sub) (drop i s)) sub)) [
      | inl hit ↦ str_eq-Occurs i s sub hit
      | inr miss ↦ search-Occurs rounds (i + 1) s sub (ground (arith, miss))
    ]

found_here :
    (before after sub : Bytes)
    → str_eq (take (length sub) (drop (length before) (before ++ (sub ++ after)))) sub ≡ true
found_here before after sub =
    rw (drop-append_self before (sub ++ after), take-append_self sub after) (str_eq_refl sub)

search-found :
    (rounds i : ℕ) (before after sub : Bytes)
    → i ≤ length before
    → length before < i + rounds
    → search_from rounds i (before ++ (sub ++ after)) sub ≡ true
unfolding search_from
search-found zero i before after sub le more = absurd (omega arith)
search-found (suc rounds) i before after sub le more = elim (dec_lt i (length before)) [
  | yes short ↦ ground (
    arith,
    search-found rounds (i + 1) before after sub (omega arith) (omega arith),
    length-append before (sub ++ after),
    length-append sub after,
  )
  | no reached ↦
      ground
        (arith, hit_at (omega arith), length-append before (sub ++ after), length-append sub after)
]
  where
    hit_at :
        i ≡ length before
        → str_eq (take (length sub) (drop i (before ++ (sub ++ after)))) sub ≡ true
    hit_at e =
        ap (λ k. str_eq (take (length sub) (drop k (before ++ (sub ++ after)))) sub) e
        ∙ found_here before after sub

-- stringContains and contains find exactly the parts of a text: for a text that is not empty, contains
-- is true when and only when the text is something before, the needle, and something after; and the
-- rounds of its loop are enough.
pub contains_iff :
    (hay needle : Bytes) → (contains hay needle ≡ true) ↔ ((hay ≢ []) × Occurs hay needle)
unfolding contains string_contains
contains_iff [] needle = ((λ e. cc), λ v. absurd (v.0 refl))
contains_iff (x ∷ xs) needle = (there, back)
  where
    there : contains (x ∷ xs) needle ≡ true → ((x ∷ xs) ≢ []) × Occurs (x ∷ xs) needle
    there e = ((λ k. cc), search-Occurs (length (x ∷ xs) + 1) 0 (x ∷ xs) needle (ground arith))

    back : ((x ∷ xs) ≢ []) × Occurs (x ∷ xs) needle → contains (x ∷ xs) needle ≡ true
    back (some, (before, after, e)) = ground (
      arith,
      subst (λ s. search_from (length s + 1) 0 s needle ≡ true) (sym e)
          (search-found (length (before ++ (needle ++ after)) + 1) 0 before after needle
            (omega arith) (omega (arith, length-append before (needle ++ after)))),
    )
