-- ===== src/Paths/Split.antt =====
-- Paths as lists of elements: splitting what was put together, and resolving `.` and `..`.
use web_terminal.Prelude.{
  ℕ, ◌≡◌, ◌≢◌, refl, sym, ap, ◌∙◌, Bool, true, false, not, ◌&&◌, ◌||◌, List, [], ◌∷◌, ◌++◌,
  append-nil, append_assoc, Bytes, All, All-append, arith, ◌==◌, if◌then◌else◌, if_cases,
}
use web_terminal.Prelude.Text.{codes, str_eq}
use web_terminal.Paths.{add_first, split_slash, pop, can_pop, resolve_one, resolve, slashed}

abbrev pub no_slash : Bytes → Bool
no_slash [] = true
no_slash (c ∷ cs) = not (c == b'/') && no_slash cs

-- An element that names something below a directory: not empty, `.` or `..`, and with no slash.
abbrev pub is_element : Bytes → Bool
is_element part =
    not (str_eq part [] || str_eq part (codes "."))
    && not (str_eq part (codes ".."))
    && no_slash part

abbrev pub IsElement : Bytes → Type 0
IsElement part = is_element part ≡ true

abbrev pub NoSlash : Bytes → Type 0
NoSlash part = no_slash part ≡ true

add_first-append :
    (c : ℕ) (xs ys : List Bytes) → xs ≢ [] → add_first c (xs ++ ys) ≡ add_first c xs ++ ys
add_first-append c [] ys some = absurd (some refl)
add_first-append c (x ∷ xs) ys some = refl

split_slash-some : (s : Bytes) → split_slash s ≢ []
unfolding split_slash
split_slash-some [] = λ e. cc
split_slash-some (c ∷ cs) =
    if_cases (λ l. l ≢ []) (c == b'/') ([] ∷ split_slash cs) (add_first c (split_slash cs))
      (λ slash e. cc) (λ other. add_first-some (split_slash cs))
  where
    add_first-some : (l : List Bytes) → add_first c l ≢ []
    add_first-some [] e = cc
    add_first-some (x ∷ l) e = cc

-- A slash parts the elements before it from those after it.
pub split_slash-append :
    (a b : Bytes) → split_slash (a ++ b'/' ∷ b) ≡ split_slash a ++ split_slash b
unfolding split_slash
split_slash-append [] b = refl
split_slash-append (c ∷ a) b = ground (
  arith,
  split_slash-append a b,
  add_first-append c (split_slash a) (split_slash b) (split_slash-some a),
)

split_slash_alone : (s : Bytes) → NoSlash s → split_slash s ≡ s ∷ []
unfolding split_slash
split_slash_alone [] h = refl
split_slash_alone (c ∷ s) h = ground (arith, split_slash_alone s)

pub split_slash-NoSlash : (s : Bytes) → All NoSlash (split_slash s)
unfolding split_slash
split_slash-NoSlash [] = (refl, tt)
split_slash-NoSlash (c ∷ s) =
    if_cases (All NoSlash) (c == b'/') ([] ∷ split_slash s) (add_first c (split_slash s))
      (λ slash. (refl, split_slash-NoSlash s))
      (λ other. add_first-NoSlash other (split_slash s) (split_slash-NoSlash s))
  where
    add_first-NoSlash :
        c == b'/' ≡ false → (l : List Bytes) → All NoSlash l → All NoSlash (add_first c l)
    add_first-NoSlash other [] v = (rw other refl, tt)
    add_first-NoSlash other (x ∷ l) v = (rw other v.0, v.1)

IsElement-NoSlash : (part : Bytes) → IsElement part → NoSlash part
IsElement-NoSlash part h =
    last (str_eq part [] || str_eq part (codes ".")) (str_eq part (codes "..")) (no_slash part) h
  where
    last : (a b c : Bool) → (not a && not b && c) ≡ true → c ≡ true
    last false false c h = h
    last false true c h = cc
    last true b c h = cc

-- Elements that were put after each other with slashes are found again.
pub split_part :
    (part : Bytes) (parts : List Bytes)
    → All IsElement (part ∷ parts)
    → split_slash (part ++ slashed parts) ≡ part ∷ parts
split_part part [] v =
    ap split_slash (append-nil part) ∙ split_slash_alone part (IsElement-NoSlash part v.0)
split_part part (next ∷ parts) v =
    split_slash-append part (next ++ slashed parts)
    ∙ ap (λ l. l ++ split_slash (next ++ slashed parts))
        (split_slash_alone part (IsElement-NoSlash part v.0))
    ∙ ap (◌∷◌ part) (split_part next parts v.1)

pub resolve-append :
    (rooted : Bool) (kept xs ys : List Bytes)
    → resolve rooted kept (xs ++ ys) ≡ resolve rooted (resolve rooted kept xs) ys
unfolding resolve
resolve-append rooted kept [] ys = refl
resolve-append rooted kept (x ∷ xs) ys = resolve-append rooted (resolve_one rooted kept x) xs ys

-- An empty element is skipped, and any element that is none of the special ones is kept.
resolve_one-empty : (rooted : Bool) (kept : List Bytes) → resolve_one rooted kept [] ≡ kept
unfolding resolve_one
resolve_one-empty rooted kept = refl

resolve_one-element :
    (rooted : Bool) (kept : List Bytes) (part : Bytes)
    → IsElement part
    → resolve_one rooted kept part ≡ kept ++ part ∷ []
unfolding resolve_one
resolve_one-element rooted kept part h =
    plain (str_eq part [] || str_eq part (codes ".")) (str_eq part (codes "..")) (no_slash part) h
  where
    plain :
        (a b c : Bool)
        → (not a && not b && c) ≡ true
        → (if a
            then kept
            else if not b
            then kept ++ part ∷ []
            else if can_pop kept
            then pop kept
            else if rooted
            then kept
            else kept ++ part ∷ [])
          ≡ kept ++ part ∷ []
    plain false false c h = refl
    plain false true c h = cc
    plain true b c h = cc

pub resolve_elements :
    (rooted : Bool) (kept parts : List Bytes)
    → All IsElement parts
    → resolve rooted kept parts ≡ kept ++ parts
unfolding resolve
resolve_elements rooted kept [] v = sym (append-nil kept)
resolve_elements rooted kept (part ∷ parts) v =
    ap (λ k. resolve rooted k parts) (resolve_one-element rooted kept part v.0)
    ∙ resolve_elements rooted (kept ++ part ∷ []) parts v.1
    ∙ append_assoc kept (part ∷ []) parts

pop-All : (P : Bytes → Type 0) (parts : List Bytes) → All P parts → All P (pop parts)
unfolding pop
pop-All P [] v = tt
pop-All P (part ∷ []) v = tt
pop-All P (part ∷ next ∷ parts) v = (v.0, pop-All P (next ∷ parts) v.1)

resolve_one-All :
    (kept : List Bytes) (part : Bytes)
    → All IsElement kept
    → NoSlash part
    → All IsElement (resolve_one true kept part)
unfolding resolve_one
resolve_one-All kept part v h =
    if_cases (All IsElement) (str_eq part [] || str_eq part (codes ".")) kept _ (λ skipped. v)
      (λ named.
        if_cases (All IsElement) (not (str_eq part (codes ".."))) (kept ++ part ∷ []) _
          (λ plain. All-append IsElement kept (part ∷ []) v (rw (named, plain, h) refl, tt))
          (λ up.
            if_cases (All IsElement) (can_pop kept) (pop kept) kept
              (λ some. pop-All IsElement kept v) (λ none_left. v)))

-- What a rooted path resolves to, whatever elements it has, are elements below the root.
pub resolve-All :
    (kept parts : List Bytes)
    → All IsElement kept
    → All NoSlash parts
    → All IsElement (resolve true kept parts)
unfolding resolve
resolve-All kept [] v h = v
resolve-All kept (part ∷ parts) v h =
    resolve-All (resolve_one true kept part) parts (resolve_one-All kept part v h.0) h.1
