-- ===== src/Paths/Inside.antt =====
-- AbsPath against the elements of its root and of its path.
use web_terminal.Prelude.{
  ℕ, ◌≡◌, refl, sym, ap, ◌∙◌, Bool, true, false, not, ◌&&◌, ◌||◌, Option, none, some, List, [], ◌∷◌,
  ◌++◌, append-nil, append_assoc, Bytes, All, arith, ◌==◌, if◌then◌else◌,
}
use web_terminal.Prelude.Text.{codes, str_eq, str_eq_refl, has_prefix}
use web_terminal.Paths.{
  split_slash, resolve_one, resolve, slashed, render_rooted, clean, join, abs_path,
}
use web_terminal.Paths.Split.{
  no_slash, IsElement, split_slash-append, split_slash-NoSlash, split_part, resolve-append,
  resolve_elements, resolve-All,
}

-- The elements that a path names below a root, whatever `.` and `..` it has.
abbrev pub below_root : Bytes → List Bytes
below_root p = resolve true [] (split_slash p)

pub below_root-All : (p : Bytes) → All IsElement (below_root p)
below_root-All p = resolve-All [] (split_slash p) tt (split_slash-NoSlash p)

pub clean-rooted : (p : Bytes) → clean (b'/' ∷ p) ≡ render_rooted (below_root p)
unfolding clean
clean-rooted p = refl

-- What is kept goes on with the elements of a rooted path that is written out.
pub resolve-rendered :
    (kept parts : List Bytes)
    → All IsElement parts
    → resolve true kept (split_slash (render_rooted parts)) ≡ kept ++ parts
unfolding render_rooted split_slash resolve resolve_one
resolve-rendered kept [] v = sym (append-nil kept)
resolve-rendered kept (part ∷ parts) v =
    ap (resolve true kept) (split_part part parts v) ∙ resolve_elements true kept (part ∷ parts) v

pub slashed-append : (xs ys : List Bytes) → slashed (xs ++ ys) ≡ slashed xs ++ slashed ys
slashed-append [] ys = refl
slashed-append (x ∷ xs) ys =
    ap (λ k. b'/' ∷ (x ++ k)) (slashed-append xs ys)
    ∙ ap (◌∷◌ b'/') (sym (append_assoc x (slashed xs) (slashed ys)))

-- The join of a root, given by its elements, with a cleaned path.
join-rendered :
    (part : Bytes) (parts below : List Bytes)
    → All IsElement (part ∷ parts)
    → All IsElement below
    → join (slashed (part ∷ parts)) (render_rooted below) ≡ slashed (part ∷ parts) ++ slashed below
unfolding join render_rooted
join-rendered part parts below v w =
    ap render_rooted (
      ap (resolve true []) (split_slash-append (part ++ slashed parts) (render_rooted below))
      ∙ resolve-append true [] (split_slash (part ++ slashed parts))
          (split_slash (render_rooted below))
      ∙ ap (λ k. resolve true k (split_slash (render_rooted below)))
          (ap (resolve true []) (split_part part parts v)
            ∙ resolve_elements true [] (part ∷ parts) v)
      ∙ resolve-rendered (part ∷ parts) below w)
    ∙ slashed-append (part ∷ parts) below

has_prefix-append : (a b : Bytes) → has_prefix a (a ++ b) ≡ true
has_prefix-append [] b = refl
has_prefix-append (x ∷ a) b = ground (arith, has_prefix-append a b)

-- The path that AbsPath checks is the root or below it.
passes :
    (root : Bytes) (below : List Bytes)
    → (not (str_eq (root ++ slashed below) root)
        && not (has_prefix (root ++ b'/' ∷ []) (root ++ slashed below)))
      ≡ false
passes root [] = rw (append-nil, str_eq_refl root) refl
passes root (part ∷ below) = and_not (str_eq (root ++ slashed (part ∷ below)) root) (
    ap (has_prefix (root ++ b'/' ∷ []))
      (sym (append_assoc root (b'/' ∷ []) (part ++ slashed below)))
    ∙ has_prefix-append (root ++ b'/' ∷ []) (part ++ slashed below))
  where
    and_not : (a : Bool) {b : Bool} → b ≡ true → (not a && not b) ≡ false
    and_not true e = refl
    and_not false e = rw e refl

pub accepted :
    (part : Bytes) (parts : List Bytes) (p : Bytes)
    → All IsElement (part ∷ parts)
    → abs_path (slashed (part ∷ parts)) p ≡ some (slashed (part ∷ parts) ++ slashed (below_root p))
unfolding abs_path
accepted part parts p v =
    ap verdict (
      ap (join root) (clean-rooted p)
      ∙ join-rendered part parts (below_root p) v (below_root-All p))
    ∙ ap (λ b. if b then none else some (root ++ slashed (below_root p)))
        (passes root (below_root p))
  where
    root : Bytes
    root = slashed (part ∷ parts)

    verdict : Bytes → Option Bytes
    verdict full =
        if not (str_eq full root) && not (has_prefix (root ++ b'/' ∷ []) full)
        then none
        else some full

-- Whether a list of elements is empty.
abbrev pub is_top : List Bytes → Bool
is_top [] = true
is_top (part ∷ parts) = false

pub join-top :
    (below : List Bytes)
    → All IsElement below
    → join (codes "/") (render_rooted below) ≡ render_rooted below
unfolding join split_slash resolve resolve_one
join-top below w = ap render_rooted (resolve-rendered [] below w)

top_verdict : Bytes → Option Bytes
top_verdict full =
    if not (str_eq full (codes "/")) && not (has_prefix (codes "/" ++ b'/' ∷ []) full)
    then none
    else some full

element_head : (c : ℕ) (cs : Bytes) → IsElement (c ∷ cs) → c == b'/' ≡ false
element_head c cs h =
    head (str_eq (c ∷ cs) [] || str_eq (c ∷ cs) (codes ".")) (str_eq (c ∷ cs) (codes ".."))
      (c == b'/') (no_slash cs) h
  where
    head : (a b d e : Bool) → (not a && not b && (not d && e)) ≡ true → d ≡ false
    head false false false e h = refl
    head false false true e h = cc
    head false true d e h = cc
    head true b d e h = cc

top_verdict-rendered :
    (below : List Bytes)
    → All IsElement below
    → top_verdict (render_rooted below) ≡ (if is_top below then some (codes "/") else none)
unfolding top_verdict render_rooted
top_verdict-rendered [] w = refl
top_verdict-rendered ([] ∷ below) w = absurd (true-false (sym w.0))
  where
    true-false : true ≡ false → ⊥
    true-false e = cc
top_verdict-rendered ((c ∷ cs) ∷ below) w = ground (arith, element_head c cs w.0)

pub abs_path_top :
    (p : Bytes)
    → abs_path (codes "/") p ≡ (if is_top (below_root p) then some (codes "/") else none)
unfolding abs_path top_verdict
abs_path_top p =
    ap top_verdict
      (ap (join (codes "/")) (clean-rooted p) ∙ join-top (below_root p) (below_root-All p))
    ∙ top_verdict-rendered (below_root p) (below_root-All p)
