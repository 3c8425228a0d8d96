-- ===== src/Paths/Clean.antt =====
-- AbsPath for any absolute root, cleaned or not.
use web_terminal.Prelude.{
  ℕ, ◌≡◌, refl, sym, ap, ◌∙◌, inl, inr, Bool, true, false, ◌&&◌, none, some, List, [], ◌∷◌, ◌++◌,
  append_assoc, Bytes, All, All-append, arith, ◌≢◌, if◌then◌else◌, Bool-cases, subst,
}
use web_terminal.Prelude.Text.{codes, str_eq, str_eq→≡, has_prefix}
use web_terminal.Paths.{add_first, split_slash, resolve, slashed, render_rooted, join, abs_path}
use web_terminal.Paths.Split.{is_element, IsElement, split_slash-append, split_part, resolve-append}
use web_terminal.Paths.Inside.{
  below_root, below_root-All, clean-rooted, resolve-rendered, is_top, accepted, abs_path_top,
}

tail_≡ : {x y : ℕ} {a b : Bytes} → x ∷ a ≡ y ∷ b → a ≡ b
tail_≡ e = cc

-- Whether all elements name something below a directory.
abbrev pub all_elements : List Bytes → Bool
all_elements [] = true
all_elements (part ∷ parts) = is_element part && all_elements parts

all_elements-All : (parts : List Bytes) → all_elements parts ≡ true → All IsElement parts
all_elements-All [] h = tt
all_elements-All (part ∷ parts) h = ground (arith, all_elements-All parts)

All-all_elements : (parts : List Bytes) → All IsElement parts → all_elements parts ≡ true
All-all_elements [] v = refl
All-all_elements (part ∷ parts) v = rw (v.0, All-all_elements parts v.1) refl

All-first : (xs ys : List Bytes) → All IsElement (xs ++ ys) → All IsElement xs
All-first [] ys v = tt
All-first (x ∷ xs) ys v = (v.0, All-first xs ys v.1)

slashed-add_first :
    (c : ℕ) (l : List Bytes) (r : Bytes)
    → slashed l ≡ b'/' ∷ r
    → slashed (add_first c l) ≡ b'/' ∷ c ∷ r
slashed-add_first c [] r e = cc
slashed-add_first c (x ∷ l) r e = cc

-- The elements after their slashes are the path again.
slashed-split_slash : (r : Bytes) → slashed (split_slash r) ≡ b'/' ∷ r
unfolding split_slash
slashed-split_slash [] = refl
slashed-split_slash (c ∷ r) =
    ground (arith, slashed-split_slash r, slashed-add_first c (split_slash r) r)

has_prefix-rest : (a s : Bytes) → has_prefix a s ≡ true → (b : Bytes) × (s ≡ a ++ b)
has_prefix-rest [] s h = (s, refl)
has_prefix-rest (x ∷ a) [] h = cc
has_prefix-rest (x ∷ a) (y ∷ s) h = ground (arith, has_prefix-rest a s)

nothing_after : (r b : Bytes) → [] ≢ r ++ b'/' ∷ b
nothing_after [] b e = cc
nothing_after (c ∷ r) b e = cc

-- A path that is written out as its elements and begins with a root and a slash: the elements of the
-- root are among them.
begins :
    (r b : Bytes) (parts : List Bytes)
    → All IsElement parts
    → render_rooted parts ≡ b'/' ∷ (r ++ b'/' ∷ b)
    → all_elements (split_slash r) ≡ true
unfolding render_rooted
begins r b [] v e = absurd (nothing_after r b (tail_≡ e))
begins r b (part ∷ parts) v e = All-all_elements (split_slash r) (
    All-first (split_slash r) (split_slash b) (
      subst (All IsElement)
        (sym (split_part part parts v) ∙ ap split_slash (tail_≡ e) ∙ split_slash-append r b) v))

is_it :
    (c : ℕ) (r : Bytes) (parts : List Bytes)
    → All IsElement parts
    → render_rooted parts ≡ b'/' ∷ c ∷ r
    → all_elements (split_slash (c ∷ r)) ≡ true
unfolding render_rooted
is_it c r [] v e = cc
is_it c r (part ∷ parts) v e =
    All-all_elements (split_slash (c ∷ r))
      (subst (All IsElement) (sym (split_part part parts v) ∙ ap split_slash (tail_≡ e)) v)

-- What AbsPath checks, for any root.
joined :
    (r : Bytes) (below : List Bytes)
    → All IsElement below
    → join (b'/' ∷ r) (render_rooted below) ≡ render_rooted (below_root r ++ below)
unfolding join
joined r below v = ap render_rooted (
    ap (resolve true []) (split_slash-append r (render_rooted below))
    ∙ resolve-append true [] (split_slash r) (split_slash (render_rooted below))
    ∙ resolve-rendered (below_root r) below v)

-- A root that is not written as elements is neither what is checked nor, with a slash, its start.
unclean :
    (c : ℕ) (r : Bytes) (parts : List Bytes)
    → All IsElement parts
    → all_elements (split_slash (c ∷ r)) ≡ false
    → (str_eq (render_rooted parts) (b'/' ∷ c ∷ r) ≡ false)
      × (has_prefix ((b'/' ∷ c ∷ r) ++ b'/' ∷ []) (render_rooted parts) ≡ false)
unclean c r parts v bad = (not_equal, not_before)
  where
    contrary : {b : Bool} → b ≡ true → b ≡ false → ⊥
    contrary e f = cc

    not_equal : str_eq (render_rooted parts) (b'/' ∷ c ∷ r) ≡ false
    not_equal = elim (Bool-cases (str_eq (render_rooted parts) (b'/' ∷ c ∷ r))) [
      | inl same ↦ absurd (contrary (is_it c r parts v (str_eq→≡ _ _ same)) bad)
      | inr other ↦ other
    ]

    not_before : has_prefix ((b'/' ∷ c ∷ r) ++ b'/' ∷ []) (render_rooted parts) ≡ false
    not_before =
        elim (Bool-cases (has_prefix ((b'/' ∷ c ∷ r) ++ b'/' ∷ []) (render_rooted parts))) [
          | inl before ↦
              let (b, e) =
                has_prefix-rest ((b'/' ∷ c ∷ r) ++ b'/' ∷ []) (render_rooted parts) before in
              absurd (
                contrary (begins (c ∷ r) b parts v (e ∙ append_assoc (b'/' ∷ c ∷ r) (b'/' ∷ []) b))
                  bad)
          | inr other ↦ other
        ]

refused :
    (c : ℕ) (r p : Bytes)
    → all_elements (split_slash (c ∷ r)) ≡ false
    → abs_path (b'/' ∷ c ∷ r) p ≡ none
unfolding abs_path
refused c r p bad =
    let full = joined (c ∷ r) (below_root p) (below_root-All p) in
    let (other, elsewhere) =
      unclean c r (below_root (c ∷ r) ++ below_root p)
        (All-append IsElement (below_root (c ∷ r)) (below_root p) (below_root-All (c ∷ r))
          (below_root-All p))
        bad in
    rw (clean-rooted p, full, other, elsewhere) refl

below_clean :
    (c : ℕ) (r p : Bytes)
    → all_elements (split_slash (c ∷ r)) ≡ true
    → abs_path (b'/' ∷ c ∷ r) p ≡ some ((b'/' ∷ c ∷ r) ++ slashed (below_root p))
below_clean c r p good = by_elements (split_slash (c ∷ r)) (slashed-split_slash (c ∷ r)) good
  where
    by_elements :
        (parts : List Bytes)
        → slashed parts ≡ b'/' ∷ c ∷ r
        → all_elements parts ≡ true
        → abs_path (b'/' ∷ c ∷ r) p ≡ some ((b'/' ∷ c ∷ r) ++ slashed (below_root p))
    by_elements [] e g = cc
    by_elements (part ∷ parts) e g =
        subst (λ root. abs_path root p ≡ some (root ++ slashed (below_root p))) e
          (accepted part parts p (all_elements-All (part ∷ parts) g))

-- For every absolute root and every path. With the root "/", AbsPath accepts a path that names "/"
-- itself and refuses every other one. A root with more after its first slash is accepted with every
-- path when its elements, between the slashes, are all names (none empty, "." or ".."), and refused
-- with every path otherwise, as one that ends in a slash is. What an accepted call returns is the root
-- followed by the elements that the path names below "/", each after a slash and none of them
-- empty, "." or ".." or with a slash in it: a path that climbs out by ".." is not refused, it stays at
-- the root.
pub abs_path_lem :
    (r p : Bytes)
    → (abs_path (b'/' ∷ r) p ≡ (
        if str_eq r []
        then (if is_top (below_root p) then some (codes "/") else none)
        else if all_elements (split_slash r)
        then some ((b'/' ∷ r) ++ slashed (below_root p))
        else none))
      × All IsElement (below_root p)
abs_path_lem [] p = (abs_path_top p, below_root-All p)
abs_path_lem (c ∷ r) p = elim (Bool-cases (all_elements (split_slash (c ∷ r)))) [
  | inl good ↦ (rw good (below_clean c r p good), below_root-All p)
  | inr bad ↦ (rw bad (refused c r p bad), below_root-All p)
]
