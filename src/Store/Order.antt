-- ===== src/Store/Order.antt =====
-- The order of the pairs of a store. Go's map has none: a loop over it visits its pairs in any order.
use mathlib.Core.List.Permᴰ
use mathlib.Core.List.{Permᴰ, filter_map}
use web_terminal.Prelude.{
  ℕ, ◌≡◌, refl, sym, ap, ◌∙◌, inl, inr, ◌↔◌, true, Option, none, some, List, [], ◌∷◌, map, Bytes,
  arith, if◌then◌else◌, Bool-cases, subst,
}
use web_terminal.Prelude.Int.{ℤ}
use web_terminal.Prelude.Text.{str_eq, str_eq→≡, str_eq_refl}
use web_terminal.Session.{Session}
use web_terminal.Store.{
  Store, lookup, insert, get_live, visit, reap_sessions, reaped_sessions, reap, list, update,
}
use web_terminal.Store.Maps.{Unique}
use web_terminal.Store.Reaping.{reap_iff}
use web_terminal.Session.Idle.{InPast, IsOrphaned}

abbrev Pairs : Type 0
Pairs = List (Bytes × Session)

-- The same map: as good as the first one for every lookup.
abbrev SameMap : Pairs → Pairs → Type 0
SameMap m m' = Unique m' × ((id : Bytes) → lookup id m ≡ lookup id m')

swapped : (a b : Bytes × Session) (m : Pairs) → Unique (a ∷ b ∷ m) → SameMap (a ∷ b ∷ m) (b ∷ a ∷ m)
unfolding lookup
swapped (i, s) (j, t) m (new, (fresh, u)) = (
  (ground (arith, str_eq→≡ i j, str_eq_refl j), (ground arith, u)),
  λ id. ground (arith, str_eq→≡ i id, str_eq→≡ j id, str_eq_refl id),
)

Permᴰ-SameMap : {m m' : Pairs} → Permᴰ m m' → Unique m → SameMap m m'
Permᴰ-SameMap Permᴰ.nil u = (u, λ id. refl)
Permᴰ-SameMap (Permᴰ.cons {a} {b} {l₁ = l} {l₂ = l'} e p) (new, u) =
    let (v, same) = Permᴰ-SameMap p u in
    subst (λ x. SameMap (a ∷ l) (x ∷ l')) e
      ((sym (same a.0) ∙ new, v), λ id. after_first a l l' id (same id))
  where
    after_first :
        (a : Bytes × Session) (l l' : Pairs) (id : Bytes)
        → lookup id l ≡ lookup id l'
        → lookup id (a ∷ l) ≡ lookup id (a ∷ l')
    after_first (i, s) l l' id e = unfold lookup in ap (λ o. if str_eq i id then some s else o) e
Permᴰ-SameMap (Permᴰ.swap {a} {b} {a'} {b'} {l} e f) u =
    subst (λ x. SameMap (a ∷ b ∷ l) (x ∷ b' ∷ l)) f
      (subst (λ x. SameMap (a ∷ b ∷ l) (b ∷ x ∷ l)) e (swapped a b l u))
Permᴰ-SameMap (Permᴰ.trans p q) u =
    let (v, same) = Permᴰ-SameMap p u in
    let (w, same') = Permᴰ-SameMap q v in (w, λ id. same id ∙ same' id)

-- The reap as a map over the pairs, one by one.
survivor : ℕ → ℤ → Bytes × Session → Option (Bytes × Session)
survivor now grace (id, s) =
    if (visit now grace s).0 then some (id, (visit now grace s).1) else none

reap_sessions-filter_map :
    (now : ℕ) (grace : ℤ) (m : Pairs)
    → reap_sessions now grace m ≡ filter_map (survivor now grace) m
unfolding reap_sessions filter_map survivor
reap_sessions-filter_map now grace [] = refl
reap_sessions-filter_map now grace ((id, s) ∷ m) =
    ground (arith, reap_sessions-filter_map now grace m)

victim : ℕ → ℤ → Bytes × Session → Option Session
victim now grace (id, s) = if (visit now grace s).0 then none else some (visit now grace s).1

reaped_sessions-filter_map :
    (now : ℕ) (grace : ℤ) (m : Pairs)
    → reaped_sessions now grace m ≡ filter_map (victim now grace) m
unfolding reaped_sessions filter_map victim
reaped_sessions-filter_map now grace [] = refl
reaped_sessions-filter_map now grace ((id, s) ∷ m) =
    ground (arith, reaped_sessions-filter_map now grace m)

-- The pairs under other keys.
other_than : Bytes → Bytes × Session → Option (Bytes × Session)
other_than k (j, s) = if str_eq j k then none else some (j, s)

other_than_absent : (k : Bytes) (m : Pairs) → lookup k m ≡ none → filter_map (other_than k) m ≡ m
unfolding filter_map other_than lookup
other_than_absent k [] h = refl
other_than_absent k ((j, s) ∷ m) h = ground (arith, other_than_absent k m)

insert-Permᴰ :
    (k : Bytes) (s : Session) (m : Pairs)
    → Unique m
    → Permᴰ (insert k s m) ((k, s) ∷ filter_map (other_than k) m)
unfolding filter_map insert other_than
insert-Permᴰ k s [] u = Permᴰ.refl _
insert-Permᴰ k s ((j, t) ∷ m) (new, u) = elim (Bool-cases (str_eq j k)) [
  | inl hit ↦ simp hit (
      Permᴰ.cons refl (
        subst (λ l. Permᴰ m l)
          (sym (other_than_absent k m (subst (λ i. lookup i m ≡ none) (str_eq→≡ j k hit) new)))
          (Permᴰ.refl m)))
  | inr miss ↦
      simp miss (Permᴰ.trans (Permᴰ.cons refl (insert-Permᴰ k s m u)) (Permᴰ.swap refl refl))
]

update_absent :
    (k : Bytes) (f : Session → Session) (m : Pairs)
    → lookup k m ≡ none
    → map (λ (e : Bytes × Session). if str_eq e.0 k then (e.0, f e.1) else e) m ≡ m
unfolding lookup
update_absent k f [] h = refl
update_absent k f ((j, s) ∷ m) h = ground (arith, update_absent k f m)

update-map :
    (k : Bytes) (f : Session → Session) (m : Pairs)
    → Unique m
    → update k f m ≡ map (λ (e : Bytes × Session). if str_eq e.0 k then (e.0, f e.1) else e) m
unfolding update
update-map k f [] u = refl
update-map k f ((j, s) ∷ m) (new, u) =
    ground (arith, update-map k f m u, str_eq→≡ j k, update_absent k f m)

-- Two stores that differ in the order of their pairs only, where no two have one key: GetLive finds the
-- same session under every id, List and the sessions that Reap takes out are the same up to order, and
-- the two stores are again the same up to order after Reap, after a session is put in, and after an
-- action of one session.
order_free :
    (st : Store) (m : List (Bytes × Session)) (now : ℕ) (id : Bytes)
    → Unique st.sessions
    → Permᴰ st.sessions m
    → let st' = record st { sessions = m } in
      (get_live st id ≡ get_live st' id)
      × Permᴰ (list st) (list st')
      × Permᴰ (reap st now).1 (reap st' now).1
      × Permᴰ (reap st now).0.sessions (reap st' now).0.sessions
      × ((s : Session) → Permᴰ (insert id s st.sessions) (insert id s m))
      × ((f : Session → Session) → Permᴰ (update id f st.sessions) (update id f m))
unfolding get_live list reap
order_free st m now id u p =
    let (v, same) = Permᴰ-SameMap p u in
    (
      ap (λ o. elim o [ none ↦ none | some s ↦ if s.alive then some s else none ]) (same id),
      Permᴰ.map (λ (e : Bytes × Session). e.1) p,
      rw
          (
            reaped_sessions-filter_map now st.idle_grace st.sessions,
            reaped_sessions-filter_map now st.idle_grace m,
          )
          (Permᴰ.filter_map (victim now st.idle_grace) p),
      rw
          (
            reap_sessions-filter_map now st.idle_grace st.sessions,
            reap_sessions-filter_map now st.idle_grace m,
          )
          (Permᴰ.filter_map (survivor now st.idle_grace) p),
      (λ s. Permᴰ.trans (insert-Permᴰ id s st.sessions u) (
          Permᴰ.trans (Permᴰ.cons refl (Permᴰ.filter_map (other_than id) p))
            (Permᴰ.symm (insert-Permᴰ id s m v)))),
      λ f. rw (update-map id f st.sessions u, update-map id f m v) (Permᴰ.map _ p),
    )

get_live_iff :
    (st : Store) (id : Bytes) (s : Session)
    → (get_live st id ≡ some s) ↔ ((lookup id st.sessions ≡ some s) × (s.alive ≡ true))
unfolding get_live
get_live_iff st id s = of_option (lookup id st.sessions)
  where
    of_option :
        (o : Option Session)
        → (elim o [ none ↦ none | some t ↦ if t.alive then some t else none ] ≡ some s)
          ↔ ((o ≡ some s) × (s.alive ≡ true))
    of_option none = ((λ e. cc), λ (e, on). cc)
    of_option (some t) = ((λ e. ground arith), λ (e, on). ground arith)

-- A store whose map is visited in any order, with no two pairs under one key, at a time that is not
-- before the idle time of the session `s`. GetLive finds `s` under an id exactly when the map has it
-- there and its process runs. After Reap the id has `s` exactly when it had `s` before, its process
-- runs and it is not orphaned for its applicable grace. The sessions that List gives, those that Reap
-- takes out and those that it leaves are the same in every order.
pub any_order :
    (st : Store) (m : List (Bytes × Session)) (now : ℕ) (id : Bytes) (s : Session)
    → Unique st.sessions
    → Permᴰ st.sessions m
    → InPast s.idle_since now
    → let st' = record st { sessions = m } in
      ((get_live st' id ≡ some s) ↔ ((lookup id st.sessions ≡ some s) × (s.alive ≡ true)))
      × ((lookup id (reap st' now).0.sessions ≡ some s) ↔ (
          (lookup id st.sessions ≡ some s) × (s.alive ≡ true) × ¬ IsOrphaned s now st.idle_grace))
      × Permᴰ (list st) (list st')
      × Permᴰ (reap st now).1 (reap st' now).1
      × Permᴰ (reap st now).0.sessions (reap st' now).0.sessions
any_order st m now id s u p past =
    let (_, lists, taken, left, _, _) = order_free st m now id u p in
    let (v, same) = Permᴰ-SameMap p u in
    (
      rw (same id) (get_live_iff (record st { sessions = m }) id s),
      rw (same id) (reap_iff (record st { sessions = m }) now id s v past),
      lists,
      taken,
      left,
    )
