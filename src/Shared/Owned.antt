-- ===== src/Shared/Owned.antt =====
-- Every registered listener belongs to the connection that attached it.
use web_terminal.Prelude.{
  ℕ, ◌≡◌, ◌<◌, ◌≢◌, sym, ap, ◌∙◌, Bool, true, ◌||◌, Option, none, some, Bytes, arith,
}
use web_terminal.Prelude.Text.{str_eq_refl}
use web_terminal.Session.{
  Session, Action, outputs, exits_now, attaches, detaches, client_closes, reaps, writes, resizes,
  delivers, new_listener, attach, remove_listener, act, pump_chunk, fanout, pump_end, mark_exited,
  mark_client_closed, write, resize,
}
use web_terminal.Session.Exits.{
  numbers, numbers-snoc, numbers-receives, numbers-deliver, has, has-snoc, has-delete,
}
use web_terminal.Session.Idle.{IsIdleWell, act-IsIdleWell}
use web_terminal.Session.Pump.Rising.{Rising}
use web_terminal.Session.Pump.Whole.{act_keeps_Rising}
use web_terminal.Replay.{end_offset}
use web_terminal.Store.{lookup}
use web_terminal.Store.Maps.{Unique}
use web_terminal.Shared.{Shared, own, is_client, is_process}

-- A session under an id, with the owners of its listeners.
pub record IsOwned (owner : Bytes → ℕ → Option ℕ) (issued : Bytes → Bool) (id : Bytes) (s : Session)
    : Type 0 where
  pub keyed : s.id ≡ id
  pub idle : IsIdleWell s
  pub rising : Rising s
  pub given : issued id ≡ true
  pub low : (n i : ℕ) → owner id n ≡ some i → n < s.next_listener
  pub owned : (n : ℕ) → has n (numbers s.listeners) ≡ true → owner id n ≢ none

pub record IsSound (w : Shared) : Type 0 where
  pub unique : Unique w.store.sessions
  pub each :
      (id : Bytes) (s : Session)
      → lookup id w.store.sessions ≡ some s
      → IsOwned w.owner w.issued id s
  pub known : (id : Bytes) (n i : ℕ) → w.owner id n ≡ some i → w.issued id ≡ true

-- What neither a client nor the process of a session changes of it.
pub act-quiet :
    (s : Session) (now : ℕ) (a : Action)
    → is_client a || is_process a ≡ true
    → ((act s now a).id ≡ s.id)
      × ((act s now a).next_listener ≡ s.next_listener)
      × (numbers (act s now a).listeners ≡ numbers s.listeners)
unfolding act pump_chunk fanout pump_end mark_exited mark_client_closed write resize
act-quiet s now (outputs chunk) quiet =
    ground (arith, numbers-receives (end_offset s.buffer) chunk s.listeners)
act-quiet s now exits_now quiet = ground arith
act-quiet s now attaches quiet = cc
act-quiet s now (detaches n) quiet = cc
act-quiet s now (client_closes grace) quiet = ground arith
act-quiet s now (reaps grace) quiet = cc
act-quiet s now (writes bytes) quiet = ground arith
act-quiet s now (resizes cols rows) quiet = ground arith
act-quiet s now (delivers n e) quiet = ground (arith, numbers-deliver n e s.listeners)

module _ (owner : Bytes → ℕ → Option ℕ) (issued : Bytes → Bool) (id : Bytes) (s : Session)
    (v : IsOwned owner issued id s) where
  pub act-IsOwned :
      (now : ℕ) (a : Action)
      → is_client a || is_process a ≡ true
      → IsOwned owner issued id (act s now a)
  act-IsOwned now a quiet =
      let (named, next, same) = act-quiet s now a quiet in
      record {
        keyed = named ∙ v.keyed;
        idle = act-IsIdleWell s now a v.idle;
        rising = act_keeps_Rising s now a v.rising;
        given = v.given;
        low = λ n i e. rw next (v.low n i e);
        owned = λ n h. v.owned n (ap (has n) (sym same) ∙ h);
      }

  pub remove_listener-IsOwned : (now n : ℕ) → IsOwned owner issued id (remove_listener s now n)
  unfolding remove_listener act
  remove_listener-IsOwned now n = record {
    keyed = ground (arith, v.keyed);
    idle = act-IsIdleWell s now (detaches n) v.idle;
    rising = act_keeps_Rising s now (detaches n) v.rising;
    given = v.given;
    low = λ m i e. ground (arith, v.low m i e);
    owned = λ m h. v.owned m (has-delete m n s.listeners (ground arith));
  }

  pub attach-IsOwned : (i : ℕ) → IsOwned (own id s.next_listener i owner) issued id (attach s)
  unfolding attach act
  attach-IsOwned i = record {
    keyed = v.keyed;
    idle = act-IsIdleWell s 0 attaches v.idle;
    rising = act_keeps_Rising s 0 attaches v.rising;
    given = v.given;
    low = λ m j e. ground (arith, v.low m j);
    owned = λ m h e. ground (
      arith,
      str_eq_refl id,
      v.owned m,
      has-snoc m s.next_listener (numbers s.listeners),
      numbers-snoc s.listeners (new_listener s),
    );
  }
