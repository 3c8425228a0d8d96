-- ===== src/Connection/Race.antt =====
-- The closures attach and cleanup of ServeWS, interleaved: attach runs on the read loop, cleanup once,
-- on the loop when it returns or on the goroutine of a delivery that fails. Each section under sessMu,
-- and each call of a session, is one step. A listener that the connection has registered at a session
-- stands for its detach function by a number.
pub mod Owners
use web_terminal.Prelude.{
  ℕ, suc, ◌+◌, ◌≡◌, ◌≢◌, ◌⊎◌, Bool, true, Option, none, some, List, [], ◌∷◌, ◌++◌, Bytes, ◌==◌,
  if◌then◌else◌,
}

-- Where the loop is in a call of attach for a session, with the variables that are live there.
pub data Attaching : Type 0 where
  idle : Attaching
  -- after the first section, before `old()`
  swapped : (old : Option ℕ) → Bytes → Attaching
  -- before sess.Attach
  released : Bytes → Attaching
  -- before the second section
  registered : (d : ℕ) → Bytes → Attaching

-- Where cleanup is.
pub data Cleaning : Type 0 where
  waiting : Cleaning
  -- after its section, before `d()`
  taken : (d : Option ℕ) → Cleaning
  finished : Cleaning

-- `detach` and `curSess`, the listeners registered at their sessions, and the next number.
pub record Race : Type 0 where
  pub current : Option Bytes
  pub detach : Option ℕ
  pub attaching : Attaching
  pub cleaning : Cleaning
  pub live : List ℕ
  pub next : ℕ

-- What a detach function does to the listeners, and nil.
unfoldable pub without : ℕ → List ℕ → List ℕ
without n [] = []
without n (m ∷ ms) = if m == n then without n ms else m ∷ without n ms

unfoldable pub release : Option ℕ → List ℕ → List ℕ
release none live = live
release (some n) live = without n live

-- A step. With `late` a hello may be handled after cleanup has begun.
pub data Step (late : Bool) (r : Race) : Race → Type 0 where
  swap :
      (session : Bytes)
      → r.attaching ≡ idle
      → (late ≡ true) ⊎ (r.cleaning ≡ waiting)
      → Step late r (record r { current = some session; attaching = swapped r.detach session })
  release_old :
      (old : Option ℕ) (session : Bytes)
      → r.attaching ≡ swapped old session
      → Step late r (record r { live = release old r.live; attaching = released session })
  register :
      (session : Bytes)
      → r.attaching ≡ released session
      → Step late r (record r {
        live = r.live ++ r.next ∷ [];
        attaching = registered r.next session;
        next = suc r.next;
      })
  keep :
      (d : ℕ) (session : Bytes)
      → r.attaching ≡ registered d session
      → r.current ≡ some session
      → Step late r (record r { detach = some d; attaching = idle })
  drop_new :
      (d : ℕ) (session : Bytes)
      → r.attaching ≡ registered d session
      → r.current ≢ some session
      → Step late r (record r { live = without d r.live; attaching = idle })
  take :
      r.cleaning ≡ waiting
      → Step late r (record r { current = none; detach = none; cleaning = taken r.detach })
  release_taken :
      (d : Option ℕ)
      → r.cleaning ≡ taken d
      → Step late r (record r { live = release d r.live; cleaning = finished })
  -- a delivery fails, and its listener is removed
  fails : (n : ℕ) → Step late r (record r { live = without n r.live })

abbrev pub fresh_race : Race
fresh_race = record {
  current = none;
  detach = none;
  attaching = idle;
  cleaning = waiting;
  live = [];
  next = 0;
}

pub data Reach (late : Bool) : Race → Type 0 where
  start : Reach late fresh_race
  later : {r q : Race} → Reach late r → Step late r q → Reach late q
