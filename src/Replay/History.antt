-- ===== src/Replay/History.antt =====
-- The replay buffer against the whole output of its session: it holds the last bytes, as many as
-- its capacity allows, and its offsets count from the first byte of the session.
use web_terminal.Prelude.{
  ℕ, ◌+◌, ◌-◌, ◌^◌, ◌<◌, ◌≡◌, ◌∙◌, ap, ap₂, sym, some, List, [], ◌∷◌, ◌++◌, append-nil,
  append_assoc, Bytes, arith, length, drop, concat, ltb, min, if◌then◌else◌, length-append,
  length-drop, drop-append, drop-drop, drop-eq, concat-append, dec_lt,
}
use web_terminal.Prelude.Int.{pos, add64, add64-pos}
use web_terminal.Replay.{ReplayBuffer, new_replay_buffer, append, evict_locked}
use web_terminal.Replay.Evict.{IsCounted, evict_locked-Evicts}

-- The last `n` bytes.
abbrev pub take_right : ℕ → Bytes → Bytes
take_right n h = drop (length h - n) h

-- `b` is the buffer of a session whose output so far is `h`.
pub record Holds (b : ReplayBuffer) (h : Bytes) : Type 0 where
  pub positive : 0 < b.capacity
  pub bytes : concat b.chunks ≡ take_right b.capacity h
  pub counted : b.stored ≡ min b.capacity (length h)
  pub ends : b.end_at ≡ pos (length h)
  pub fits : length h < 2 ^ 63

new-Holds : (n : ℕ) (b : ReplayBuffer) → new_replay_buffer (pos n) ≡ some b → Holds b []
unfolding new_replay_buffer
new-Holds n b e = ground arith

left_cut : (n a c : ℕ) → min (a - n + (min n a + min n c - min n (a + c))) a ≡ min (a + c - n) a
left_cut n a c = elim (dec_lt n a) [
  | yes p ↦ elim (dec_lt n c) [ yes q ↦ omega arith | no q ↦ omega arith ]
  | no p ↦ elim (dec_lt n c) [ yes q ↦ omega arith | no q ↦ omega arith ]
]

right_cut :
    (n a c l : ℕ)
    → l ≡ a - (a - n)
    → min (c - n + (min n a + min n c - min n (a + c) - l)) c ≡ min (a + c - n - a) c
right_cut n a c l e = elim (dec_lt n a) [
  | yes p ↦ elim (dec_lt n c) [ yes q ↦ omega arith | no q ↦ omega arith ]
  | no p ↦ elim (dec_lt n c) [ yes q ↦ omega arith | no q ↦ omega arith ]
]

-- The pieces that are kept of the old output and of a chunk, cut once more to the capacity, are
-- what is kept of both together.
take_right-append :
    (n : ℕ) (h c : Bytes)
    → drop
        (min n (length h) + min n (length c) - min n (length h + length c))
        (take_right n h ++ take_right n c)
      ≡ take_right n (h ++ c)
take_right-append n h c =
    drop-append k (take_right n h) (take_right n c)
    ∙ ap₂ ◌++◌
        (drop-drop k (length h - n) h
          ∙ drop-eq (length h - n + k) m h (left_cut n (length h) (length c)))
        (drop-drop (k - length (take_right n h)) (length c - n) c
          ∙ drop-eq (length c - n + (k - length (take_right n h))) (m - length h) c
              (right_cut n (length h) (length c) _ (length-drop (length h - n) h)))
    ∙ sym (drop-append m h c)
    ∙ ap (λ i. drop (i - n) (h ++ c)) (sym (length-append h c))
  where
    k : ℕ
    k = min n (length h) + min n (length c) - min n (length h + length c)

    m : ℕ
    m = length h + length c - n

-- The part of a chunk that `append` keeps.
kept-take_right :
    (n : ℕ) (c : Bytes) → (if ltb n (length c) then drop (length c - n) c else c) ≡ take_right n c
kept-take_right n c = ground (arith, drop-eq (length c - n) 0 c)

-- The buffer between the write of a chunk and the eviction.
abbrev grown : ReplayBuffer → Bytes → ReplayBuffer
grown b c = record b {
  chunks = b.chunks ++ take_right b.capacity c ∷ [];
  stored = b.stored + length (take_right b.capacity c);
  end_at = add64 b.end_at (pos (length c));
}

concat-grown :
    (b : ReplayBuffer) (h c : Bytes)
    → Holds b h
    → concat (grown b c).chunks ≡ take_right b.capacity h ++ take_right b.capacity c
concat-grown b h c v =
    concat-append b.chunks (take_right b.capacity c ∷ [])
    ∙ ap₂ ◌++◌ v.bytes (append-nil (take_right b.capacity c))

grown-IsCounted : (b : ReplayBuffer) (h c : Bytes) → Holds b h → IsCounted (grown b c)
grown-IsCounted b h c v = omega (
  arith,
  ap length (concat-grown b h c v),
  length-append (take_right b.capacity h) (take_right b.capacity c),
  length-drop (length h - b.capacity) h,
)

stored_min : (n a c s k : ℕ) → s ≡ min n a → k ≡ c - (c - n) → min (s + k) n ≡ min n (a + c)
stored_min n a c s k e d = omega arith

evicted-Holds :
    (b : ReplayBuffer) (h c : Bytes)
    → Holds b h
    → length h + length c < 2 ^ 63
    → Holds (evict_locked (grown b c)) (h ++ c)
evicted-Holds b h c v f =
    let (e, _, s) = evict_locked-Evicts (grown b c) (grown-IsCounted b h c v) in
    let size = length-drop (length c - b.capacity) c in
    let stored : (evict_locked (grown b c)).stored ≡ min b.capacity (length h + length c) =
      s ∙ stored_min b.capacity (length h) (length c) b.stored _ v.counted size in
    record {
      positive = rw e.same_capacity v.positive;
      bytes = rw e.same_capacity (
          e.kept ∙ ap₂ drop (cut stored) (concat-grown b h c v) ∙ take_right-append b.capacity h c);
      counted = rw (e.same_capacity, length-append h c) stored;
      ends = rw (e.same_end, v.ends, length-append h c) (add64-pos (length h) (length c) f);
      fits = rw (length-append h c) f;
    }
  where
    cut :
        (evict_locked (grown b c)).stored ≡ min b.capacity (length h + length c)
        → (grown b c).stored - (evict_locked (grown b c)).stored
          ≡ min b.capacity (length h)
            + min b.capacity (length c)
            - min b.capacity (length h + length c)
    cut e = omega (arith, length-drop (length c - b.capacity) c)

-- Append keeps the buffer the last bytes of the output: it counts the whole chunk toward the
-- offsets and retains what fits.
pub append-Holds :
    (b : ReplayBuffer) (h chunk : Bytes)
    → Holds b h
    → length h + length chunk < 2 ^ 63
    → Holds (append b chunk) (h ++ chunk)
unfolding append
append-Holds b h [] v f = rw append-nil v
append-Holds b h (x ∷ xs) v f =
    rw (kept-take_right b.capacity (x ∷ xs)) (evicted-Holds b h (x ∷ xs) v f)

-- The output of a session, chunk by chunk.
unfoldable pub append_all : ReplayBuffer → List Bytes → ReplayBuffer
append_all b [] = b
append_all b (c ∷ cs) = append_all (append b c) cs

append_all-Holds :
    (cs : List Bytes) (b : ReplayBuffer) (h : Bytes)
    → Holds b h
    → length h + length (concat cs) < 2 ^ 63
    → Holds (append_all b cs) (h ++ concat cs)
unfolding append_all
append_all-Holds [] b h v f = rw append-nil v
append_all-Holds (c ∷ cs) b h v f = rw (← append_assoc h c (concat cs)) (
    append_all-Holds cs (append b c) (h ++ c)
      (append-Holds b h c v (omega (arith, length-append c (concat cs))))
      (omega (arith, length-append c (concat cs), length-append h c)))

-- A new buffer of capacity n to which any chunks are appended, of fewer than 2 ^ 63 bytes in all,
-- holds the last n bytes of them all, and its end offset counts every byte.
pub history_retained :
    (n : ℕ) (b : ReplayBuffer) (cs : List Bytes)
    → new_replay_buffer (pos n) ≡ some b
    → length (concat cs) < 2 ^ 63
    → Holds (append_all b cs) (concat cs)
history_retained n b cs e f = append_all-Holds cs b [] (new-Holds n b e) (omega arith)
