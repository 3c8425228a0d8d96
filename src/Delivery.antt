-- ===== src/Delivery.antt =====
-- internal/session/delivery.go: outputDelivery, a listener's bounded, coalescing output queue, and
-- the goroutine that drains it. Each critical section is one step; a schedule of the pump, of the
-- goroutine and of a detach is a list of events. Offsets are only handed on, never computed with.
pub mod Frames
pub mod Queue
pub mod Tracks
pub mod Stream
pub mod Order
use web_terminal.Prelude.{
  ℕ, suc, ◌+◌, Bool, Option, none, some, List, [], ◌∷◌, ◌++◌, Bytes, length, ltb, if◌then◌else◌,
}
use web_terminal.Prelude.Int.{ℤ, pos}

-- deliveryState
pub data DeliveryState : Type 0 where
  running stopped overflowed : DeliveryState

-- The fields of outputDelivery; its callbacks `write` and `onError` are the events of `Runner`.
pub record OutputDelivery : Type 0 where
  pub max_bytes : ℕ
  pub pending : Bytes
  pub start_offset : ℤ
  pub state : DeliveryState

unfoldable pub new_output_delivery : ℕ → OutputDelivery
new_output_delivery max_bytes = record {
  max_bytes = max_bytes;
  pending = [];
  start_offset = pos 0;
  state = running;
}

abbrev pub is_running : DeliveryState → Bool
is_running running = Bool.true
is_running stopped = Bool.false
is_running overflowed = Bool.false

abbrev pub is_empty : Bytes → Bool
is_empty [] = Bool.true
is_empty (c ∷ cs) = Bool.false

unfoldable pub enqueue : OutputDelivery → ℤ → Bytes → OutputDelivery
enqueue d offset payload =
    let all = d.pending ++ payload in
    if is_empty payload
    then d
    else if is_running d.state
    then record d {
      pending = all;
      start_offset = if is_empty d.pending then offset else d.start_offset;
      state = if ltb d.max_bytes (length all) then overflowed else d.state;
    }
    else d

unfoldable pub stop : OutputDelivery → OutputDelivery
stop d = record d { pending = []; state = stopped }

-- The first half of fail; the call of onError is in `Runner`.
unfoldable pub mark_failed : OutputDelivery → OutputDelivery
mark_failed d = record d { pending = []; state = stopped }

-- What a pass of the loop of drain finds: it waits, takes a batch with its offset, or has left the
-- running state.
pub data Drained : Type 0 where
  waits : Drained
  batch : Bytes → ℤ → Drained
  left : DeliveryState → Drained

-- A pass of the loop of drain.
unfoldable pub drain : OutputDelivery → Drained × OutputDelivery
drain d =
    if is_running d.state
    then (if is_empty d.pending
        then (waits, d)
        else (batch d.pending d.start_offset, record d { pending = []; start_offset = pos 0 }))
    else (left d.state, d)

-- Where the goroutine is: in drain, in a write of a batch, or returned.
pub data Phase : Type 0 where
  draining : Phase
  writing : ℤ → Bytes → Phase
  returned : Phase

-- A delivery with its goroutine: the frames written and the calls of onError so far.
pub record Runner : Type 0 where
  pub delivery : OutputDelivery
  pub phase : Phase
  pub written : List (ℤ × Bytes)
  pub errors : ℕ

-- fail
unfoldable pub fail : Runner → Runner
unfolding mark_failed
fail r = record r { delivery = mark_failed r.delivery; phase = returned; errors = r.errors + 1 }

-- The switch of run on what drain returned.
unfoldable pub after_drain : Runner → Drained × OutputDelivery → Runner
after_drain r (waits, d) = record r { delivery = d }
after_drain r (batch bs offset, d) = record r { delivery = d; phase = writing offset bs }
after_drain r (left running, d) = record r { delivery = d }
after_drain r (left stopped, d) = record r { delivery = d; phase = returned }
after_drain r (left overflowed, d) = fail (record r { delivery = d })

-- The goroutine gets the lock in drain.
unfoldable pub wake_in : Phase → Runner → Runner
wake_in draining r = after_drain r (drain r.delivery)
wake_in (writing offset bs) r = r
wake_in returned r = r

-- The write returns: with no error, or with one.
unfoldable pub write_in : Phase → Bool → Runner → Runner
write_in draining ok r = r
write_in (writing offset bs) Bool.true r = record r {
  phase = draining;
  written = r.written ++ (offset, bs) ∷ [];
}
write_in (writing offset bs) Bool.false r = fail r
write_in returned ok r = r

pub data Event : Type 0 where
  enqueues : ℤ → Bytes → Event
  stops : Event
  wakes : Event
  write_returns : Bool → Event

unfoldable pub step : Runner → Event → Runner
step r (enqueues offset payload) = record r { delivery = enqueue r.delivery offset payload }
step r stops = record r { delivery = stop r.delivery }
step r wakes = wake_in r.phase r
step r (write_returns ok) = write_in r.phase ok r

unfoldable pub run : Runner → List Event → Runner
run r [] = r
run r (e ∷ es) = run (step r e) es

-- go l.delivery.run(), on a new delivery
unfoldable pub start_runner : ℕ → Runner
unfolding new_output_delivery
start_runner max_bytes = record {
  delivery = new_output_delivery max_bytes;
  phase = draining;
  written = [];
  errors = 0;
}
