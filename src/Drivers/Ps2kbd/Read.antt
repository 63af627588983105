-- ===== src/Drivers/Ps2kbd/Read.antt =====
-- modules/ps2kbd/ps2kbd.c: the operations of /dev/kbd0 and /dev/kbdraw. `waitqueue_wait` lasts until
-- an interrupt wakes the reader: what the interrupts of one such wait do to the keyboard is one
-- item of a list, and a read that needs more waits than the list has is still blocked (`none`).
use shit_os.Prelude.{
  ℕ, ◌+◌, ◌/◌, ◌≤◌, ◌<◌, ◌≡◌, refl, ap, List, [], ◌∷◌, Bool, false, not, Option, none, some, ltb,
  lt→ltb, ◌==◌, if◌then◌else◌, take, drop, arith, length,
}
use shit_os.Drivers.Ring.{is_empty, drain}
use shit_os.Drivers.Ring.Refine
use shit_os.Drivers.Ring.Refine.{contents}
use shit_os.Drivers.Ring.Drain.{drain_lem}
use shit_os.Drivers.Ps2kbd.State.{Keyboard, KeyEvent, buffer_size, event_capacity}
use shit_os.Drivers.Ps2kbd.Runs.{IsValid, no_event, characters, pending_events}
use shit_os.Drivers.Ps2kbd.Runs.{buffer_size-IsCapacity, event_capacity-IsCapacity}

abbrev pub Waits : Type 0
Waits = List (Keyboard → Keyboard)

-- `while (…) waitqueue_wait(…)`, over the test for an empty ring
unfoldable pub wait_while : (Keyboard → Bool) → Waits → Keyboard → Option Keyboard
wait_while empty [] k = if empty k then none else some k
wait_while empty (wait ∷ ws) k =
    let later = wait_while empty ws (wait k) in if empty k then later else some k

unfoldable pub keyboard_poll_readable : Keyboard → Bool
keyboard_poll_readable k = not (is_empty k.buffer)

unfoldable pub event_poll_readable : Keyboard → Bool
event_poll_readable k = not (is_empty k.events)

-- what a read returns: the bytes that it copied out, or the error EINVAL
pub data Copied (A : Type 0) : Type 0 where
  copied : List A → Copied A
  err_invalid : Copied A

abbrev take_characters : ℕ → Keyboard → Copied ℕ × Keyboard
take_characters length k =
    let (out, r) = drain buffer_size 0 1 (length + 1) length 0 k.buffer in
    (copied out, record k { buffer = r })

unfoldable pub keyboard_read : Keyboard → ℕ → Waits → Option (Copied ℕ × Keyboard)
unfolding wait_while
keyboard_read k length ws =
    if length == 0 then some (copied [], k) else elim (wait_while (λ k. is_empty k.buffer) ws k) [
      | none ↦ none
      | some k' ↦ some (take_characters length k')
    ]

-- sizeof(struct key_event)
abbrev pub event_size : ℕ
event_size = 8

-- The bytes of an event are copied whole; here an event stays an event, 8 bytes each.
abbrev take_events : ℕ → Keyboard → Copied KeyEvent × Keyboard
take_events length k =
    let (out, r) = drain event_capacity no_event event_size (length + 1) length 0 k.events in
    (copied out, record k { events = r })

unfoldable pub event_read : Keyboard → ℕ → Waits → Option (Copied KeyEvent × Keyboard)
unfolding wait_while
event_read k length ws =
    if ltb length event_size
    then some (err_invalid, k)
    else elim (wait_while (λ k. is_empty k.events) ws k) [
      | none ↦ none
      | some k' ↦ some (take_events length k')
    ]

-- A read of `n > 0` characters from a valid keyboard, once there is one, takes the oldest `n` or
-- all that there are, leaves the rest in order and touches nothing else.
pub keyboard_read_lem :
    (k k' : Keyboard) (n : ℕ) (ws : Waits)
    → 0 < n
    → wait_while (λ k. is_empty k.buffer) ws k ≡ some k'
    → IsValid k'
    → (after : Keyboard) × (keyboard_read k n ws ≡ some (copied (take n (characters k')), after))
      × (characters after ≡ drop n (characters k'))
      × (after ≡ record k' { buffer = after.buffer })
      × IsValid after
unfolding keyboard_read
keyboard_read_lem k k' n ws pos ready v = (
  (take_characters n k').1,
  rw (nonzero, ready) (ap (λ out. some (copied out, (take_characters n k').1)) taken.0),
  taken.1,
  refl,
  record { buffer_valid = taken.2; events_valid = v.events_valid },
)
  where
    nonzero : (n == 0) ≡ false
    nonzero = ground arith

    taken :
        let (out, r) = drain buffer_size 0 1 (n + 1) n 0 k'.buffer in
        (out ≡ take n (characters k'))
        × (contents buffer_size 0 r ≡ drop n (characters k'))
        × Refine.IsValid buffer_size r
    taken =
        drain_lem buffer_size-IsCapacity 0 1 n (n + 1) n 0 k'.buffer v.buffer_valid (omega arith)
          (omega arith) (omega arith) (omega arith)

-- A read of at least one event's length from a valid keyboard, once there is an event, takes as many
-- whole events as fit, oldest first, leaves the rest in order and touches nothing else.
pub event_read_lem :
    (k k' : Keyboard) (n : ℕ) (ws : Waits)
    → event_size ≤ n
    → wait_while (λ k. is_empty k.events) ws k ≡ some k'
    → IsValid k'
    → (after : Keyboard) × (event_read k n ws
        ≡ some (copied (take (n / event_size) (pending_events k')), after))
      × (pending_events after ≡ drop (n / event_size) (pending_events k'))
      × (after ≡ record k' { events = after.events })
      × IsValid after
unfolding event_read
event_read_lem k k' n ws fits ready v = (
  (take_events n k').1,
  rw (enough, ready) (ap (λ out. some (copied out, (take_events n k').1)) taken.0),
  taken.1,
  refl,
  record { buffer_valid = v.buffer_valid; events_valid = taken.2 },
)
  where
    enough : ltb n event_size ≡ false
    enough = ground arith

    taken :
        let (out, r) = drain event_capacity no_event event_size (n + 1) n 0 k'.events in
        (out ≡ take (n / event_size) (pending_events k'))
        × (contents event_capacity no_event r ≡ drop (n / event_size) (pending_events k'))
        × Refine.IsValid event_capacity r
    taken =
        drain_lem event_capacity-IsCapacity no_event event_size (n / event_size) (n + 1) n 0
          k'.events v.events_valid (omega arith) (omega arith) (omega arith) (omega arith)

-- A read that cannot hold one event fails and changes nothing, whether or not any is waiting.
pub event_read_short :
    (k : Keyboard) (n : ℕ) (ws : Waits) → n < event_size → event_read k n ws ≡ some (err_invalid, k)
unfolding event_read
event_read_short k n ws h = rw (lt→ltb n event_size h)
