-- ===== src/Drivers/Ps2kbd/Irq.antt =====
-- modules/ps2kbd/ps2kbd.c: `translate`, `push_event` and the interrupt handler.
use Prim.Native.Nat.{bit_or}
use shit_os.Prelude.{
  ℕ, ◌+◌, ◌-◌, ◌%◌, ◌^◌, Bool, true, false, not, ◌&&◌, leb, ◌==◌, ◌||◌, bit, if◌then◌else◌, get_or,
}
use shit_os.Drivers.Ring.{next, push}
use shit_os.Drivers.Kernel.{KernelApi}
use shit_os.Drivers.Ps2kbd.State.{
  Keyboard, KeyEvent, buffer_size, event_capacity, scancode_to_ascii, scancode_to_ascii_shifted,
}

-- KEY_LEFT_CONTROL, KEY_LEFT_SHIFT, KEY_RIGHT_SHIFT, KEY_LEFT_ALT, KEY_CAPS_LOCK
abbrev pub left_control : ℕ
left_control = 0x1D

abbrev pub left_shift : ℕ
left_shift = 0x2A

abbrev pub right_shift : ℕ
right_shift = 0x36

abbrev pub left_alt : ℕ
left_alt = 0x38

abbrev pub caps_lock_key : ℕ
caps_lock_key = 0x3A

abbrev pub is_lower : ℕ → Bool
is_lower c = leb b'a' c && leb c b'z'

abbrev pub is_upper : ℕ → Bool
is_upper c = leb b'A' c && leb c b'Z'

-- the tail of `translate`: control turns a letter into its control code
unfoldable pub apply_control : Bool → ℕ → ℕ
apply_control control c =
    if control && is_lower c
    then c - b'a' + 1
    else if control && is_upper c
    then c - b'A' + 1
    else c

unfoldable pub translate : Keyboard → ℕ → ℕ
unfolding apply_control
translate k scancode =
    let base = get_or scancode_to_ascii scancode 0 in
    let uppercase = if k.caps_lock && is_lower base then not k.shift_held else k.shift_held in
    apply_control k.control_held
      (if uppercase then get_or scancode_to_ascii_shifted scancode 0 else base)

-- the `u8 modifiers` of `push_event`, from what is held
unfoldable pub modifier_mask : (shift control alt caps : Bool) → ℕ
modifier_mask shift control alt caps =
    bit_or
      (bit_or (bit_or (if shift then 1 else 0) (if control then 2 else 0)) (if alt then 4 else 0))
      (if caps then 8 else 0)

abbrev pub key_event : Keyboard → ℕ → Bool → ℕ → KeyEvent
key_event k keycode pressed codepoint = record {
  keycode = keycode;
  pressed = if pressed then 1 else 0;
  modifiers = modifier_mask k.shift_held k.control_held k.alt_held k.caps_lock;
  codepoint = codepoint;
}

module _ (kernel : KernelApi) where
  open kernel use {World, inb, waitqueue_wake_all}

  -- A full ring drops the event and wakes nobody.
  unfoldable pub push_event : Keyboard → ℕ → Bool → ℕ → World → Keyboard × World
  push_event k keycode pressed codepoint w =
      let k' = record k {
        events = push event_capacity k.events (key_event k keycode pressed codepoint);
      } in
      if next event_capacity k.events.head == k.events.tail
      then (k', w)
      else (k', waitqueue_wake_all k.event_readers w)

  -- the branch for a code that follows SCANCODE_EXTENDED
  unfoldable pub extended_key : Keyboard → ℕ → Bool → World → Keyboard × World
  extended_key k code released w =
      let k1 = record k { expecting_extended = false } in
      let k2 =
        if code == left_control
        then record k1 { control_held = not released }
        else if code == left_alt
        then record k1 { alt_held = not released }
        else k1 in
      push_event k2 (0x100 + code) (not released) 0 w

  -- `buffer_push`, the count and the wake-up at the end of the handler
  unfoldable pub deliver : Keyboard → ℕ → World → Keyboard × World
  deliver k c w = (
    record k { buffer = push buffer_size k.buffer c; keys_seen = (k.keys_seen + 1) % 2 ^ 64 },
    waitqueue_wake_all k.readers w,
  )

  -- the handler from `translate` on
  unfoldable pub ordinary_key : Keyboard → ℕ → Bool → World → Keyboard × World
  unfolding push_event deliver
  ordinary_key k code released w =
      let c = translate k code in
      let (k1, w1) = push_event k code (not released) (if released then 0 else c) w in
      if released then (k1, w1) else if c == 0 then (k1, w1) else deliver k1 c w1

  -- the switch over the modifier keys, then the rest
  unfoldable pub plain_key : Keyboard → ℕ → Bool → World → Keyboard × World
  plain_key k code released w =
      if (code == left_shift) || (code == right_shift)
      then push_event (record k { shift_held = not released }) code (not released) 0 w
      else if code == left_control
      then push_event (record k { control_held = not released }) code (not released) 0 w
      else if code == caps_lock_key
      then push_event (if released then k else record k { caps_lock = not k.caps_lock }) code
          (not released) 0 w
      else if code == left_alt
      then push_event (record k { alt_held = not released }) code (not released) 0 w
      else ordinary_key k code released w

  -- what the handler does with the byte that it has read
  unfoldable pub take_scancode : Keyboard → ℕ → World → Keyboard × World
  unfolding extended_key plain_key
  take_scancode k scancode w =
      if scancode == 0xE0
      then (record k { expecting_extended = true }, w)
      else if k.expecting_extended
      then extended_key k (scancode % 128) (bit 7 scancode) w
      else plain_key k (scancode % 128) (bit 7 scancode) w

  -- The result says whether the interrupt was the driver's.
  unfoldable pub keyboard_irq : Keyboard → World → Bool × Keyboard × World
  keyboard_irq k w =
      let (status, w1) = inb 0x64 w in
      let (scancode, w2) = inb 0x60 w1 in
      let (k', w') = take_scancode k scancode w2 in
      if bit 0 status then (true, k', w') else (false, k, w1)
