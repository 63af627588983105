-- ===== src/Drivers/Ps2kbd/Streams.antt =====
-- What the two streams of the keyboard driver carry: a description of scancode set 1 that knows
-- nothing of rings or ports, and the handler of modules/ps2kbd/ps2kbd.c against it.
use shit_os.Prelude.{
  ℕ, ◌+◌, ◌%◌, ◌≡◌, List, [], ◌∷◌, Bool, true, false, not, ◌&&◌, ◌||◌, ◌==◌, ◌<◌, bit,
  if◌then◌else◌, get_or, arith,
}
use shit_os.Drivers.Ring.{push}
use shit_os.Drivers.Kernel.{KernelApi}
use shit_os.Drivers.Ps2kbd.State.{
  Keyboard, KeyEvent, buffer_size, event_capacity, scancode_to_ascii, scancode_to_ascii_shifted,
}
use shit_os.Drivers.Ps2kbd.Irq.{
  left_control, left_shift, right_shift, left_alt, caps_lock_key, is_lower, apply_control,
  translate, modifier_mask, ordinary_key, take_scancode,
}

-- the keys held and the lock, and whether the last byte was the prefix 0xE0
pub record Mods : Type 0 where
  pub shift : Bool
  pub control : Bool
  pub alt : Bool
  pub caps : Bool
  pub extended : Bool

abbrev pub mods_of : Keyboard → Mods
mods_of k = record {
  shift = k.shift_held;
  control = k.control_held;
  alt = k.alt_held;
  caps = k.caps_lock;
  extended = k.expecting_extended;
}

abbrev pub is_shift : ℕ → Bool
is_shift code = (code == left_shift) || (code == right_shift)

abbrev pub is_modifier : ℕ → Bool
is_modifier code =
    is_shift code || (code == left_control) || (code == left_alt) || (code == caps_lock_key)

-- Bit 7 of a scancode is set when the key comes up.
abbrev pub is_down : ℕ → Bool
is_down s = not (bit 7 s)

-- Control and alt exist twice, the right ones behind the prefix; shift and caps lock do not.
abbrev pub after : Mods → ℕ → Mods
after m s =
    let code = s % 128 in
    if s == 0xE0 then record m { extended = true } else record {
      shift = if not m.extended && is_shift code then is_down s else m.shift;
      control = if code == left_control then is_down s else m.control;
      alt = if code == left_alt then is_down s else m.alt;
      caps =
          if not m.extended && ((code == caps_lock_key) && is_down s) then not m.caps else m.caps;
      extended = false;
    }

abbrev pub keycode_of : Mods → ℕ → ℕ
keycode_of m s = if m.extended then 0x100 + s % 128 else s % 128

-- the character that a key gives going down, 0 for none
abbrev pub symbol : Mods → ℕ → ℕ
symbol m code =
    let base = get_or scancode_to_ascii code 0 in
    let upper = get_or scancode_to_ascii_shifted code 0 in
    apply_control m.control (
      if m.caps && is_lower base
      then (if m.shift then base else upper)
      else (if m.shift then upper else base))

-- the character that a byte other than the prefix types
abbrev pub typed : Mods → ℕ → ℕ
typed m s =
    let code = s % 128 in if m.extended || (is_modifier code || bit 7 s) then 0 else symbol m code

pub translate-symbol : (k : Keyboard) (code : ℕ) → translate k code ≡ symbol (mods_of k) code
unfolding translate
translate-symbol k code = ground arith

-- The event of a byte other than the prefix: the modifiers are those after it.
abbrev pub event_of : Mods → ℕ → KeyEvent
event_of m s = record {
  keycode = keycode_of m s;
  pressed = if is_down s then 1 else 0;
  modifiers = let m' = after m s in modifier_mask m'.shift m'.control m'.alt m'.caps;
  codepoint = typed m s;
}

-- the events and the characters of a run of bytes
unfoldable pub events_of : Mods → List ℕ → List KeyEvent
events_of m [] = []
events_of m (s ∷ ss) =
    let rest = events_of (after m s) ss in if s == 0xE0 then rest else event_of m s ∷ rest

unfoldable pub characters_of : Mods → List ℕ → List ℕ
characters_of m [] = []
characters_of m (s ∷ ss) =
    let rest = characters_of (after m s) ss in
    if (s == 0xE0) || (typed m s == 0) then rest else typed m s ∷ rest

-- Each modifier is a bit of the mask of its own.
pub modifier_mask_lem :
    (shift control alt caps : Bool)
    → let mask = modifier_mask shift control alt caps in
      (bit 0 mask ≡ shift)
      × (bit 1 mask ≡ control)
      × (bit 2 mask ≡ alt)
      × (bit 3 mask ≡ caps)
      × (mask < 16)
unfolding modifier_mask
modifier_mask_lem shift control alt caps = ground arith

module _ (kernel : KernelApi) where
  open kernel use {World}

  -- The modifiers follow the keys.
  pub mods_of-take_scancode :
      (k : Keyboard) (s : ℕ) (w : World)
      → mods_of (take_scancode kernel k s w).0 ≡ after (mods_of k) s
  unfolding take_scancode ordinary_key
  mods_of-take_scancode k s w = ground arith

  -- Every byte but the prefix is one event, and nothing else is.
  pub events-take_scancode :
      (k : Keyboard) (s : ℕ) (w : World)
      → (take_scancode kernel k s w).0.events
        ≡ (if s == 0xE0 then k.events else push event_capacity k.events (event_of (mods_of k) s))
  unfolding take_scancode ordinary_key
  events-take_scancode k s w = ground (arith, translate-symbol k (s % 128))

  -- The character ring gets the character that the byte types, if any.
  pub buffer-take_scancode :
      (k : Keyboard) (s : ℕ) (w : World)
      → (take_scancode kernel k s w).0.buffer ≡ (
          if (s == 0xE0) || (typed (mods_of k) s == 0)
          then k.buffer
          else push buffer_size k.buffer (typed (mods_of k) s))
  unfolding take_scancode ordinary_key
  buffer-take_scancode k s w = ground (arith, translate-symbol k (s % 128))
