-- ===== src/Drivers/Ps2kbd/Runs.antt =====
-- Any number of keyboard interrupts, and the rings of modules/ps2kbd/ps2kbd.c after them, against the
-- description of `Streams`.
use shit_os.Prelude.{
  ℕ, zero, suc, ◌≡◌, ◌∙◌, refl, List, [], ◌∷◌, Bool, true, false, ◌||◌, ◌==◌, bit, if◌then◌else◌,
  Bool-cases, inl, inr, arith,
}
use shit_os.Drivers.Ring.{push}
use shit_os.Drivers.Ring.Fifo.{offer_all}
use shit_os.Drivers.Ring.Refine
use shit_os.Drivers.Ring.Refine.{IsCapacity, contents, push-IsValid, contents-push}
use shit_os.Drivers.Kernel.{KernelApi}
use shit_os.Drivers.Ps2kbd.State.{Keyboard, KeyEvent, buffer_size, event_capacity}
use shit_os.Drivers.Ps2kbd.Irq.{take_scancode, keyboard_irq}
use shit_os.Drivers.Ps2kbd.Streams.{
  mods_of, after, typed, event_of, characters_of, mods_of-take_scancode, events-take_scancode,
  buffer-take_scancode,
}

pub record IsValid (k : Keyboard) : Type 0 where
  pub buffer_valid : Refine.IsValid buffer_size k.buffer
  pub events_valid : Refine.IsValid event_capacity k.events

pub buffer_size-IsCapacity : IsCapacity buffer_size
buffer_size-IsCapacity = omega arith

pub event_capacity-IsCapacity : IsCapacity event_capacity
event_capacity-IsCapacity = omega arith

abbrev pub no_event : KeyEvent
no_event = record { keycode = 0; pressed = 0; modifiers = 0; codepoint = 0 }

-- what the readers of the two devices would get
abbrev pub characters : Keyboard → List ℕ
characters k = contents buffer_size 0 k.buffer

abbrev pub pending_events : Keyboard → List KeyEvent
pending_events k = contents event_capacity no_event k.events

module _ (kernel : KernelApi) where
  open kernel use {World, inb}

  take_scancode-IsValid :
      (k : Keyboard) (s : ℕ) (w : World) → IsValid k → IsValid (take_scancode kernel k s w).0
  take_scancode-IsValid k s w v = record {
    buffer_valid =
        rw (buffer-take_scancode kernel k s w)
          (pick_buffer ((s == 0xE0) || (typed (mods_of k) s == 0)));
    events_valid = rw (events-take_scancode kernel k s w) (pick_events (s == 0xE0));
  }
    where
      pick_buffer :
          (b : Bool)
          → Refine.IsValid buffer_size
              (if b then k.buffer else push buffer_size k.buffer (typed (mods_of k) s))
      pick_buffer true = v.buffer_valid
      pick_buffer false = push-IsValid v.buffer_valid _ buffer_size-IsCapacity

      pick_events :
          (b : Bool)
          → Refine.IsValid event_capacity
              (if b then k.events else push event_capacity k.events (event_of (mods_of k) s))
      pick_events true = v.events_valid
      pick_events false = push-IsValid v.events_valid _ event_capacity-IsCapacity

  characters-take_scancode :
      (k : Keyboard) (s : ℕ) (w : World)
      → IsValid k
      → (rest : List ℕ)
      → offer_all 255 (characters (take_scancode kernel k s w).0) rest
        ≡ offer_all 255
            (characters k)
            (if (s == 0xE0) || (typed (mods_of k) s == 0) then rest else typed (mods_of k) s ∷ rest)
  characters-take_scancode k s w v rest =
      rw (buffer-take_scancode kernel k s w) (pick ((s == 0xE0) || (typed (mods_of k) s == 0)))
    where
      pick :
          (b : Bool)
          → offer_all 255
              (contents buffer_size 0
                (if b then k.buffer else push buffer_size k.buffer (typed (mods_of k) s)))
              rest
            ≡ offer_all 255 (characters k) (if b then rest else typed (mods_of k) s ∷ rest)
      pick true = refl
      pick false = rw (contents-push v.buffer_valid 0 _ buffer_size-IsCapacity)

  -- `n` calls of the handler, and the bytes that those for the driver read
  unfoldable pub irqs : ℕ → Keyboard → World → Keyboard × World
  irqs zero k w = (k, w)
  irqs (suc n) k w = let (mine, k', w') = keyboard_irq kernel k w in irqs n k' w'

  unfoldable pub bytes_read : ℕ → Keyboard → World → List ℕ
  bytes_read zero k w = []
  bytes_read (suc n) k w =
      let (mine, k', w') = keyboard_irq kernel k w in
      let rest = bytes_read n k' w' in
      if bit 0 (inb 0x64 w).0 then (inb 0x60 (inb 0x64 w).1).0 ∷ rest else rest

  -- The handler keeps the invariant, and passes on an interrupt that is not its own untouched.
  pub keyboard_irq-IsValid :
      (k : Keyboard) (w : World) → IsValid k → IsValid (keyboard_irq kernel k w).1
  unfolding keyboard_irq
  keyboard_irq-IsValid k w v = elim (Bool-cases (bit 0 (inb 0x64 w).0)) [
    | inl mine ↦ rw mine (take_scancode-IsValid k _ _ v)
    | inr other ↦ rw other v
  ]

  -- one interrupt, with any bytes to come
  characters-keyboard_irq :
      (k : Keyboard) (w : World) (bs : List ℕ)
      → IsValid k
      → offer_all 255
          (characters (keyboard_irq kernel k w).1)
          (characters_of (mods_of (keyboard_irq kernel k w).1) bs)
        ≡ offer_all 255 (characters k) (
            characters_of
              (mods_of k)
              (if bit 0 (inb 0x64 w).0 then (inb 0x60 (inb 0x64 w).1).0 ∷ bs else bs))
  unfolding keyboard_irq characters_of
  characters-keyboard_irq k w bs v = elim (Bool-cases (bit 0 (inb 0x64 w).0)) [
    | inl mine ↦
        rw (mine, mods_of-take_scancode kernel k _ _)
          (characters-take_scancode k _ _ v
            (characters_of (after (mods_of k) (inb 0x60 (inb 0x64 w).1).0) bs))
    | inr other ↦ rw other
  ]

  -- After any number of interrupts, started in a valid state, the character ring holds what it held
  -- with the characters of the bytes read offered to it in order: those that arrive at a full ring
  -- are lost, and no others.
  pub characters-irqs :
      (n : ℕ) (k : Keyboard) (w : World)
      → IsValid k
      → characters (irqs n k w).0
        ≡ offer_all 255 (characters k) (characters_of (mods_of k) (bytes_read n k w))
  unfolding irqs bytes_read
  characters-irqs zero k w v = unfold characters_of in refl
  characters-irqs (suc n) k w v =
      characters-irqs n (keyboard_irq kernel k w).1 (keyboard_irq kernel k w).2
        (keyboard_irq-IsValid k w v)
      ∙ characters-keyboard_irq k w _ v
