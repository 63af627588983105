-- ===== src/Drivers/Ps2kbd/Init.antt =====
-- modules/ps2kbd/ps2kbd.c: `module_init` and `module_fini`.
use shit_os.Prelude.{ℕ, zero, suc, false, Option, none, some, ltb, ◌==◌, bit, if◌then◌else◌}
use shit_os.Drivers.Ring.{Ring}
use shit_os.Drivers.Kernel.{
  KernelApi, ModuleResult, ok, abi_mismatch, no_memory, module_abi_version,
}
use shit_os.Drivers.Ps2kbd.State.{Keyboard}

-- the assignments at the top of `module_init`; the arrays keep what they held
abbrev reset_ring {ℓ} : {A : Type ℓ} → Ring A → Ring A
reset_ring r = record r { head = 0; tail = 0; dropped = 0 }

unfoldable pub reset : Keyboard → Keyboard
reset k = record k {
  buffer = reset_ring k.buffer;
  events = reset_ring k.events;
  shift_held = false;
  control_held = false;
  alt_held = false;
  caps_lock = false;
  expecting_extended = false;
  keys_seen = 0;
}

module _ (kernel : KernelApi) where
  open kernel use {
    World, abi_version, inb, irq_register, irq_unregister, device_register, device_unregister,
    waitqueue_create, waitqueue_destroy, waitqueue_wake_all,
  }

  -- what the firmware left in the controller; `none` if there is still more after `fuel` bytes
  unfoldable pub drain_controller : ℕ → World → Option World
  drain_controller zero w = none
  drain_controller (suc fuel) w =
      let (status, w1) = inb 0x64 w in
      let (byte, w2) = inb 0x60 w1 in
      let rest = drain_controller fuel w2 in if bit 0 status then rest else some w1

  -- The three registrations, each undoing what came before it when it fails.
  unfoldable pub register_event_device : Keyboard → World → ModuleResult × World
  register_event_device k w =
      let (result, w') = device_register "kbdraw" w in
      elim result [
        | ok ↦ (ok, w')
        | failure ↦ (
          failure,
          waitqueue_destroy k.readers
              (waitqueue_destroy k.event_readers (irq_unregister 1 (device_unregister "kbd0" w'))),
        )
      ]

  unfoldable pub register_keyboard_device : Keyboard → World → ModuleResult × World
  register_keyboard_device k w =
      let (result, w') = device_register "kbd0" w in
      elim result [
        | ok ↦ register_event_device k w'
        | failure ↦ (
          failure,
          waitqueue_destroy k.readers (waitqueue_destroy k.event_readers (irq_unregister 1 w')),
        )
      ]

  unfoldable pub register_handler : Keyboard → World → ModuleResult × World
  register_handler k w =
      let (result, w') = irq_register 1 w in
      elim result [
        | ok ↦ register_keyboard_device k w'
        | failure ↦ (failure, waitqueue_destroy k.readers w')
      ]

  -- `module_init` from the drain of the controller on
  unfoldable pub attach : ℕ → Keyboard → World → Option (ModuleResult × Keyboard × World)
  attach fuel k w = elim (drain_controller fuel w) [
    | none ↦ none
    | some w' ↦ some ((register_handler k w').0, k, (register_handler k w').1)
  ]

  unfoldable pub module_init : ℕ → Keyboard → World → Option (ModuleResult × Keyboard × World)
  module_init fuel k w =
      let (readers, w1) = waitqueue_create w in
      let k1 = record (reset k) { readers = readers } in
      let (event_readers, w2) = waitqueue_create w1 in
      let k2 = record k1 { event_readers = event_readers } in
      if ltb abi_version module_abi_version
      then some (abi_mismatch, k, w)
      else if readers == 0
      then some (no_memory, k1, w1)
      else if event_readers == 0
      then some (no_memory, k2, waitqueue_destroy readers w2)
      else attach fuel k2 w2

  -- `module_fini`, for a module that was initialised
  unfoldable pub module_fini : Keyboard → World → Keyboard × World
  module_fini k w =
      let w1 = irq_unregister 1 (device_unregister "kbd0" (device_unregister "kbdraw" w)) in
      let w2 = waitqueue_destroy k.event_readers (waitqueue_wake_all k.event_readers w1) in
      let w3 = waitqueue_destroy k.readers (waitqueue_wake_all k.readers w2) in
      (record k { event_readers = 0; readers = 0 }, w3)
