-- ===== src/Drivers/Ps2mouse/Setup.antt =====
-- modules/ps2mouse/ps2mouse.c: the conversation with the 8042 controller, and `mouse_init`. The log
-- lines are left out. A value that is returned through a pointer is an option: none is `false`.
use shit_os.Prelude.{
  ℕ, zero, suc, ◌+◌, ◌-◌, Bool, true, false, Option, none, some, ltb, ◌==◌, bit, if◌then◌else◌,
}
use shit_os.Drivers.Kernel.{
  KernelApi, ModuleResult, ok, abi_mismatch, no_device, no_memory, io, module_abi_version,
}
use shit_os.Drivers.Ps2mouse.Packet.{Mouse}

-- `config &= ~AUX_INTERRUPT; config &= ~AUX_CLOCK_DISABLED`: bits 1 and 5 of a byte off
unfoldable pub quiet_config : ℕ → ℕ
quiet_config config = config - (if bit 1 config then 2 else 0) - (if bit 5 config then 32 else 0)

-- `config |= AUX_INTERRUPT`
unfoldable pub armed_config : ℕ → ℕ
armed_config config = config + (if bit 1 config then 0 else 2)

module _ (kernel : KernelApi) where
  open kernel use {
    World, abi_version, inb, outb, irq_register, irq_unregister, device_register, waitqueue_create,
    waitqueue_destroy, device_unregister, waitqueue_wake_all,
  }

  -- The two polls: `n` looks at the status port at most.
  unfoldable pub wait_writable : ℕ → World → Bool × World
  wait_writable zero w = (false, w)
  wait_writable (suc n) w =
      let (status, w') = inb 0x64 w in
      let later = wait_writable n w' in if bit 1 status then later else (true, w')

  unfoldable pub wait_readable : ℕ → World → Bool × World
  wait_readable zero w = (false, w)
  wait_readable (suc n) w =
      let (status, w') = inb 0x64 w in
      let later = wait_readable n w' in if bit 0 status then (true, w') else later

  -- the bound of both loops
  polls : ℕ
  polls = 100000

  unfoldable pub write_port : ℕ → ℕ → World → Bool × World
  unfolding polls
  write_port port value w =
      let (ready, w') = wait_writable polls w in
      if ready then (true, outb port value w') else (false, w')

  unfoldable pub write_command : ℕ → World → Bool × World
  unfolding write_port
  write_command command w = write_port 0x64 command w

  unfoldable pub write_data : ℕ → World → Bool × World
  unfolding write_port
  write_data value w = write_port 0x60 value w

  unfoldable pub read_data : World → Option ℕ × World
  unfolding polls
  read_data w =
      let (ready, w1) = wait_readable polls w in
      let (byte, w2) = inb 0x60 w1 in if ready then (some byte, w2) else (none, w1)

  -- whether the reply is MOUSE_ACK
  abbrev is_ack : Option ℕ → Bool
  is_ack none = false
  is_ack (some byte) = byte == 0xFA

  -- `a && b`, where `b` is not done if `a` fails
  abbrev and_then : Bool × World → (World → Bool × World) → Bool × World
  and_then (true, w) next = next w
  and_then (false, w) next = (false, w)

  unfoldable pub acknowledged : World → Bool × World
  acknowledged w = let (reply, w') = read_data w in (is_ack reply, w')

  -- `mouse_command` with a null `response`
  unfoldable pub mouse_command : ℕ → World → Bool × World
  unfolding acknowledged
  mouse_command command w =
      and_then (and_then (write_command 0xD4 w) (write_data command)) acknowledged

  -- and with one
  unfoldable pub mouse_query : ℕ → World → Option ℕ × World
  mouse_query command w =
      let (sent, w1) = mouse_command command w in
      let answer = read_data w1 in if sent then answer else (none, w1)

  -- one round of the knock
  unfoldable pub knock : ℕ → World → Bool × World
  knock rate w =
      and_then (and_then (and_then (mouse_command 0xF3 w) (write_command 0xD4)) (write_data rate))
        acknowledged

  abbrev is_wheel : Option ℕ → Bool
  is_wheel none = false
  is_wheel (some id) = id == 3

  unfoldable pub detect_wheel : World → Bool × World
  unfolding knock mouse_query
  detect_wheel w =
      and_then (and_then (and_then (knock 200 w) (knock 100)) (knock 80))
        (λ w'. let (id, w'') = mouse_query 0xF2 w' in (is_wheel id, w''))

  abbrev or_fail :
      ModuleResult
      → Bool × World
      → (World → ModuleResult × Mouse × World)
      → Mouse
      → ModuleResult × Mouse × World
  or_fail failure (true, w) next m = next w
  or_fail failure (false, w) next m = (failure, m, w)

  unfoldable pub start_reporting : Mouse → World → ModuleResult × Mouse × World
  start_reporting m w =
      let (wheel, w1) = detect_wheel w in
      let m1 = record m { has_wheel = wheel; packet_size = if wheel then 4 else 3 } in
      or_fail io (mouse_command 0xF4 w1) (λ w'. (ok, m1, w')) m1

  unfoldable pub configure : ℕ → Mouse → World → ModuleResult × Mouse × World
  unfolding quiet_config start_reporting
  configure config m w =
      or_fail io (and_then (write_command 0x60 w) (write_data (quiet_config config)))
        (λ w1. or_fail no_device (mouse_command 0xF6 w1) (start_reporting m) m) m

  unfoldable pub setup_mouse : Mouse → World → ModuleResult × Mouse × World
  unfolding configure
  setup_mouse m w =
      or_fail io (and_then (write_command 0xA8 w) (write_command 0x20))
        (λ w1. elim (read_data w1).0 [
          | none ↦ (io, m, (read_data w1).1)
          | some config ↦ configure config m (read_data w1).1
        ])
        m

  unfoldable pub enable_aux_interrupt : World → Bool × World
  unfolding armed_config
  enable_aux_interrupt w = and_then (write_command 0x20 w) (λ w1. elim (read_data w1).0 [
    | none ↦ (false, (read_data w1).1)
    | some config ↦
        and_then (write_command 0x60 (read_data w1).1) (write_data (armed_config config))
  ])

  -- `(void)write_command(kernel, PS2_COMMAND_ENABLE_KEYBOARD)`
  unfoldable pub enable_keyboard : World → World
  enable_keyboard w = (write_command 0xAE w).1

  -- the pending scancodes; `none` if there are more than `fuel`
  unfoldable pub drop_pending : ℕ → World → Option World
  drop_pending zero w = none
  drop_pending (suc fuel) w =
      let (status, w1) = inb 0x64 w in
      let (byte, w2) = inb 0x60 w1 in
      let rest = drop_pending fuel w2 in if bit 0 status then rest else some w1

  unfoldable pub register_device : Mouse → World → ModuleResult × Mouse × World
  register_device m w =
      let (result, w') = device_register "mouse0" w in
      elim result [
        | ok ↦ (ok, m, w')
        | failure ↦
            (failure, record m { readers = 0 }, waitqueue_destroy m.readers (irq_unregister 12 w'))
      ]

  -- from the arming of the interrupt on
  unfoldable pub arm : Mouse → World → ModuleResult × Mouse × World
  arm m w =
      let (armed, w1) = enable_aux_interrupt w in
      if armed then register_device m (enable_keyboard w1) else (
        io,
        record m { readers = 0 },
        enable_keyboard (waitqueue_destroy m.readers (irq_unregister 12 w1)),
      )

  unfoldable pub register_handler : Mouse → World → ModuleResult × Mouse × World
  register_handler m w =
      let (result, w') = irq_register 12 w in
      elim result [
        | ok ↦ arm m w'
        | failure ↦
            (failure, record m { readers = 0 }, enable_keyboard (waitqueue_destroy m.readers w'))
      ]

  unfoldable pub create_readers : Mouse → World → ModuleResult × Mouse × World
  create_readers m w =
      let (readers, w1) = waitqueue_create w in
      let m1 = record m { readers = readers } in
      if readers == 0 then (no_memory, m1, enable_keyboard w1) else register_handler m1 w1

  -- `mouse_init` from `setup_mouse` on
  unfoldable pub with_keyboard_off : Mouse → World → ModuleResult × Mouse × World
  with_keyboard_off m w =
      let (result, m1, w1) = setup_mouse m w in
      elim result [ ok ↦ create_readers m1 w1 | failure ↦ (failure, m1, enable_keyboard w1) ]

  unfoldable pub mouse_init : ℕ → Mouse → World → Option (ModuleResult × Mouse × World)
  mouse_init fuel m w =
      let m1 = record m { packet_size = 3 } in
      let (off, w1) = write_command 0xAD w in
      if ltb abi_version module_abi_version
      then some (abi_mismatch, m, w)
      else if off
      then elim (drop_pending fuel w1) [ none ↦ none | some w2 ↦ some (with_keyboard_off m1 w2) ]
      else some (io, m1, w1)

  -- `mouse_fini`, for a module that was initialised
  unfoldable pub mouse_fini : Mouse → World → Mouse × World
  mouse_fini m w =
      let w1 = irq_unregister 12 (device_unregister "mouse0" w) in
      if m.readers == 0
      then (m, w1)
      else (record m { readers = 0 }, waitqueue_destroy m.readers (waitqueue_wake_all m.readers w1))
