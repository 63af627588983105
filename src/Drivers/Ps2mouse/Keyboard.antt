-- ===== src/Drivers/Ps2mouse/Keyboard.antt =====
-- `mouse_init` of modules/ps2mouse/ps2mouse.c: whether the keyboard is on at the controller.
use shit_os.Prelude.{
  ℕ, suc, ◌≡◌, refl, List, [], ◌∷◌, Bool, true, false, not, ◌&&◌, bit, ◌==◌, if◌then◌else◌, arith,
  inl, inr, Bool-cases,
}
use shit_os.Drivers.Kernel.{ModuleResult, ok}
use shit_os.Drivers.Recorder.{Call, write_port, Answers, recorder}
use shit_os.Drivers.Ps2mouse.Packet.{Mouse}
use shit_os.Drivers.Ps2mouse.Setup

-- does the controller wait for a configuration byte, after the command 0x60?
unfoldable pub awaits_config : List Call → Bool
awaits_config [] = false
awaits_config (write_port port value ∷ cs) =
    if port == 0x64 then value == 0x60 else if port == 0x60 then false else awaits_config cs
awaits_config (_ ∷ cs) = awaits_config cs

-- what the controller last heard of the keyboard: 0xAD at the command port is off, 0xAE is on, and bit 4
-- of a configuration byte disables the keyboard's port
abbrev pub heard : Call → Bool → Bool → Bool
heard (write_port port value) config on =
    if port == 0x64
    then (if value == 0xAD then false else if value == 0xAE then true else on)
    else if (port == 0x60) && config
    then not (bit 4 value)
    else on
heard _ config on = on

unfoldable pub keyboard_on : List Call → Bool
keyboard_on [] = true
keyboard_on (c ∷ cs) = heard c (awaits_config cs) (keyboard_on cs)

-- a controller that can always take a byte
module _ (a : Answers) (ready : (w : List Call) → bit 1 (a.port w 0x64) ≡ false) where
  wait_writable_lem :
      (n : ℕ) (w : List Call) → (Setup.wait_writable (recorder a) (suc n) w).0 ≡ true
  unfolding Setup.wait_writable
  wait_writable_lem n w = rw (ready w)

  enable_keyboard_lem :
      (w : List Call)
      → (rest : List Call) × (Setup.enable_keyboard (recorder a) w ≡ write_port 0x64 0xAE ∷ rest)
  unfolding Setup.enable_keyboard Setup.write_command
  enable_keyboard_lem w = (
    (Setup.wait_writable (recorder a) 100000 w).1,
    rw (wait_writable_lem 99999 w, Setup.enable_keyboard),
  )

  keyboard_on-enable_keyboard :
      (w : List Call) → keyboard_on (Setup.enable_keyboard (recorder a) w) ≡ true
  unfolding keyboard_on
  keyboard_on-enable_keyboard w = let (rest, e) = enable_keyboard_lem w in rw (e, keyboard_on)

  keyboard_on-register_device :
      (m : Mouse) (w : List Call)
      → keyboard_on w ≡ true
      → keyboard_on (Setup.register_device (recorder a) m w).2 ≡ true
  unfolding Setup.register_device keyboard_on
  keyboard_on-register_device m w on = ground arith

  keyboard_on-arm : (m : Mouse) (w : List Call) → keyboard_on (Setup.arm (recorder a) m w).2 ≡ true
  unfolding Setup.arm
  keyboard_on-arm m w = elim (Bool-cases (Setup.enable_aux_interrupt (recorder a) w).0) [
    | inl armed ↦ rw armed (keyboard_on-register_device m _ (keyboard_on-enable_keyboard _))
    | inr failed ↦ rw failed (keyboard_on-enable_keyboard _)
  ]

  keyboard_on-register_handler :
      (m : Mouse) (w : List Call) → keyboard_on (Setup.register_handler (recorder a) m w).2 ≡ true
  unfolding Setup.register_handler
  keyboard_on-register_handler m w = after (a.irq w) refl
    where
      after :
          (r : ModuleResult)
          → a.irq w ≡ r
          → keyboard_on (Setup.register_handler (recorder a) m w).2 ≡ true
      after ok e = rw (e, Setup.register_handler) (keyboard_on-arm m _)
      after _ e = rw (e, Setup.register_handler) (keyboard_on-enable_keyboard _)

  keyboard_on-create_readers :
      (m : Mouse) (w : List Call) → keyboard_on (Setup.create_readers (recorder a) m w).2 ≡ true
  unfolding Setup.create_readers
  keyboard_on-create_readers m w = elim (Bool-cases (a.queue w == 0)) [
    | inl e ↦ rw e (keyboard_on-enable_keyboard _)
    | inr e ↦ rw e (keyboard_on-register_handler _ _)
  ]

  -- With a controller that takes bytes: once the keyboard is off, `mouse_init` ends with it on, by its
  -- commands and by the configuration bytes that it writes, whatever the configuration that was read,
  -- whether the mouse answers or not and whatever the kernel refuses.
  pub keyboard_on-with_keyboard_off :
      (m : Mouse) (w : List Call) → keyboard_on (Setup.with_keyboard_off (recorder a) m w).2 ≡ true
  unfolding Setup.with_keyboard_off
  keyboard_on-with_keyboard_off m w = after (Setup.setup_mouse (recorder a) m w).0 refl
    where
      after :
          (r : ModuleResult)
          → (Setup.setup_mouse (recorder a) m w).0 ≡ r
          → keyboard_on (Setup.with_keyboard_off (recorder a) m w).2 ≡ true
      after ok e = rw (e, Setup.with_keyboard_off) (keyboard_on-create_readers _ _)
      after _ e = rw (e, Setup.with_keyboard_off) (keyboard_on-enable_keyboard _)
