-- ===== src/Drivers/Ps2kbd/Release.antt =====
-- What `module_init` of modules/ps2kbd/ps2kbd.c holds of the kernel when it returns, for every kernel
-- that answers as it likes.
use shit_os.Prelude.{
  ℕ, zero, suc, false, ◌≤◌, ◌<◌, ◌≡◌, ◌≢◌, ◌⊎◌, ◌∙◌, refl, List, ◌∷◌, none, some, Bool-cases, inl,
  inr, arith, bit, Option-cases,
}
use shit_os.Drivers.Kernel.{ModuleResult, ok, module_abi_version}
use shit_os.Drivers.Recorder.{
  Call, Answers, recorder, erase, queues_held, handlers_held, devices_held, register_irq, read_port,
  create_queue, destroy_queue,
}
use shit_os.Drivers.Ps2kbd.State.{Keyboard}
use shit_os.Drivers.Ps2kbd.Init.{
  reset, drain_controller, register_event_device, register_keyboard_device, register_handler,
  attach, module_init,
}

-- A failed call at `w` ended in `w'` with these queues, and with the interrupts and devices of before.
pub record Gave (held : List ℕ) (w w' : List Call) : Type 0 where
  pub queues : queues_held w' ≡ held
  pub handlers : handlers_held w' ≡ handlers_held w
  pub devices : devices_held w' ≡ devices_held w

-- A driver that runs.
pub record Attached (k : Keyboard) (held : List ℕ) (w w' : List Call) : Type 0 where
  pub queues : queues_held w' ≡ k.event_readers ∷ k.readers ∷ held
  pub handlers : handlers_held w' ≡ 1 ∷ handlers_held w
  pub devices : devices_held w' ≡ "kbdraw" ∷ "kbd0" ∷ devices_held w

erase_second : (r e : ℕ) (held : List ℕ) → erase r (e ∷ r ∷ held) ≡ e ∷ held
erase_second r e held = ground arith

module _ (a : Answers) where
  -- Port reads hold nothing.
  drain_controller-Gave :
      (fuel : ℕ) (w : List Call) {w' : List Call}
      → drain_controller (recorder a) fuel w ≡ some w'
      → Gave (queues_held w) w w'
  unfolding drain_controller queues_held handlers_held devices_held
  drain_controller-Gave zero w e = cc
  drain_controller-Gave (suc fuel) w {w'} e = elim (Bool-cases (bit 0 (a.port w 0x64))) [
    | inl more ↦
        let h = drain_controller-Gave fuel (read_port 0x60 ∷ read_port 0x64 ∷ w) (rw more at e) in
        record { queues = h.queues; handlers = h.handlers; devices = h.devices }
    | inr done ↦ ground (arith, done)
  ]

  -- After the two queues, the registrations all succeed, or nothing is left but, where the
  -- interrupt was refused, the queue of the event readers.
  register_handler_lem :
      (k : Keyboard) (w : List Call) (held : List ℕ)
      → queues_held w ≡ k.event_readers ∷ k.readers ∷ held
      → let (result, w') = register_handler (recorder a) k w in
        ((result ≡ ok) × Attached k held w w')
        ⊎ ((result ≢ ok) × (a.irq w ≡ ok) × Gave held w w')
        ⊎ ((result ≢ ok) × (a.irq w ≢ ok) × Gave (k.event_readers ∷ held) w w')
  unfolding register_handler register_keyboard_device register_event_device queues_held
      handlers_held devices_held
  register_handler_lem k w held h = ground (arith, erase_second k.readers k.event_readers held)

  attach_lem :
      (fuel : ℕ) (k k' : Keyboard) (w w' : List Call) (held : List ℕ) (result : ModuleResult)
      → queues_held w ≡ k.event_readers ∷ k.readers ∷ held
      → attach (recorder a) fuel k w ≡ some (result, k', w')
      → ((result ≡ ok) × Attached k' held w w')
        ⊎ ((result ≢ ok) × Gave held w w')
        ⊎ ((result ≢ ok)
            × ((drained : List Call) × (drain_controller (recorder a) fuel w ≡ some drained)
                × (a.irq drained ≢ ok))
            × Gave (k'.event_readers ∷ held) w w')
  unfolding attach
  attach_lem fuel k k' w w' held result h e =
      elim (Option-cases (drain_controller (recorder a) fuel w)) [
        | inl stuck ↦ ground (arith, stuck)
        | inr (w1, drained) ↦
            let same = drain_controller-Gave fuel w drained in
            elim (register_handler_lem k w1 held (same.queues ∙ h)) [
              | inl done ↦ ground (arith, drained, same, done)
              | inr failed ↦ elim failed [
                | inl quiet ↦ ground (arith, drained, same, quiet)
                | inr refused ↦ inr (
                    inr (
                      ground (arith, drained, refused, e),
                      (w1, drained, refused.1),
                      ground (arith, drained, same, refused, e),
                    ))
              ]
            ]
      ]

  -- `module_init`, whenever the controller shows no byte at last and it returns: it succeeds holding both queues, the interrupt and both
  -- devices; or it fails holding what it held before; or it fails when the kernel, asked once the controller
  -- was drained, refused the interrupt, and then the queue of the event readers is left behind.
  pub module_init_lem :
      (fuel : ℕ) (k k' : Keyboard) (w w' : List Call) (result : ModuleResult)
      → module_init (recorder a) fuel k w ≡ some (result, k', w')
      → ((result ≡ ok) × Attached k' (queues_held w) w w')
        ⊎ ((result ≢ ok) × Gave (queues_held w) w w')
        ⊎ ((result ≢ ok)
            × ((drained : List Call) × (drain_controller (recorder a) fuel (
                    create_queue (a.queue (create_queue (a.queue w) ∷ w))
                    ∷ create_queue (a.queue w)
                    ∷ w)
                  ≡ some drained)
                × (a.irq drained ≢ ok))
            × Gave (k'.event_readers ∷ queues_held w) w w')
  unfolding module_init queues_held handlers_held devices_held
  module_init_lem fuel k k' w w' result e = ground (
    arith,
    attach_lem fuel
        (record (reset k) {
          readers = a.queue w;
          event_readers = a.queue (create_queue (a.queue w) ∷ w);
        })
        k' (create_queue (a.queue (create_queue (a.queue w) ∷ w)) ∷ create_queue (a.queue w) ∷ w) w'
        (queues_held w) result,
  )

  -- The leak: with both queues made and the controller drained, a refused interrupt makes
  -- `module_init` fail, and the queue of the event readers is never given back.
  pub refused_interrupt_leaks :
      (fuel : ℕ) (k : Keyboard) (w drained : List Call)
      → module_abi_version ≤ a.version
      → a.queue w ≢ 0
      → a.queue (create_queue (a.queue w) ∷ w) ≢ 0
      → drain_controller
          (recorder a)
          fuel
          (create_queue (a.queue (create_queue (a.queue w) ∷ w)) ∷ create_queue (a.queue w) ∷ w)
        ≡ some drained
      → a.irq drained ≢ ok
      → (k' : Keyboard) × (w' : List Call) × (module_init (recorder a) fuel k w
          ≡ some (a.irq drained, k', w'))
        × (queues_held w' ≡ a.queue (create_queue (a.queue w) ∷ w) ∷ queues_held w)
  unfolding module_init attach register_handler queues_held
  refused_interrupt_leaks fuel k w drained version q1 q2 d refused = (
    record (reset k) {
      readers = a.queue w;
      event_readers = a.queue (create_queue (a.queue w) ∷ w);
    },
    destroy_queue (a.queue w) ∷ register_irq 1 (a.irq drained) ∷ drained,
    ground (arith, d),
    ground (
      arith,
      drain_controller-Gave fuel
          (create_queue (a.queue (create_queue (a.queue w) ∷ w)) ∷ create_queue (a.queue w) ∷ w) d,
      erase_second (a.queue w) (a.queue (create_queue (a.queue w) ∷ w)) (queues_held w),
    ),
  )

  -- the calls of n rounds of the draining loop
  abbrev pub polled : ℕ → List Call → List Call
  polled zero w = w
  polled (suc n) w = polled n (read_port 0x60 ∷ read_port 0x64 ∷ w)

  drain_controller_returns :
      (n fuel : ℕ) (w : List Call)
      → bit 0 (a.port (polled n w) 0x64) ≡ false
      → n < fuel
      → (w' : List Call) × (drain_controller (recorder a) fuel w ≡ some w')
  unfolding drain_controller
  drain_controller_returns n zero w idle lt = absurd (omega arith)
  drain_controller_returns zero (suc fuel) w idle lt = (read_port 0x64 ∷ w, rw idle refl)
  drain_controller_returns (suc n) (suc fuel) w idle lt =
      elim (Bool-cases (bit 0 (a.port w 0x64))) [
        | inl more ↦ rw more (drain_controller_returns n fuel _ idle (omega arith))
        | inr done ↦ (read_port 0x64 ∷ w, rw done refl)
      ]

  -- `module_init` returns when the controller, once both queues are made, shows no byte after some
  -- number of rounds of the draining loop, with fuel for one round more.
  pub module_init_returns :
      (n fuel : ℕ) (k : Keyboard) (w : List Call)
      → bit 0 (
          a.port
            (polled n (
              create_queue (a.queue (create_queue (a.queue w) ∷ w)) ∷ create_queue (a.queue w) ∷ w))
            0x64)
        ≡ false
      → n < fuel
      → module_init (recorder a) fuel k w ≢ none
  unfolding module_init attach
  module_init_returns n fuel k w idle lt = ground (
    arith,
    drain_controller_returns n fuel
        (create_queue (a.queue (create_queue (a.queue w) ∷ w)) ∷ create_queue (a.queue w) ∷ w) idle
        lt,
  )
