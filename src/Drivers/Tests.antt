-- ===== src/Drivers/Tests.antt =====
-- Runs of the drivers on a small machine: a kernel whose ports, interrupts and queues are written
-- out, a keyboard, a mouse and rings of four slots.
use shit_os.Prelude.{
  ℕ, suc, ◌+◌, ◌≡◌, ◌≢◌, ◌⊎◌, refl, List, [], ◌∷◌, true, false, Option, none, some, ltb, ◌==◌,
  if◌then◌else◌, replicate, length, arith, inl,
}
use shit_os.Prelude.Int.{pos, negsuc}
use shit_os.Drivers.Ring.{Ring, is_empty, front, advance}
use shit_os.Drivers.Ring.Fifo.{offer_all}
use shit_os.Drivers.Ring.Refine
use shit_os.Drivers.Ring.Refine.{IsCapacity, contents, contents-push, contents-advance}
use shit_os.Drivers.Ring.Race.{push_all, advance_race}
use shit_os.Drivers.Kernel.{ModuleResult, ok, busy}
use shit_os.Drivers.Recorder.{Call, read_port, create_queue, Answers, recorder, queues_held}
use shit_os.Drivers.Ps2kbd.State.{Keyboard}
use shit_os.Drivers.Ps2kbd.Streams.{mods_of, characters_of}
use shit_os.Drivers.Ps2kbd.Runs
use shit_os.Drivers.Ps2kbd.Runs.{
  characters, irqs, bytes_read, keyboard_irq-IsValid, characters-irqs,
}
use shit_os.Drivers.Ps2kbd.Init.{drain_controller, attach, module_init}
use shit_os.Drivers.Ps2kbd.Release.{Attached, Gave, module_init_lem, refused_interrupt_leaks}
use shit_os.Drivers.Ps2mouse.Packet
use shit_os.Drivers.Ps2mouse.Packet.{MouseEvent, Mouse, decode, take_byte}
use shit_os.Drivers.Ps2mouse.Decode
use shit_os.Drivers.Ps2mouse.Decode.{encode, IsReportable, decode-encode, take_byte-IsValid}
use shit_os.Drivers.Ps2mouse.Setup.{with_keyboard_off}
use shit_os.Drivers.Ps2mouse.Keyboard.{keyboard_on, keyboard_on-with_keyboard_off}
use shit_os.Drivers.Rtc.Cmos.{days_from_civil}
use shit_os.Drivers.Rtc.Civil.{days_from_civil_lem}
use shit_os.Libc.Time.{is_leap_year, sum_years, sum_months}

-- two items in four slots, the second one after the wrap
abbrev wrapped : Ring ℕ
wrapped = record { slots = 8 ∷ 0 ∷ 0 ∷ 7 ∷ []; head = 1; tail = 3; dropped = 0 }

wrapped-IsValid : Refine.IsValid 4 wrapped
wrapped-IsValid = record { storage = refl; head_in = omega arith; tail_in = omega arith }

four : IsCapacity 4
four = (omega arith, omega arith)

advance_race_example :
    front 0 (push_all 4 wrapped (9 ∷ []))
      ∷ contents 4 0 (advance 4 (push_all 4 (push_all 4 wrapped (9 ∷ [])) (5 ∷ [])))
    ≡ offer_all 3 (offer_all 3 (contents 4 0 wrapped) (9 ∷ [])) (5 ∷ [])
unfolding is_empty
advance_race_example = advance_race four 0 wrapped (9 ∷ []) (5 ∷ []) wrapped-IsValid refl

-- A controller that has the byte of the A key for the first interrupts.
abbrev machine : Answers
machine = record {
  version = 2;
  port = λ w p. if p == 0x64 then (if ltb (length w) 5 then 1 else 0) else 30;
  irq = λ w. ok;
  device = λ w. ok;
  queue = λ w. suc (length w);
  time = λ w. ok;
}

abbrev fresh : Keyboard
fresh = record {
  readers = 1;
  buffer = record { slots = replicate 256 0; head = 0; tail = 0; dropped = 0 };
  event_readers = 2;
  events = record { slots = replicate 128 Runs.no_event; head = 0; tail = 0; dropped = 0 };
  shift_held = false;
  control_held = false;
  alt_held = false;
  caps_lock = false;
  expecting_extended = false;
  keys_seen = 0;
}

-- with the letters a and b and two events in the rings
abbrev typing : Keyboard
typing = record fresh {
  buffer = record { slots = 97 ∷ 98 ∷ replicate 254 0; head = 2; tail = 0; dropped = 0 };
  events = record {
    slots =
        record { keycode = 30; pressed = 1; modifiers = 0; codepoint = 97 }
        ∷ record { keycode = 30; pressed = 0; modifiers = 0; codepoint = 0 }
        ∷ replicate 126 Runs.no_event;
    head = 2;
    tail = 0;
    dropped = 0;
  };
}

fresh-IsValid : Runs.IsValid fresh
fresh-IsValid = record {
  buffer_valid = record { storage = refl; head_in = omega arith; tail_in = omega arith };
  events_valid = record { storage = refl; head_in = omega arith; tail_in = omega arith };
}

typing-IsValid : Runs.IsValid typing
typing-IsValid = record {
  buffer_valid = record { storage = refl; head_in = omega arith; tail_in = omega arith };
  events_valid = record { storage = refl; head_in = omega arith; tail_in = omega arith };
}

characters-irqs_example :
    characters (irqs (recorder machine) 3 fresh []).0
    ≡ offer_all 255
        (characters fresh)
        (characters_of (mods_of fresh) (bytes_read (recorder machine) 3 fresh []))
characters-irqs_example = characters-irqs (recorder machine) 3 fresh [] fresh-IsValid

-- a controller with nothing to say, and a kernel that refuses the interrupt
abbrev quiet : Answers
quiet = record machine { port = λ w p. 0 }

abbrev refusing : Answers
refusing = record quiet { irq = λ w. busy }

abbrev started : ModuleResult × Keyboard × List Call
started = get_result (module_init (recorder quiet) 1 typing [])
  where
    get_result : Option (ModuleResult × Keyboard × List Call) → ModuleResult × Keyboard × List Call
    get_result none = (ok, typing, [])
    get_result (some r) = r

module_init_example :
    ((started.0 ≡ ok) × Attached started.1 (queues_held []) [] started.2)
    ⊎ ((started.0 ≢ ok) × Gave (queues_held []) [] started.2)
    ⊎ ((started.0 ≢ ok)
        × ((drained : List Call) × (drain_controller (recorder quiet) 1 (
                create_queue (quiet.queue (create_queue (quiet.queue []) ∷ []))
                ∷ create_queue (quiet.queue [])
                ∷ [])
              ≡ some drained)
            × (quiet.irq drained ≢ ok))
        × Gave (started.1.event_readers ∷ queues_held []) [] started.2)
unfolding module_init attach drain_controller
module_init_example = module_init_lem quiet 1 typing started.1 [] started.2 started.0 refl

refused_interrupt_example :
    (k : Keyboard) × (w : List Call) × (module_init (recorder refusing) 1 typing []
      ≡ some (busy, k, w))
    × (queues_held w ≡ 2 ∷ [])
unfolding drain_controller queues_held
refused_interrupt_example =
    refused_interrupt_leaks refusing 1 typing []
      (read_port 0x64 ∷ create_queue 2 ∷ create_queue 1 ∷ []) (omega arith) (ground arith)
      (ground arith) refl (ground arith)

-- a mouse that went left and down with the left button held and the wheel one up
abbrev moved : MouseEvent
moved = record { dx = negsuc 9; dy = pos 200; dz = negsuc 0; buttons = 1 }

moved-IsReportable : IsReportable moved
moved-IsReportable = record {
  dx_in = (omega arith, omega arith);
  dy_in = (omega arith, omega arith);
  dz_in = (omega arith, omega arith);
  buttons_in = omega arith;
}

decode-encode_example : decode true (encode moved) ≡ moved
decode-encode_example = decode-encode moved moved-IsReportable

abbrev idle_mouse : Mouse
idle_mouse = record {
  readers = 1;
  events = record { slots = replicate 128 Packet.no_event; head = 0; tail = 0; dropped = 0 };
  packet = 8 ∷ 3 ∷ 0 ∷ 0 ∷ [];
  packet_length = 2;
  packet_size = 3;
  has_wheel = false;
  packets_seen = 0;
  resynchronisations = 0;
}

idle_mouse-IsValid : Decode.IsValid idle_mouse
idle_mouse-IsValid = record {
  buffer = refl;
  size_in = inl refl;
  begun = omega arith;
  events_valid = record { storage = refl; head_in = omega arith; tail_in = omega arith };
}

-- no mouse answers
keyboard_on_example : keyboard_on (with_keyboard_off (recorder quiet) idle_mouse []).2 ≡ true
keyboard_on_example = keyboard_on-with_keyboard_off quiet (λ w. refl) idle_mouse []

days_from_civil_example :
    days_from_civil (pos 2024) 3 1
    ≡ pos (sum_months (is_leap_year 2024) 2 0 (sum_years 54 1970 0) + 0)
days_from_civil_example = days_from_civil_lem 2024 2 1 (omega arith) (omega arith) (omega arith)
