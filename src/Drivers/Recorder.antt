-- ===== src/Drivers/Recorder.antt =====
-- A kernel that answers as it likes and remembers what it was asked: every answer is a function of
-- the calls so far. The calls are those of include/shitos/module/api.h.
use Prim.Native.String.{String}
use shit_os.Prelude.{ℕ, List, [], ◌∷◌, ◌==◌, if◌then◌else◌}
use shit_os.Drivers.Kernel.{KernelApi, ModuleResult, ok}

pub data Call : Type 0 where
  read_port : ℕ → Call
  write_port : ℕ → ℕ → Call
  register_irq : ℕ → ModuleResult → Call
  unregister_irq : ℕ → Call
  register_device : String → ModuleResult → Call
  unregister_device : String → Call
  create_queue : ℕ → Call
  destroy_queue : ℕ → Call
  wake_queue : ℕ → Call
  register_time : ModuleResult → Call
  unregister_time : Call

pub record Answers : Type 0 where
  pub version : ℕ
  pub port : List Call → ℕ → ℕ
  pub irq : List Call → ModuleResult
  pub device : List Call → ModuleResult
  pub queue : List Call → ℕ
  pub time : List Call → ModuleResult

-- The newest call stands first.
abbrev pub recorder : Answers → KernelApi
recorder a = record {
  World = List Call;
  abi_version = a.version;
  inb = λ p w. (a.port w p, read_port p ∷ w);
  outb = λ p v w. write_port p v ∷ w;
  irq_register = λ n w. (a.irq w, register_irq n (a.irq w) ∷ w);
  irq_unregister = λ n w. unregister_irq n ∷ w;
  device_register = λ d w. (a.device w, register_device d (a.device w) ∷ w);
  device_unregister = λ d w. unregister_device d ∷ w;
  waitqueue_create = λ w. (a.queue w, create_queue (a.queue w) ∷ w);
  waitqueue_destroy = λ q w. destroy_queue q ∷ w;
  waitqueue_wake_all = λ q w. wake_queue q ∷ w;
  time_source_register = λ w. (a.time w, register_time (a.time w) ∷ w);
  time_source_unregister = λ w. unregister_time ∷ w;
}

-- what a driver holds of the kernel after some calls
abbrev pub erase : ℕ → List ℕ → List ℕ
erase q [] = []
erase q (p ∷ ps) = if p == q then ps else p ∷ erase q ps

abbrev queues_after : Call → List ℕ → List ℕ
queues_after (create_queue q) held = if q == 0 then held else q ∷ held
queues_after (destroy_queue q) held = erase q held
queues_after _ held = held

unfoldable pub queues_held : List Call → List ℕ
queues_held [] = []
queues_held (c ∷ cs) = queues_after c (queues_held cs)

abbrev handlers_after : Call → List ℕ → List ℕ
handlers_after (register_irq n ok) held = n ∷ held
handlers_after (unregister_irq n) held = erase n held
handlers_after _ held = held

unfoldable pub handlers_held : List Call → List ℕ
handlers_held [] = []
handlers_held (c ∷ cs) = handlers_after c (handlers_held cs)

-- The number of devices: the name is not compared, a driver removes what it registered last.
abbrev devices_after : Call → List String → List String
devices_after (register_device d ok) held = d ∷ held
devices_after (unregister_device d) [] = []
devices_after (unregister_device d) (_ ∷ held) = held
devices_after _ held = held

unfoldable pub devices_held : List Call → List String
devices_held [] = []
devices_held (c ∷ cs) = devices_after c (devices_held cs)
