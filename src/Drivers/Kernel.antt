-- ===== src/Drivers/Kernel.antt =====
-- include/shitos/module/api.h: the table of calls through which a module reaches the kernel. The
-- kernel and the hardware behind it are a parameter: `World` is all that the calls can change.
-- Left out: the calls that no driver here makes (memory, MMIO, panic, time, yield), and `log`,
-- which changes nothing that a driver can see. A handler, `self` and the operations of a device are
-- not passed on: they are the driver's own functions.
use Prim.Native.String.{String}
use shit_os.Prelude.{ℕ}

-- `enum ModuleResult`
pub data ModuleResult : Type 0 where
  ok abi_mismatch no_device no_memory busy invalid io : ModuleResult

pub record KernelApi : Type 1 where
  pub World : Type 0
  pub abi_version : ℕ
  pub inb : ℕ → World → ℕ × World
  pub outb : ℕ → ℕ → World → World
  pub irq_register : ℕ → World → ModuleResult × World
  pub irq_unregister : ℕ → World → World
  pub device_register : String → World → ModuleResult × World
  pub device_unregister : String → World → World
  -- 0 is the null pointer
  pub waitqueue_create : World → ℕ × World
  pub waitqueue_destroy : ℕ → World → World
  pub waitqueue_wake_all : ℕ → World → World
  pub time_source_register : World → ModuleResult × World
  pub time_source_unregister : World → World

-- SHITOS_MODULE_ABI_VERSION
abbrev pub module_abi_version : ℕ
module_abi_version = 2
