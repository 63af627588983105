-- ===== src/Kernel.antt =====
-- The kernel's own subsystems, kernel/: physical memory, the heap, pipes and terminals.
pub mod Memory
pub mod Heap
pub mod Pipe
pub mod Tty
