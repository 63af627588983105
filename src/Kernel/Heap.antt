-- ===== src/Kernel/Heap.antt =====
-- kernel/mm/heap.cpp: the kernel heap.
pub mod Alloc
pub mod Bytes
pub mod Refill
pub mod Blocks
pub mod Give
pub mod Free
pub mod Twice
pub mod Copy
pub mod Realloc
pub mod Aligned
pub mod PageAligned
mod Tests
