-- ===== src/Kernel/Memory.antt =====
-- kernel/mm: physical pages.
pub mod Physical
pub mod Count
pub mod Allocate
pub mod Contiguous
pub mod Release
pub mod Ranges
pub mod Initialize
pub mod Map
pub mod Place
mod Tests
