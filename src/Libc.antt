-- ===== src/Libc.antt =====
-- The C library, user/libc.
pub mod Time
pub mod Strings
mod Tests
pub mod Search
pub mod Heap
pub mod Sort
pub mod Convert
pub mod Regex
