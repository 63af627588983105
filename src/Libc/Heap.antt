-- ===== src/Libc/Heap.antt =====
-- user/libc/src/stdlib.c: malloc, free, calloc and realloc.
pub mod Blocks
pub mod Alloc
pub mod Chain
pub mod Count
pub mod Split
pub mod Find
pub mod Grow
pub mod Valid
pub mod Freeing
pub mod Wrap
mod Tests
