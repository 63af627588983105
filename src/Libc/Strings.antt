-- ===== src/Libc/Strings.antt =====
-- user/libc/src/string.c: memory in `Memory`, strings in `Text`, and what they do beside each.
pub mod Memory
pub mod Text
pub mod Search
pub mod Copy
