-- ===== src/Libui.antt =====
-- The widget library, user/libui.
pub mod Terminal
mod Tests
