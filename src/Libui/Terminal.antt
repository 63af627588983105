-- ===== src/Libui/Terminal.antt =====
-- user/libui/terminal.c, the terminal widget: the grid and the escape sequence parser.
pub mod Grid
pub mod Parser
pub mod Bounds
pub mod Erase
pub mod Reshape
