-- ===== src/Kernel/Tty.antt =====
-- kernel/dev/line_discipline.cpp: terminals.
pub mod Discipline
pub mod Queue
pub mod Editing
pub mod Feed
pub mod Typing
pub mod Reading
mod Tests
