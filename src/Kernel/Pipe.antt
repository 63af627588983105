-- ===== src/Kernel/Pipe.antt =====
-- kernel/fs/pipe.cpp: pipes.
pub mod Buffer
pub mod Contents
pub mod Stream
pub mod Writes
pub mod Preempted
pub mod Poll
pub mod Meeting
mod Tests
