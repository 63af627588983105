-- ===== src/Drivers/Ps2kbd.antt =====
-- modules/ps2kbd/ps2kbd.c, the PS/2 keyboard driver.
pub mod State
pub mod Irq
pub mod Streams
pub mod Runs
pub mod Read
pub mod Init
pub mod Release
