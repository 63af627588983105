-- ===== src/Drivers/Ps2mouse.antt =====
-- modules/ps2mouse/ps2mouse.c, the PS/2 mouse driver.
pub mod Packet
pub mod Setup
pub mod Decode
pub mod Keyboard
