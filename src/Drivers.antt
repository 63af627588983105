-- ===== src/Drivers.antt =====
-- The loadable drivers of modules/ and what they share.
pub mod Ring
pub mod Kernel
pub mod Recorder
pub mod Ps2kbd
pub mod Rtc
pub mod Ps2mouse
mod Tests
