-- ===== src/Drivers/Rtc.antt =====
-- modules/rtc/rtc.c, the CMOS clock driver.
pub mod Cmos
pub mod Civil
pub mod Device
