-- ===== src/Usb.antt =====
-- kernel/usb: the USB host controller's driver.
pub mod Ring
pub mod Pool
