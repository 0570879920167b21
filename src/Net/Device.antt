-- ===== src/Net/Device.antt =====
-- The device of the Ethernet driver, drivers/net/dwc_eqos/device.cpp.
pub mod Types
pub mod Interrupts
pub mod Link
pub mod Reset
pub mod Config
pub mod Turns
pub mod Told
pub mod Waiting
pub mod Notified
mod Tests
