-- ===== src/Net.antt =====
-- The Ethernet driver, drivers/net/dwc_eqos.
pub mod Adapter
pub mod Queue
pub mod Ring
pub mod Index
pub mod Rx
pub mod Tx
pub mod Device
mod Tests
