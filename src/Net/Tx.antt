-- ===== src/Net/Tx.antt =====
-- drivers/net/dwc_eqos/txqueue.cpp: the transmit queue.
pub mod Types
pub mod Put
pub mod Written
pub mod Fit
pub mod Whole
pub mod Advance
pub mod Fill
pub mod Collect
pub mod Laws
mod Tests
