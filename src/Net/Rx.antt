-- ===== src/Net/Rx.antt =====
-- drivers/net/dwc_eqos/rxqueue.cpp: the receive queue. A callback that mutates the queue returns
-- the new queue. `none` of the loops is fuel that ran out. The parts that exist in a debug build
-- only (the assertions and `FragmentIndex` of a descriptor) and the traces are left out.
pub mod Types
pub mod Packet
pub mod Advance
pub mod Deliver
pub mod Indicate
pub mod Refill
pub mod Inv
pub mod Prepare
pub mod GiveBack
pub mod Laws
pub mod Received
pub mod Steps
