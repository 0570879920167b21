-- ===== src/Sd/Mshc.antt =====
-- The SD host of Synopsys, drivers/sd/dwcmshc/dwcmshc.cpp.
pub mod Types
pub mod Fields
pub mod Events
pub mod Registers
pub mod Idmac
pub mod Table
pub mod Chain
pub mod Round
pub mod Bus
pub mod Polls
pub mod Clock
pub mod Requests
pub mod Arrival
pub mod Transfers
pub mod Pio
pub mod Rounds
pub mod Commands
pub mod Interrupt
pub mod Handle
pub mod Word
pub mod Response
pub mod Ends
mod Tests
