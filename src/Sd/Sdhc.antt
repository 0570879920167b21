-- ===== src/Sd/Sdhc.antt =====
-- The SD host of the eMMC, drivers/sd/dwcsdhc/dwcsdhc.cpp.
pub mod Types
pub mod Fields
pub mod Registers
pub mod Bus
pub mod Clock
pub mod Signals
pub mod Operations
pub mod Interrupt
pub mod Requests
pub mod Adma
pub mod Port
pub mod Commands
pub mod Divisor
pub mod Reads
pub mod Outcome
pub mod Gated
pub mod Kept
pub mod Steps
pub mod Divider
pub mod Table
pub mod Notices
pub mod Copied
pub mod Blocks
pub mod Arrivals
pub mod Word
mod Tests
