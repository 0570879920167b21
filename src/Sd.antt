-- ===== src/Sd.antt =====
-- The SD host drivers, drivers/sd.
pub mod Rockchip
pub mod Rate
pub mod Tuning
pub mod Phases
pub mod Sample
pub mod Mshc
pub mod Sdhc
mod Tests
