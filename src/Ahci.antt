-- ===== src/Ahci.antt =====
-- The AHCI driver of kernel/src/ahci.
pub mod Hba
pub mod Port
pub mod Engine
pub mod Controller
pub mod Init
mod Tests
