-- ===== src/Nvme.antt =====
-- The NVMe driver of kernel/src/nvme.
pub mod Regs
pub mod Queue
pub mod Controller
pub mod Init
mod Tests
