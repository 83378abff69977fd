-- ===== src/Ps2.antt =====
-- The PS/2 devices of kernel/src/ps2.
pub mod Config
pub mod Controller
pub mod Init
pub mod Mouse
pub mod Keyboard
mod Tests
