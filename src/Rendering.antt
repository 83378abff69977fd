-- ===== src/Rendering.antt =====
-- The drawing code of kernel-core/src/rendering.
pub mod Color
pub mod Fill
pub mod GlyphCache
pub mod Parser
pub mod Rectangle
pub mod Renderer
pub mod Line
pub mod TextBox
pub mod Clip
pub mod Panel
mod Tests
