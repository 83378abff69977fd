-- ===== src/Game.antt =====
-- The game state of kernel-core/src/game: the block world, its mesh and its save format.
pub mod World
pub mod Mesh
pub mod Save
pub mod Voxel
