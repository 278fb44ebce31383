-- ===== src/Voxel.antt =====
-- engine/voxel: the sparse chunk map, its palette, and the operations on both.
pub mod Coords
pub mod Chunk
pub mod Palette
pub mod World
pub mod Bounds
pub mod Stamp
pub mod Raycast
