-- ===== src/Import.antt =====
-- engine/voxel/VoxImport.h and VoxImport.cpp: the importer of MagicaVoxel files.
pub mod Reader
pub mod Scene
pub mod Material
pub mod Chunks
pub mod Load
