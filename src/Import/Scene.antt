-- ===== src/Import/Scene.antt =====
-- engine/voxel/VoxImport.h and VoxImport.cpp: `VoxScene` and the default palette. The world of a scene
-- is its chunk map; the importer leaves the world's own palette alone.
use voxhammer.Base.Loops.{loop}
use voxhammer.Base.{◌^◌, set, ◌*◌, replicate, ◌+◌, List, [], ℕ}
use voxhammer.Voxel.World.{ChunkMap}

pub record VoxScene : Type 0 where
  pub world : ChunkMap
  pub palette : List ℕ
  pub size_x : ℕ
  pub size_y : ℕ
  pub size_z : ℕ
  pub voxel_count : ℕ

abbrev pub new_scene : VoxScene
new_scene = record {
  world = [];
  palette = replicate 256 0;
  size_x = 0;
  size_y = 0;
  size_z = 0;
  voxel_count = 0;
}

-- `0xFF000000u | (v << 16) | (v << 8) | v`; the bytes do not overlap.
abbrev pub grey : ℕ → ℕ
grey v = 0xff000000 + v * 2 ^ 16 + v * 2 ^ 8 + v

-- `FillDefaultPalette`
unfoldable pub fill_default_palette : List ℕ → List ℕ
fill_default_palette pal = loop 255 (λ i p. set p (i + 1) (grey (i + 1))) (set pal 0 0)
