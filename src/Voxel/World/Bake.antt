-- ===== src/Voxel/World/Bake.antt =====
-- engine/voxel/VoxelWorld.cpp, `VoxelWorld::BakeFlatGrid`: the dense grid that the renderer reads.
pub mod Cells
pub mod Grid
use voxhammer.Base.Loops.{loop}
use voxhammer.Voxel.Chunk.{chunk_get, Chunk}
use voxhammer.Voxel.World.{ChunkMap}
use voxhammer.Voxel.Coords.{chunk_size, ChunkCoord}
use voxhammer.Base.Int.{pos_part, is_neg, pos, ◌+ℤ◌, ◌*ℤ◌, ℤ}
use voxhammer.Base.{
  [], ◌∷◌, leb, set, true, ◌==◌, if◌then◌else◌, ◌+◌, Bool, List, ◌*◌, ℕ, replicate,
}

-- `w < 0 || static_cast<unsigned>(w) >= dim`
abbrev pub outside : ℤ → ℕ → Bool
outside w dim = if is_neg w then true else leb dim (pos_part w)

-- The first coordinate of a chunk on one axis, and a coordinate in it.
abbrev pub chunk_base : ℤ → ℤ
chunk_base c = c *ℤ pos chunk_size

abbrev pub flat_index : ℕ → ℕ → ℕ → ℕ → ℕ
flat_index dim z y x = z * dim * dim + y * dim + x

module _ (k : ChunkCoord) (c : Chunk) (dim : ℕ) where
  unfoldable pub bake_cell : ℕ → ℕ → ℕ → List ℕ → List ℕ
  bake_cell lz ly lx grid =
      let wz = chunk_base k.z +ℤ pos lz in
      let wy = chunk_base k.y +ℤ pos ly in
      let wx = chunk_base k.x +ℤ pos lx in
      if outside wx dim
      then grid
      else let m = chunk_get c (lx, ly, lz) in
        if m == 0
        then grid
        else set grid (flat_index dim (pos_part wz) (pos_part wy) (pos_part wx)) m

  unfoldable pub bake_row : ℕ → ℕ → List ℕ → List ℕ
  bake_row lz ly grid =
      if outside (chunk_base k.y +ℤ pos ly) dim
      then grid
      else loop chunk_size (bake_cell lz ly) grid

  unfoldable pub bake_slab : ℕ → List ℕ → List ℕ
  bake_slab lz grid =
      if outside (chunk_base k.z +ℤ pos lz) dim then grid else loop chunk_size (bake_row lz) grid

  pub bake_chunk : List ℕ → List ℕ
  bake_chunk grid = loop chunk_size bake_slab grid

-- The chunks are visited in the order of the list.
pub bake_chunks : ℕ → ChunkMap → List ℕ → List ℕ
bake_chunks dim [] grid = grid
bake_chunks dim ((k, c) ∷ m) grid = bake_chunks dim m (bake_chunk k c dim grid)

-- `BakeFlatGrid`
pub bake_flat_grid : ChunkMap → ℕ → List ℕ
bake_flat_grid m dim = bake_chunks dim m (replicate (dim * dim * dim) 0)
