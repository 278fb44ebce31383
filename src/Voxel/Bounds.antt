-- ===== src/Voxel/Bounds.antt =====
-- engine/voxel/VoxelWorld.cpp, `VoxelWorld::Bounds`. An `int` that overflows wraps around.
pub mod Covers
use voxhammer.Base.{ltb, ◌%◌, ◌-◌, [], if◌then◌else◌, ◌^◌, ◌∷◌}
use voxhammer.Base.Int.{◌-ℤ◌, ◌+ℤ◌, max_ℤ, ◌==ℤ◌, min_ℤ, ◌*ℤ◌, ℤ, pos, negsuc}
use voxhammer.Voxel.Coords.{chunk_size, ChunkCoord}
use voxhammer.Voxel.World.{ChunkMap}

-- The corner with the least coordinates, and the other, which is exclusive where the bounds are done.
pub record Bounds : Type 0 where
  pub xmin : ℤ
  pub ymin : ℤ
  pub zmin : ℤ
  pub xmax : ℤ
  pub ymax : ℤ
  pub zmax : ℤ

abbrev pub int_max : ℤ
int_max = pos (2 ^ 31 - 1)

abbrev pub int_min : ℤ
int_min = negsuc (2 ^ 31 - 1)

-- The number as an `int` of 32 bits.
unfoldable pub wrap_int : ℤ → ℤ
wrap_int (pos n) = let r = n % 2 ^ 32 in if ltb r (2 ^ 31) then pos r else negsuc (2 ^ 32 - 1 - r)
wrap_int (negsuc n) =
    let r = n % 2 ^ 32 in if ltb r (2 ^ 31) then negsuc r else pos (2 ^ 32 - 1 - r)

unfoldable pub chunk_lo : ℤ → ℤ
unfolding wrap_int
chunk_lo c = wrap_int (c *ℤ pos chunk_size)

unfoldable pub chunk_hi : ℤ → ℤ
unfolding wrap_int chunk_lo
chunk_hi c = wrap_int (wrap_int (chunk_lo c +ℤ pos chunk_size) -ℤ pos 1)

-- The body of the loop over the chunks.
pub widen : Bounds → ChunkCoord → Bounds
unfolding chunk_lo chunk_hi
widen b cc' = record {
  xmin = min_ℤ b.xmin (chunk_lo cc'.x);
  ymin = min_ℤ b.ymin (chunk_lo cc'.y);
  zmin = min_ℤ b.zmin (chunk_lo cc'.z);
  xmax = max_ℤ b.xmax (chunk_hi cc'.x);
  ymax = max_ℤ b.ymax (chunk_hi cc'.y);
  zmax = max_ℤ b.zmax (chunk_hi cc'.z);
}

pub widen_all : Bounds → ChunkMap → Bounds
widen_all b [] = b
widen_all b ((k, c) ∷ m) = widen_all (widen b k) m

abbrev pub no_bounds : Bounds
no_bounds = record {
  xmin = int_max;
  ymin = int_max;
  zmin = int_max;
  xmax = int_min;
  ymax = int_min;
  zmax = int_min;
}

abbrev pub zero_bounds : Bounds
zero_bounds = record {
  xmin = pos 0;
  ymin = pos 0;
  zmin = pos 0;
  xmax = pos 0;
  ymax = pos 0;
  zmax = pos 0;
}

-- The end of the function: zero for an empty world, else the upper corner is made exclusive.
pub finish : Bounds → Bounds
unfolding wrap_int
finish b = if b.xmin ==ℤ int_max then zero_bounds else record b {
  xmax = wrap_int (b.xmax +ℤ pos 1);
  ymax = wrap_int (b.ymax +ℤ pos 1);
  zmax = wrap_int (b.zmax +ℤ pos 1);
}

-- `Bounds`
pub bounds : ChunkMap → Bounds
unfolding widen_all finish
bounds m = finish (widen_all no_bounds m)
