-- ===== src/Voxel/World.antt =====
-- engine/voxel/VoxelWorld.h and VoxelWorld.cpp: the sparse chunk map and its access by coordinate.
-- `std::unordered_map` is a list of pairs; erasing removes every entry of the key.
pub mod Map
pub mod Access
pub mod Carve
pub mod Bake
use voxhammer.Base.{ℕ, Bool, List, [], ◌∷◌, Option, none, some, ◌==◌, if◌then◌else◌}
use voxhammer.Base.Int.{ℤ}
use voxhammer.Voxel.Chunk.{Chunk, new_chunk, chunk_get, chunk_set, is_empty}
use voxhammer.Voxel.Coords.{ChunkCoord, coord_eq, world_to_chunk, chunk_local}

abbrev pub ChunkMap : Type 0
ChunkMap = List (ChunkCoord × Chunk)

-- `chunks_.find`
unfoldable pub find_chunk : ChunkMap → ChunkCoord → Option Chunk
find_chunk [] key = none
find_chunk ((k, c) ∷ m) key = if coord_eq k key then some c else find_chunk m key

-- `chunks_[key] = c`
unfoldable pub put_chunk : ChunkMap → ChunkCoord → Chunk → ChunkMap
put_chunk [] key c = (key, c) ∷ []
put_chunk ((k, d) ∷ m) key c = if coord_eq k key then (k, c) ∷ m else (k, d) ∷ put_chunk m key c

-- `chunks_.erase`
unfoldable pub erase_chunk : ChunkMap → ChunkCoord → ChunkMap
erase_chunk [] key = []
erase_chunk ((k, d) ∷ m) key =
    let rest = erase_chunk m key in if coord_eq k key then rest else (k, d) ∷ rest

-- The chunk that `GetOrCreateChunk` returns a reference to.
unfoldable pub get_or_create_chunk : ChunkMap → ChunkCoord → Chunk
get_or_create_chunk m key = elim (find_chunk m key) [ none ↦ new_chunk | some c ↦ c ]

-- What the erasure of a voxel leaves of its chunk.
clear_in : ChunkMap → ChunkCoord → ℕ × ℕ × ℕ → Option Chunk → ChunkMap
clear_in m key l none = m
clear_in m key l (some c) =
    let c' = chunk_set c l 0 in if is_empty c' then erase_chunk m key else put_chunk m key c'

-- `SetVoxel`
unfoldable pub set_voxel : ChunkMap → ℤ → ℤ → ℤ → ℕ → ChunkMap
unfolding clear_in
set_voxel m x y z mat =
    let key = world_to_chunk x y z in
    let l = chunk_local x y z in
    if mat == 0
    then clear_in m key l (find_chunk m key)
    else put_chunk m key (chunk_set (get_or_create_chunk m key) l mat)

get_in : Option Chunk → ℕ × ℕ × ℕ → ℕ
get_in none l = 0
get_in (some c) l = chunk_get c l

-- `GetVoxel`
pub get_voxel : ChunkMap → ℤ → ℤ → ℤ → ℕ
unfolding get_in
get_voxel m x y z = get_in (find_chunk m (world_to_chunk x y z)) (chunk_local x y z)
