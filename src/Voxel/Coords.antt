-- ===== src/Voxel/Coords.antt =====
-- engine/voxel/VoxelWorld.h and VoxelWorld.cpp: chunk constants, chunk coordinates, and the split
-- of a world coordinate into a chunk and a place in it. `int` arithmetic is over the integers.
use mathlib.Core.Bool.{false, xor}
use voxhammer.Base.{
  inr, inl, Bool-cases, ◌⊎◌, ℕ, ◌+◌, ◌*◌, ◌<◌, ◌≡◌, ◌↔◌, Bool, true, not, ◌&&◌, ap, ◌==◌, Bool-eq,
  arith, if◌then◌else◌,
}
use voxhammer.Base.Int.{ℤ, pos, ◌-ℤ◌, ◌+ℤ◌, ◌*ℤ◌, ◌/ℤ◌, ◌%ℤ◌, ◌==ℤ◌, ==ℤ_iff, is_neg, pos_part}

-- Voxels per side of a chunk.
abbrev pub chunk_size : ℕ
chunk_size = 32

abbrev pub chunk_voxels : ℕ
chunk_voxels = chunk_size * chunk_size * chunk_size

-- Voxels per side of the grid that the renderer draws.
abbrev pub world_dim : ℕ
world_dim = 128

pub record ChunkCoord : Type 0 where
  pub x : ℤ
  pub y : ℤ
  pub z : ℤ

-- `operator==`.
unfoldable pub coord_eq : ChunkCoord → ChunkCoord → Bool
coord_eq a b = a.x ==ℤ b.x && a.y ==ℤ b.y && a.z ==ℤ b.z

-- The sign of `a ^ b` is that of one of the two alone.
unfoldable pub floor_div : ℤ → ℤ → ℤ
floor_div a b = a /ℤ b -ℤ pos (if not (a %ℤ b ==ℤ pos 0) && xor (is_neg a) (is_neg b) then 1 else 0)

unfoldable pub world_to_chunk : ℤ → ℤ → ℤ → ChunkCoord
world_to_chunk x y z = record {
  x = floor_div x (pos chunk_size);
  y = floor_div y (pos chunk_size);
  z = floor_div z (pos chunk_size);
}

-- The lambda `mod` of `ChunkLocal`.
unfoldable pub local_mod : ℤ → ℤ → ℕ
local_mod v m = let r = v %ℤ m in pos_part (if is_neg r then r +ℤ m else r)

unfoldable pub chunk_local : ℤ → ℤ → ℤ → ℕ × ℕ × ℕ
chunk_local x y z =
    (local_mod x (pos chunk_size), local_mod y (pos chunk_size), local_mod z (pos chunk_size))

pub coord_eq_iff : (a b : ChunkCoord) → (coord_eq a b ≡ true) ↔ (a ≡ b)
unfolding coord_eq
coord_eq_iff a b = (
  (λ h. ground (arith, ==ℤ_iff a.x b.x, ==ℤ_iff a.y b.y, ==ℤ_iff a.z b.z)),
  (λ h. ground (arith, ==ℤ_iff a.x b.x, ==ℤ_iff a.y b.y, ==ℤ_iff a.z b.z)),
)

pub local_mod-lt : (v : ℤ) → local_mod v (pos 32) < 32
unfolding local_mod ◌%ℤ◌ ◌+ℤ◌
local_mod-lt v = ground arith

-- A coordinate is its chunk's first coordinate and its place in the chunk, also where it is negative.
pub floor_div-local_mod : (v : ℤ) → floor_div v (pos 32) *ℤ pos 32 +ℤ pos (local_mod v (pos 32)) ≡ v
unfolding floor_div local_mod ◌%ℤ◌ ◌+ℤ◌ ◌*ℤ◌ ◌/ℤ◌ ◌-ℤ◌ xor
floor_div-local_mod v = ground arith

axis_eq :
    (a b : ℤ)
    → floor_div a (pos 32) ≡ floor_div b (pos 32)
    → local_mod a (pos 32) ≡ local_mod b (pos 32)
    → a ≡ b
axis_eq a b h k = cc (floor_div-local_mod a, floor_div-local_mod b)

-- `mats[lz * kChunkSize * kChunkSize + ly * kChunkSize + lx]`
abbrev pub voxel_index : ℕ × ℕ × ℕ → ℕ
voxel_index (lx, ly, lz) = lz * chunk_size * chunk_size + ly * chunk_size + lx

abbrev pub same_pos : ℤ → ℤ → ℤ → ℤ → ℤ → ℤ → Bool
same_pos x y z x' y' z' = x ==ℤ x' && y ==ℤ y' && z ==ℤ z'

module _ (x y z : ℤ) where
  pub voxel_index-lt : voxel_index (chunk_local x y z) < chunk_voxels
  unfolding chunk_local
  voxel_index-lt = omega (arith, local_mod-lt x, local_mod-lt y, local_mod-lt z)

  module _ (x' y' z' : ℤ) where
    digits_eq :
        voxel_index (chunk_local x y z) ≡ voxel_index (chunk_local x' y' z')
        → (local_mod x (pos 32) ≡ local_mod x' (pos 32))
          × (local_mod y (pos 32) ≡ local_mod y' (pos 32))
          × (local_mod z (pos 32) ≡ local_mod z' (pos 32))
    unfolding chunk_local
    digits_eq h = omega (
      arith,
      local_mod-lt x,
      local_mod-lt y,
      local_mod-lt z,
      local_mod-lt x',
      local_mod-lt y',
      local_mod-lt z',
    )

    split_injective :
        world_to_chunk x y z ≡ world_to_chunk x' y' z'
        → voxel_index (chunk_local x y z) ≡ voxel_index (chunk_local x' y' z')
        → (x ≡ x') × (y ≡ y') × (z ≡ z')
    unfolding world_to_chunk
    split_injective h k =
        let (dx, dy, dz) = digits_eq k in
        (
          axis_eq x x' (ap (λ c. c.x) h) dx,
          axis_eq y y' (ap (λ c. c.y) h) dy,
          axis_eq z z' (ap (λ c. c.z) h) dz,
        )

    -- Two positions have the same chunk and the same place in it exactly when they are equal.
    pub same_cell :
        (coord_eq (world_to_chunk x y z) (world_to_chunk x' y' z')
          && voxel_index (chunk_local x y z) == voxel_index (chunk_local x' y' z'))
        ≡ same_pos x y z x' y' z'
    same_cell =
        Bool-eq
          (λ h. ground (
            arith,
            split_injective,
            coord_eq_iff (world_to_chunk x y z) (world_to_chunk x' y' z'),
            ==ℤ_iff x x',
            ==ℤ_iff y y',
            ==ℤ_iff z z',
          ))
          (λ h.
            let ex : x ≡ x' = ground (arith, ==ℤ_iff x x') in
            let ey : y ≡ y' = ground (arith, ==ℤ_iff y y') in
            let ez : z ≡ z' = ground (arith, ==ℤ_iff z z') in
            rw (ex, ey, ez)
              (ground (arith, coord_eq_iff (world_to_chunk x' y' z') (world_to_chunk x' y' z'))))

module _ (x y z x' y' z' : ℤ) where
  pub same_pos-cases :
      ((same_pos x y z x' y' z' ≡ true) × (x ≡ x') × (y ≡ y') × (z ≡ z'))
      ⊎ (same_pos x y z x' y' z' ≡ false)
  same_pos-cases = elim (Bool-cases (same_pos x y z x' y' z')) [
    | inl e ↦ inl (
      e,
      ground (arith, ==ℤ_iff x x'),
      ground (arith, ==ℤ_iff y y'),
      ground (arith, ==ℤ_iff z z'),
    )
    | inr e ↦ inr e
  ]
