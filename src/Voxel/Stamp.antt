-- ===== src/Voxel/Stamp.antt =====
-- engine/voxel/VoxelWorld.cpp, `VoxelWorld::StampVox`. The source is another world, with a palette of
-- its own; coordinates are over the integers, and a material is cast to a byte nowhere, as each is
-- below 256.
pub mod Laws
use voxhammer.Base.Loops.{loop_ℤ}
use voxhammer.Voxel.Coords.{world_dim}
use voxhammer.Base.{[], arith, get_or, ◌==◌, if◌then◌else◌, ◌||◌, ◌≡◌, ℕ, Bool, List}
use voxhammer.Base.Int.{
  eq_of_parts, +ℤ_parts, -ℤ_parts, leb_ℤ, ltb_ℤ, is_neg, ◌≤ℤ◌, ◌+ℤ◌, ◌-ℤ◌, ℤ, pos,
}
use voxhammer.Voxel.Bounds.{bounds, Bounds}
use voxhammer.Voxel.Palette.{clear_palette, add_palette_color, Palette}
use voxhammer.Voxel.World.{set_voxel, get_voxel, ChunkMap}

-- The lambda `fitOffset`.
unfoldable pub fit_offset : ℤ → ℤ → ℤ → ℤ
fit_offset off lo hi_excl =
    let min_off = pos 0 -ℤ lo in
    let max_off = pos world_dim -ℤ hi_excl in
    if ltb_ℤ max_off min_off
    then min_off
    else if ltb_ℤ off min_off
    then min_off
    else if ltb_ℤ max_off off
    then max_off
    else off

-- The chunk map and the palette that are written.
abbrev pub Stamped : Type 0
Stamped = ChunkMap × Palette

-- `dx < 0 || dy < 0 || ... || dz >= kMaxCoord`
abbrev pub clipped : ℤ → ℤ → ℤ → Bool
clipped dx dy dz =
    is_neg dx
    || is_neg dy
    || is_neg dz
    || (leb_ℤ (pos world_dim) dx || leb_ℤ (pos world_dim) dy || leb_ℤ (pos world_dim) dz)

-- Find or insert the colour, and write the voxel.
pub put_color : ℤ → ℤ → ℤ → ℕ → Stamped → Stamped
put_color dx dy dz rgba (m, p) =
    let (p', idx) = add_palette_color p rgba in (set_voxel m dx dy dz idx, p')

module _ (src : ChunkMap) (src_palette : List ℕ) (ox oy oz : ℤ) where
  -- The innermost body, with its two `continue`s.
  stamp_body : ℤ → ℤ → ℤ → Stamped → Stamped
  unfolding put_color
  stamp_body wz wy wx s =
      let src_mat = get_voxel src wx wy wz in
      if src_mat == 0
      then s
      else if clipped (ox +ℤ wx) (oy +ℤ wy) (oz +ℤ wz)
      then s
      else put_color (ox +ℤ wx) (oy +ℤ wy) (oz +ℤ wz) (get_or src_palette src_mat 0) s

  stamp_row : Bounds → ℤ → ℤ → Stamped → Stamped
  unfolding stamp_body
  stamp_row b wz wy = loop_ℤ b.xmin b.xmax (stamp_body wz wy)

  stamp_slab : Bounds → ℤ → Stamped → Stamped
  unfolding stamp_row
  stamp_slab b wz = loop_ℤ b.ymin b.ymax (stamp_row b wz)

  stamp_box : Bounds → Stamped → Stamped
  unfolding stamp_slab
  stamp_box b = loop_ℤ b.zmin b.zmax (stamp_slab b)

-- `Clear`, which `Shutdown` calls.
unfoldable pub clear_world : Stamped
clear_world = ([], clear_palette)

-- `StampVox`
pub stamp_vox : Stamped → ChunkMap → List ℕ → ℤ → ℤ → ℤ → Stamped
unfolding stamp_box
stamp_vox s src src_palette ox oy oz =
    let b = bounds src in
    stamp_box src src_palette (fit_offset ox b.xmin b.xmax) (fit_offset oy b.ymin b.ymax)
      (fit_offset oz b.zmin b.zmax) b s

-- A model that is no larger than the grid on an axis is placed whole: its first and its last voxel
-- are in the grid; and an offset that already places it whole is kept.
fit_offset-fits :
    (off lo hi : ℤ)
    → hi ≤ℤ lo +ℤ pos world_dim
    → (pos 0 ≤ℤ fit_offset off lo hi +ℤ lo)
      × (fit_offset off lo hi +ℤ hi ≤ℤ pos world_dim)
      × (pos 0 ≤ℤ off +ℤ lo → off +ℤ hi ≤ℤ pos world_dim → fit_offset off lo hi ≡ off)
unfolding fit_offset
fit_offset-fits off lo hi h =
    let g = pos world_dim in
    let m = pos 0 -ℤ lo in
    let n = g -ℤ hi in
    ground (
      arith,
      -ℤ_parts (pos 0) lo,
      -ℤ_parts g hi,
      +ℤ_parts lo g,
      +ℤ_parts off lo,
      +ℤ_parts off hi,
      +ℤ_parts m lo,
      +ℤ_parts m hi,
      +ℤ_parts n lo,
      +ℤ_parts n hi,
      eq_of_parts m off,
      eq_of_parts n off,
    )
