-- ===== src/Voxel/World/Carve.antt =====
-- engine/voxel/VoxelWorld.cpp, `VoxelWorld::CarveSphere`. `int` and `long long` arithmetic is over
-- the integers: centre and radius are taken to be far from the ends of `int`.
pub mod Ball
pub mod Clears
pub mod Count
use voxhammer.Base.{
  ◌*◌, ==_iff, inr, inl, ℕ, ◌+◌, ◌≤◌, ◌≡◌, refl, ap, ◌∙◌, ◌≢◌, Bool, true, false, not, ◌&&◌, arith,
  ◌==◌, if◌then◌else◌, Bool-cases,
}
use voxhammer.Base.Int.{
  ==ℤ_iff, ℤ, pos, negsuc, pos_part, neg_part, ◌+ℤ◌, ◌-ℤ◌, ◌*ℤ◌, ◌≤ℤ◌, ◌==ℤ◌, ltb_ℤ, leb_ℤ, max_ℤ,
  min_ℤ, is_neg,
}
use voxhammer.Base.Loops.{loop_ℤ, loop_ℤ_inv, loop_ℤ_hit}
use voxhammer.Voxel.Coords.{same_pos-cases, world_dim, same_pos}
use voxhammer.Voxel.World.{ChunkMap, get_voxel, set_voxel}
use voxhammer.Voxel.World.Map.{IsValid}
use voxhammer.Voxel.World.Access.{get_voxel-set_voxel, set_voxel-IsValid}

-- The map, and `removed`.
abbrev pub Carved : Type 0
Carved = ChunkMap × ℕ

unfoldable pub dist2 : ℤ → ℤ → ℤ → ℤ
dist2 dx dy dz = dx *ℤ dx +ℤ dy *ℤ dy +ℤ dz *ℤ dz

module _ (cx cy cz r2 : ℤ) where
  -- The innermost body, with its two `continue`s.
  unfoldable pub carve_body : ℤ → ℤ → ℤ → Carved → Carved
  carve_body z y x (m, removed) =
      if ltb_ℤ r2 (dist2 (x -ℤ cx) (y -ℤ cy) (z -ℤ cz))
      then (m, removed)
      else if get_voxel m x y z == 0
      then (m, removed)
      else (set_voxel m x y z 0, removed + 1)

  carve_row : ℤ → ℤ → ℤ → ℤ → Carved → Carved
  carve_row x0 x1 z y = loop_ℤ x0 (x1 +ℤ pos 1) (carve_body z y)

  carve_slab : ℤ → ℤ → ℤ → ℤ → ℤ → Carved → Carved
  carve_slab x0 x1 y0 y1 z = loop_ℤ y0 (y1 +ℤ pos 1) (carve_row x0 x1 z)

  carve_box : ℤ → ℤ → ℤ → ℤ → ℤ → ℤ → Carved → Carved
  carve_box x0 x1 y0 y1 z0 z1 = loop_ℤ z0 (z1 +ℤ pos 1) (carve_slab x0 x1 y0 y1)

-- The box around the sphere on one axis, clamped to the grid.
abbrev pub box_lo : ℤ → ℤ → ℤ
box_lo c radius = max_ℤ (pos 0) (c -ℤ radius)

abbrev pub box_hi : ℤ → ℤ → ℤ
box_hi c radius = min_ℤ (pos world_dim -ℤ pos 1) (c +ℤ radius)

-- `CarveSphere`: the map left, and the number returned.
pub carve_sphere : ChunkMap → ℤ → ℤ → ℤ → ℤ → Carved
unfolding carve_box
carve_sphere m cx cy cz radius =
    if is_neg radius
    then (m, 0)
    else carve_box cx cy cz (radius *ℤ radius) (box_lo cx radius) (box_hi cx radius)
        (box_lo cy radius) (box_hi cy radius) (box_lo cz radius) (box_hi cz radius) (m, 0)

-- A voxel of the grid.
abbrev pub in_grid : ℤ → ℤ → ℤ → Bool
in_grid x y z =
    leb_ℤ (pos 0) x
    && ltb_ℤ x (pos world_dim)
    && (leb_ℤ (pos 0) y && ltb_ℤ y (pos world_dim))
    && (leb_ℤ (pos 0) z && ltb_ℤ z (pos world_dim))

-- A voxel of the ball.
abbrev pub in_ball : ℤ → ℤ → ℤ → ℤ → ℤ → ℤ → ℤ → Bool
in_ball cx cy cz r2 x y z = not (ltb_ℤ r2 (dist2 (x -ℤ cx) (y -ℤ cy) (z -ℤ cz)))
