-- ===== src/Voxel/Raycast.antt =====
-- engine/voxel/VoxelWorld.cpp: `RaycastSolid`. The operations of `float` are a record.
pub mod Laws
use voxhammer.Base.Int.{◌+ℤ◌, ℤ, pos, negsuc, ltb_ℤ, leb_ℤ}
use voxhammer.Voxel.Coords.{world_dim}
use voxhammer.Voxel.World.{ChunkMap, get_voxel}
use voxhammer.Base.{
  zero, some, ◌+◌, ◌==◌, suc, if◌then◌else◌, none, not, ◌&&◌, ◌*◌, ◌||◌, Bool, ℕ, Option,
}

pub record RayFloats : Type 1 where
  pub F : Type 0
  pub lt : F → F → Bool
  pub le : F → F → Bool
  pub add : F → F → F
  pub sub : F → F → F
  pub mul : F → F → F
  pub div : F → F → F
  pub neg : F → F
  pub fabs : F → F
  pub sqrt : F → F
  pub zero_f : F
  pub one : F
  -- `1e-12f` and infinity.
  pub tiny : F
  pub infinity : F
  -- `static_cast<int>(std::floor(x))` and `static_cast<float>(v)`.
  pub floor : F → ℤ
  pub of_int : ℤ → F

pub record Cell : Type 0 where
  pub x : ℤ
  pub y : ℤ
  pub z : ℤ

-- The lambda `inBounds`.
unfoldable pub in_bounds : Cell → Bool
in_bounds c =
    leb_ℤ (pos 0) c.x
    && leb_ℤ (pos 0) c.y
    && leb_ℤ (pos 0) c.z
    && ltb_ℤ c.x (pos world_dim)
    && ltb_ℤ c.y (pos world_dim)
    && ltb_ℤ c.z (pos world_dim)

-- The step and the voxel of an axis: the far side is behind.
unfoldable pub has_passed : ℤ → ℤ → Bool
has_passed step v =
    ltb_ℤ (pos 0) step && leb_ℤ (pos world_dim) v || ltb_ℤ step (pos 0) && ltb_ℤ v (pos 0)

-- The test by which the march ends outside the grid; the steps are given as a cell.
unfoldable pub has_left : Cell → Cell → Bool
has_left step c = has_passed step.x c.x || has_passed step.y c.y || has_passed step.z c.z

module _ (fl : RayFloats) where
  open fl use {F}

  pub record Vec3 : Type 0 where
    pub x : F
    pub y : F
    pub z : F

  -- The variables of the march.
  pub record March : Type 0 where
    pub cell : Cell
    pub t : F
    pub t_max : Vec3

  -- `(dx > 0.0f) ? 1 : (dx < 0.0f ? -1 : 0)`
  step_of : F → ℤ
  step_of d = if fl.lt fl.zero_f d then pos 1 else if fl.lt d fl.zero_f then negsuc 0 else pos 0

  is_zero : ℤ → Bool
  is_zero v = leb_ℤ v (pos 0) && leb_ℤ (pos 0) v

  delta_of : ℤ → F → F
  unfolding is_zero
  delta_of step d = if not (is_zero step) then fl.fabs (fl.div fl.one d) else fl.infinity

  -- The lambda `firstBoundary`.
  first_boundary : F → ℤ → ℤ → F → F
  unfolding is_zero
  first_boundary o v step inv_abs =
      if is_zero step
      then fl.infinity
      else let next = if ltb_ℤ (pos 0) step then fl.add (fl.of_int v) fl.one else fl.of_int v in
        fl.mul (fl.sub next o) (if ltb_ℤ (pos 0) step then inv_abs else fl.neg inv_abs)

  -- The advance to the nearest boundary.
  unfoldable pub advance_march : Cell → Vec3 → March → March
  advance_march step delta m =
      if fl.le m.t_max.x m.t_max.y && fl.le m.t_max.x m.t_max.z
      then record {
        cell = record m.cell { x = m.cell.x +ℤ step.x };
        t = m.t_max.x;
        t_max = record m.t_max { x = fl.add m.t_max.x delta.x };
      }
      else if fl.le m.t_max.y m.t_max.z
      then record {
        cell = record m.cell { y = m.cell.y +ℤ step.y };
        t = m.t_max.y;
        t_max = record m.t_max { y = fl.add m.t_max.y delta.y };
      }
      else record {
        cell = record m.cell { z = m.cell.z +ℤ step.z };
        t = m.t_max.z;
        t_max = record m.t_max { z = fl.add m.t_max.z delta.z };
      }

  module _ (world : ChunkMap) where
    unfoldable pub is_solid : Cell → Bool
    is_solid c = not (get_voxel world c.x c.y c.z == 0)

    -- The `for` loop, with the number of rounds that are left.
    unfoldable pub march : F → Cell → Vec3 → ℕ → March → Option Cell
    march max_dist step delta zero m = none
    march max_dist step delta (suc n) m =
        let m' = advance_march step delta m in
        let rest = march max_dist step delta n m' in
        if fl.lt max_dist m'.t
        then none
        else if in_bounds m'.cell
        then (if is_solid m'.cell then some m'.cell else rest)
        else if has_left step m'.cell
        then none
        else rest

    -- From the setup on, for a direction of length 1.
    march_from : Vec3 → Vec3 → F → Cell → Option Cell
    unfolding step_of delta_of first_boundary
    march_from origin d max_dist c =
        let step : Cell = record { x = step_of d.x; y = step_of d.y; z = step_of d.z } in
        let delta : Vec3 = record {
          x = delta_of step.x d.x;
          y = delta_of step.y d.y;
          z = delta_of step.z d.z;
        } in
        march max_dist step delta (3 * world_dim + 3) (record {
          cell = c;
          t = fl.zero_f;
          t_max = record {
            x = first_boundary origin.x c.x step.x delta.x;
            y = first_boundary origin.y c.y step.y delta.y;
            z = first_boundary origin.z c.z step.z delta.z;
          };
        })

    -- `RaycastSolid`
    pub raycast_solid : Vec3 → Vec3 → F → Option Cell
    unfolding march_from
    raycast_solid origin dir max_dist =
        let len =
          fl.sqrt
            (fl.add (fl.add (fl.mul dir.x dir.x) (fl.mul dir.y dir.y)) (fl.mul dir.z dir.z)) in
        let d : Vec3 = record {
          x = fl.div dir.x len;
          y = fl.div dir.y len;
          z = fl.div dir.z len;
        } in
        let c : Cell = record {
          x = fl.floor origin.x;
          y = fl.floor origin.y;
          z = fl.floor origin.z;
        } in
        if fl.lt len fl.tiny
        then none
        else if in_bounds c && is_solid c
        then some c
        else march_from origin d max_dist c
