-- ===== src/Render.antt =====
-- engine/render/Renderer.cpp: what the renderer keeps for the shader to read, the voxel grid, the
-- palette and the occupancy of the bricks, and the settings that restart the accumulation. `kGrid` is
-- an argument, `g`, so that a run can be evaluated; the shaders and the calls of DirectX are left out.
pub mod Occupancy
pub mod Runs
pub mod Updates
pub mod Current
pub mod Writes
pub mod Marking
pub mod Edit
use mathlib.Core.Bool.{xor}
use voxhammer.Base.Loops.{loop}
use voxhammer.Base.{
  length, none, some, Option, ltb, not, zero, ◌&&◌, suc, ℕ, List, [], ◌∷◌, Bool, true, false, ◌+◌,
  ◌*◌, ◌/◌, ◌-◌, ◌==◌, if◌then◌else◌, get_or, set, replicate,
}

-- The members of `Impl` that the model keeps; the pointers are null until `Init` has mapped them.
pub record Renderer : Type 0 where
  pub valid : Bool
  pub voxel_mapped : Bool
  pub palette_mapped : Bool
  pub brick_mapped : Bool
  pub voxel_ptr : List ℕ
  pub palette_ptr : List ℕ
  pub brick_ptr : List ℕ
  pub accum_frame : ℕ
  pub acc_have : Bool
  pub gi_denoise : Bool
  pub empty_skip : Bool
  pub gi_debug : Bool
  pub gi_reproject : Bool

abbrev pub brick_dim : ℕ
brick_dim = 8

-- `kBrickGrid`, and `kBrickCount`.
abbrev pub brick_grid : ℕ → ℕ
brick_grid g = (g + brick_dim - 1) / brick_dim

abbrev pub brick_count : ℕ → ℕ
brick_count g = brick_grid g * brick_grid g * brick_grid g

-- `rowBase + x`
abbrev pub row_index : ℕ → ℕ → ℕ → ℕ → ℕ
row_index g z y x = (z * g + y) * g + x

abbrev pub brick_index : ℕ → ℕ → ℕ → ℕ → ℕ
brick_index g bz by bx = (bz * brick_grid g + by) * brick_grid g + bx

-- `memcpy` of at most `n` cells, and `memset` of the others.
unfoldable pub fit : ℕ → List ℕ → List ℕ
fit zero grid = []
fit (suc n) [] = 0 ∷ fit n []
fit (suc n) (v ∷ grid) = v ∷ fit n grid

-- The accumulation starts again.
abbrev pub restart : Renderer → Renderer
restart d = record d { accum_frame = 0; acc_have = false }

-- The palette is copied where there is one.
unfoldable pub load_palette : Option (List ℕ) → Renderer → Renderer
load_palette none d = d
load_palette (some palette) d =
    if d.palette_mapped then record d { palette_ptr = fit 256 palette } else d

module _ (g : ℕ) where
  -- The body of the loops that mark the bricks.
  unfoldable pub mark_voxel : List ℕ → ℕ → ℕ → ℕ → List ℕ → List ℕ
  mark_voxel grid z y x occ =
      if get_or grid (row_index g z y x) 0 == 0
      then occ
      else set occ (brick_index g (z / brick_dim) (y / brick_dim) (x / brick_dim)) 1

  unfoldable pub mark_row : List ℕ → ℕ → ℕ → List ℕ → List ℕ
  mark_row grid z y occ = loop g (mark_voxel grid z y) occ

  unfoldable pub mark_slab : List ℕ → ℕ → List ℕ → List ℕ
  mark_slab grid z occ = loop g (mark_row grid z) occ

  unfoldable pub mark_bricks : List ℕ → List ℕ → List ℕ
  mark_bricks grid occ = loop g (mark_slab grid) occ

  -- `BuildBrickOccupancy`
  unfoldable pub build_brick_occupancy : List ℕ → List ℕ
  build_brick_occupancy grid =
      let occ = replicate (brick_count g) 0 in
      if ltb (length grid) (g * g * g) then occ else mark_bricks grid occ

  unfoldable pub load_voxels : List ℕ → Renderer → Renderer
  unfolding fit
  load_voxels grid d = if d.voxel_mapped then record d { voxel_ptr = fit (g * g * g) grid } else d

  unfoldable pub load_bricks : Renderer → Renderer
  load_bricks d =
      if d.brick_mapped && d.voxel_mapped
      then record d { brick_ptr = mark_bricks d.voxel_ptr (replicate (brick_count g) 0) }
      else d

  -- `SetVoxels`
  unfoldable pub set_voxels : List ℕ → Option (List ℕ) → Renderer → Renderer
  unfolding load_voxels load_bricks load_palette
  set_voxels grid palette d =
      if not d.valid then d else restart (load_bricks (load_palette palette (load_voxels grid d)))

  -- The buffers that `Init` fills, from a grid of the right size or from its own scene.
  unfoldable pub init_buffers : Option (List ℕ) → (scene palette : List ℕ) → Renderer → Renderer
  unfolding build_brick_occupancy fit
  init_buffers voxels scene palette d = record d {
    valid = true;
    voxel_mapped = true;
    brick_mapped = true;
    palette_mapped = true;
    voxel_ptr = used;
    brick_ptr = build_brick_occupancy used;
    palette_ptr = fit 256 palette;
  }
    where
      pick : Option (List ℕ) → List ℕ
      pick none = scene
      pick (some v) = if length v == g * g * g then v else scene

      used : List ℕ
      used = pick voxels

-- `SetGiDenoise`
unfoldable pub set_gi_denoise : Bool → Renderer → Renderer
set_gi_denoise enabled d =
    if not (xor d.gi_denoise enabled) then d else restart (record d { gi_denoise = enabled })

-- `SetEmptySpaceSkip`
unfoldable pub set_empty_space_skip : Bool → Renderer → Renderer
set_empty_space_skip enabled d =
    if not (xor d.empty_skip enabled) then d else restart (record d { empty_skip = enabled })

-- `SetGiDebug`
unfoldable pub set_gi_debug : Bool → Renderer → Renderer
set_gi_debug enabled d =
    if not (xor d.gi_debug enabled) then d else restart (record d { gi_debug = enabled })

-- `SetGiReproject`
unfoldable pub set_gi_reproject : Bool → Renderer → Renderer
set_gi_reproject enabled d =
    if not (xor d.gi_reproject enabled) then d else restart (record d { gi_reproject = enabled })

-- `Shutdown`
unfoldable pub shutdown_renderer : Renderer → Renderer
shutdown_renderer d = record d { valid = false }
