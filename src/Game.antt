-- ===== src/Game.antt =====
-- game/main.cpp: the commands that change the voxel world and show the change, in the build without
-- PhysX. Their texts and log lines are left out.
pub mod Shown
pub mod Carving
pub mod Runs
pub mod Args
pub mod Keys
use voxhammer.Import.Material.{Floats}
use voxhammer.Base.Int.{◌+ℤ◌, ◌-ℤ◌, pos, pos_part, max_ℤ, min_ℤ, ℤ}
use voxhammer.Base.{[], none, true, List, Option, if◌then◌else◌, ℕ, Bool, false, some}
use voxhammer.Voxel.World.{ChunkMap, get_voxel}
use voxhammer.Voxel.World.Carve.{carve_sphere}
use voxhammer.Voxel.World.Bake.{bake_flat_grid}
use voxhammer.Voxel.Stamp.{Stamped, stamp_vox, clear_world}
use voxhammer.Voxel.Coords.{world_dim}
use voxhammer.Import.Scene.{VoxScene, new_scene}
use voxhammer.Import.Load.{load_vox, load_vox_from_memory}
use voxhammer.Render.{
  set_gi_denoise, set_empty_space_skip, set_gi_debug, init_buffers, set_gi_reproject, Renderer,
  set_voxels,
}
use voxhammer.Render.Edit.{edit_voxels}
use voxhammer.Base.Pushes.{push_box}

-- The world with its palette, the renderer, and `voxLoaded`.
pub record Game : Type 0 where
  pub world : Stamped
  pub renderer : Renderer
  pub vox_loaded : Bool

-- The world is baked, and swapped in with its palette.
unfoldable pub show_world : Game → Game
show_world s = record s {
  renderer =
      set_voxels world_dim (bake_flat_grid s.world.0 world_dim) (some s.world.1.colors) s.renderer;
}

-- The materials of a box, as the commands collect them for `EditVoxels`.
unfoldable pub region_of : ChunkMap → (x0 y0 z0 x1 y1 z1 : ℤ) → List ℕ
region_of m x0 y0 z0 x1 y1 z1 =
    push_box (pos_part z0) (pos_part z1) (pos_part y0) (pos_part y1) (pos_part x0) (pos_part x1)
      (λ z y x. get_voxel m (pos x) (pos y) (pos z)) []

abbrev pub region_lo : ℤ → ℤ → ℤ
region_lo h radius = max_ℤ (pos 0) (h -ℤ radius)

abbrev pub region_hi : ℤ → ℤ → ℤ
region_hi h radius = min_ℤ (pos world_dim) (h +ℤ radius +ℤ pos 1)

-- `voxel.break` and `voxel.explode`, from the hit on: the number of voxels removed is printed.
unfoldable pub carve_at : (hx hy hz radius : ℤ) → Game → Game × ℕ
carve_at hx hy hz radius s =
    let (m, removed) = carve_sphere s.world.0 hx hy hz radius in
    let x0 = region_lo hx radius in
    let y0 = region_lo hy radius in
    let z0 = region_lo hz radius in
    let x1 = region_hi hx radius in
    let y1 = region_hi hy radius in
    let z1 = region_hi hz radius in
    (
      record s {
        world = (m, s.world.1);
        renderer =
            edit_voxels world_dim x0 y0 z0 x1 y1 z1 (some (region_of m x0 y0 z0 x1 y1 z1)) none
              s.renderer;
      },
      removed,
    )

-- `voxel.clear`
unfoldable pub clear_voxels : Game → Game
clear_voxels s = show_world (record s { world = clear_world; vox_loaded = false })

-- A scene that was read is stamped at the cursor and shown; one that was refused changes nothing.
unfoldable pub stamp_scene : VoxScene × Bool → (cx cy cz : ℤ) → Game → Game × Bool
stamp_scene (vs, ok) cx cy cz s =
    if ok
    then (
      show_world
          (record s { world = stamp_vox s.world vs.world vs.palette cx cy cz; vox_loaded = true }),
      true,
    )
    else (s, false)

module _ (fl : Floats) where
  -- `voxel.place`, with what reading the file at `voxel.import_path` gave, and the cursor.
  unfoldable pub place_file : Option (List ℕ) → (cx cy cz : ℤ) → Game → Game × Bool
  place_file contents = stamp_scene (load_vox fl contents new_scene)

  -- The handler of `SetVoxUploadHandler`.
  unfoldable pub load_upload : Option (List ℕ) → (cx cy cz : ℤ) → Game → Game × Bool
  load_upload bytes = stamp_scene (load_vox_from_memory fl bytes new_scene)

-- The switches that the run loop sets before a frame.
unfoldable pub sync_switches : (denoise skip debug reproject : Bool) → Game → Game
sync_switches denoise skip debug reproject s = record s {
  renderer =
      set_gi_reproject reproject
        (set_gi_debug debug (set_empty_space_skip skip (set_gi_denoise denoise s.renderer)));
}

-- What `main` has before its loop: a world, baked for `Init`, and whether a file was imported.
unfoldable pub boot : Bool → Stamped → (scene palette : List ℕ) → Renderer → Game
boot imported world scene palette d = record {
  world = world;
  renderer = init_buffers world_dim (some (bake_flat_grid world.0 world_dim)) scene palette d;
  vox_loaded = imported;
}
