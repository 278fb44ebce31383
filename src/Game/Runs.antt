-- ===== src/Game/Runs.antt =====
-- game/main.cpp: the commands, the uploads and the frames in any order.
use voxhammer.Render.Runs.{init_buffers-picks}
use voxhammer.Base.Int.{ℤ}
use voxhammer.Base.{
  get_or, ap, Option, refl, if◌then◌else◌, ◌∙◌, arith, ◌*◌, some, true, ℕ, ◌≡◌, Bool, List, false,
  length,
}
use voxhammer.Game.{
  Game, carve_at, clear_voxels, stamp_scene, place_file, load_upload, show_world, sync_switches,
  boot,
}
use voxhammer.Game.Shown.{baked-cells, Shows, set_voxels-Shows}
use voxhammer.Game.Carving.{carve_at-Shows}
use voxhammer.Import.Scene.{VoxScene}
use voxhammer.Import.Material.{Floats}
use voxhammer.Voxel.Coords.{world_dim}
use voxhammer.Voxel.Palette
use voxhammer.Voxel.World.{ChunkMap}
use voxhammer.Voxel.World.Map
use voxhammer.Voxel.Stamp.{Stamped, clear_world}
use voxhammer.Voxel.Stamp.Laws.{stamp_vox-Grown}
use voxhammer.Voxel.World.Bake.{bake_flat_grid}
use voxhammer.Voxel.World.Bake.Grid.{bake_flat_grid-get_voxel}
use voxhammer.Render.{
  Renderer, row_index, set_gi_denoise, set_empty_space_skip, set_gi_debug, set_gi_reproject,
}

-- The world is well formed, and the renderer shows it.
pub record IsShown (s : Game) : Type 0 where
  pub map_valid : Map.IsValid s.world.0
  pub palette_valid : Palette.IsValid s.world.1
  pub shows : Shows world_dim s.world.0 s.renderer

bake-length :
    (m : ChunkMap)
    → Map.IsValid m
    → length (bake_flat_grid m world_dim) ≡ world_dim * world_dim * world_dim
bake-length m v =
    (bake_flat_grid-get_voxel m world_dim 0 0 0 v (omega arith) (omega arith) (omega arith)).0

-- The renderer is made to show another world.
show_world-IsShown :
    (s : Game) (world : Stamped) (loaded : Bool)
    → Map.IsValid world.0
    → Palette.IsValid world.1
    → IsShown s
    → IsShown (show_world (record s { world = world; vox_loaded = loaded }))
unfolding show_world
show_world-IsShown s world loaded v p h = record {
  map_valid = v;
  palette_valid = p;
  shows =
      set_voxels-Shows world_dim s.world.0 world.0 (some world.1.colors) s.renderer v
        (bake-length world.0 v) h.shows;
}

stamp_scene-IsShown :
    (r : VoxScene × Bool) (cx cy cz : ℤ) (s : Game)
    → IsShown s
    → IsShown (stamp_scene r cx cy cz s).0
unfolding stamp_scene
stamp_scene-IsShown (vs, false) cx cy cz s h = h
stamp_scene-IsShown (vs, true) cx cy cz s h =
    let g =
      stamp_vox-Grown s.world.0 s.world.1 vs.world vs.palette cx cy cz h.map_valid
        h.palette_valid in
    show_world-IsShown s _ true g.map_valid g.palette_valid h

carve_at-IsShown : (hx hy hz r : ℤ) (s : Game) → IsShown s → IsShown (carve_at hx hy hz r s).0
unfolding carve_at
carve_at-IsShown hx hy hz r s h =
    let (v, shown) = carve_at-Shows hx hy hz r s h.map_valid h.shows in
    record { map_valid = v; palette_valid = h.palette_valid; shows = shown }

clear_voxels-IsShown : (s : Game) → IsShown s → IsShown (clear_voxels s)
unfolding clear_voxels clear_world
clear_voxels-IsShown s h =
    show_world-IsShown s clear_world false (record { unique = tt; live = tt })
      Palette.clear_palette-IsValid h

-- A switch restarts the accumulation or does nothing.
switch-Shows :
    {m : ChunkMap} (same : Bool) (d d' : Renderer)
    → Shows world_dim m d
    → Shows world_dim m d'
    → Shows world_dim m (if same then d else d')
switch-Shows true d d' h h' = h
switch-Shows false d d' h h' = h'

-- The buffers are what is shown.
same_buffers :
    {m : ChunkMap} (d d' : Renderer)
    → d'.valid ≡ d.valid
    → d'.voxel_mapped ≡ d.voxel_mapped
    → d'.brick_mapped ≡ d.brick_mapped
    → d'.voxel_ptr ≡ d.voxel_ptr
    → d'.brick_ptr ≡ d.brick_ptr
    → Shows world_dim m d
    → Shows world_dim m d'
same_buffers d d' a b c e f h = record {
  valid = a ∙ h.valid;
  current = rw (b, c, e, f) h.current;
  cells = λ z y x hz hy hx. rw e (h.cells z y x hz hy hx);
}

set_gi_denoise-Shows :
    {m : ChunkMap} (on : Bool) (d : Renderer)
    → Shows world_dim m d
    → Shows world_dim m (set_gi_denoise on d)
unfolding set_gi_denoise
set_gi_denoise-Shows on d h = switch-Shows _ d _ h (same_buffers d _ refl refl refl refl refl h)

set_empty_space_skip-Shows :
    {m : ChunkMap} (on : Bool) (d : Renderer)
    → Shows world_dim m d
    → Shows world_dim m (set_empty_space_skip on d)
unfolding set_empty_space_skip
set_empty_space_skip-Shows on d h =
    switch-Shows _ d _ h (same_buffers d _ refl refl refl refl refl h)

set_gi_debug-Shows :
    {m : ChunkMap} (on : Bool) (d : Renderer)
    → Shows world_dim m d
    → Shows world_dim m (set_gi_debug on d)
unfolding set_gi_debug
set_gi_debug-Shows on d h = switch-Shows _ d _ h (same_buffers d _ refl refl refl refl refl h)

set_gi_reproject-Shows :
    {m : ChunkMap} (on : Bool) (d : Renderer)
    → Shows world_dim m d
    → Shows world_dim m (set_gi_reproject on d)
unfolding set_gi_reproject
set_gi_reproject-Shows on d h = switch-Shows _ d _ h (same_buffers d _ refl refl refl refl refl h)

sync_switches-IsShown : (a b c e : Bool) (s : Game) → IsShown s → IsShown (sync_switches a b c e s)
unfolding sync_switches
sync_switches-IsShown a b c e s h = record {
  map_valid = h.map_valid;
  palette_valid = h.palette_valid;
  shows =
      set_gi_reproject-Shows e _ (
        set_gi_debug-Shows c _ (set_empty_space_skip-Shows b _ (set_gi_denoise-Shows a _ h.shows)));
}

boot-IsShown :
    (imported : Bool) (world : Stamped) (scene palette : List ℕ) (d : Renderer)
    → Map.IsValid world.0
    → Palette.IsValid world.1
    → IsShown (boot imported world scene palette d)
unfolding boot
boot-IsShown imported world scene palette d v p =
    let grid = bake_flat_grid world.0 world_dim in
    let (now, at, on) = init_buffers-picks world_dim grid scene palette d (bake-length world.0 v) in
    record {
      map_valid = v;
      palette_valid = p;
      shows = record {
        valid = on;
        current = now;
        cells = λ z y x hz hy hx.
            ap (λ l. get_or l (row_index world_dim z y x) 0) at
            ∙ baked-cells world_dim world.0 z y x v hz hy hx;
      };
    }

module _ (fl : Floats) where
  -- What happens to the voxels, in any order: the hits, the cursors, the files and the uploads are any.
  pub data Step : Game → Game → Type 0 where
    carve : (hx hy hz radius : ℤ) {s : Game} → Step s (carve_at hx hy hz radius s).0
    clear : {s : Game} → Step s (clear_voxels s)
    place :
        (contents : Option (List ℕ)) (cx cy cz : ℤ) {s : Game}
        → Step s (place_file fl contents cx cy cz s).0
    upload :
        (bytes : Option (List ℕ)) (cx cy cz : ℤ) {s : Game}
        → Step s (load_upload fl bytes cx cy cz s).0
    frame :
        (denoise skip debug reproject : Bool) {s : Game}
        → Step s (sync_switches denoise skip debug reproject s)

  pub data Reachable : Game → Type 0 where
    booted :
        (imported : Bool) (world : Stamped) (scene palette : List ℕ) (d : Renderer)
        → Map.IsValid world.0
        → Palette.IsValid world.1
        → Reachable (boot imported world scene palette d)
    stepped : {s t : Game} → Reachable s → Step s t → Reachable t

  Step-IsShown : {s t : Game} → Step s t → IsShown s → IsShown t
  unfolding place_file load_upload
  Step-IsShown (carve hx hy hz radius {s}) h = carve_at-IsShown hx hy hz radius s h
  Step-IsShown (clear {s}) h = clear_voxels-IsShown s h
  Step-IsShown (place contents cx cy cz {s}) h = stamp_scene-IsShown _ cx cy cz s h
  Step-IsShown (upload bytes cx cy cz {s}) h = stamp_scene-IsShown _ cx cy cz s h
  Step-IsShown (frame denoise skip debug reproject {s}) h =
      sync_switches-IsShown denoise skip debug reproject s h

  -- However breaks, explosions, clears, placed files, uploads of any bytes and frames follow on a start
  -- with a well-formed world: the world stays well formed, the grid that the shader reads holds the
  -- material of every voxel of the world, and its bricks are marked as its voxels say.
  pub Reachable-IsShown : (s : Game) → Reachable s → IsShown s
  Reachable-IsShown s (booted imported world scene palette d v p) =
      boot-IsShown imported world scene palette d v p
  Reachable-IsShown s (stepped r st) = Step-IsShown st (Reachable-IsShown _ r)
