-- ===== src/Tests/Grids.antt =====
-- engine/render and game/main.cpp: a grid of two cells to a side, and a game that carves.
use voxhammer.Base.Int.{pos}
use voxhammer.Base.{
  arith, if◌then◌else◌, refl, true, ℕ, ◌∷◌, ◌≡◌, List, [], false, get_or, none, some,
}
use voxhammer.Tests.Imports.{tenth_floats}
use voxhammer.Base.Ranges.{for_range}
use voxhammer.Base.Loops.{loop}
use voxhammer.Render.{load_palette, Renderer, build_brick_occupancy, init_buffers, brick_index}
use voxhammer.Render.Edit.{
  edit_slab, edit_row, edit_cell, edit_voxels, edit_box, edit_cells, clamp_box, is_empty_box,
  write_voxels, write_bricks, scan_brick,
}
use voxhammer.Render.Current.{IsCurrent}
use voxhammer.Render.Marking.{build_brick_occupancy-scan_brick}
use voxhammer.Render.Runs.{
  Reachable, Reachable-IsCurrent, Reachable-marked, initialised, stepped, edit_region,
}
use voxhammer.Game.{Game, boot, carve_at, load_upload}
use voxhammer.Game.Runs
use voxhammer.Game.Runs.{IsShown, Reachable-IsShown, booted, carve, upload}
use voxhammer.Voxel.Stamp.{Stamped}
use voxhammer.Voxel.World.{set_voxel}
use voxhammer.Voxel.World.Map
use voxhammer.Voxel.World.Access.{set_voxel-IsValid}
use voxhammer.Voxel.Palette.{clear_palette, clear_palette-IsValid}

abbrev off : Renderer
off = record {
  valid = false;
  voxel_mapped = false;
  palette_mapped = false;
  brick_mapped = false;
  voxel_ptr = [];
  palette_ptr = [];
  brick_ptr = [];
  accum_frame = 4;
  acc_have = true;
  gi_denoise = true;
  empty_skip = true;
  gi_debug = false;
  gi_reproject = true;
}

abbrev eight : List ℕ
eight = 0 ∷ 0 ∷ 0 ∷ 0 ∷ 0 ∷ 0 ∷ 0 ∷ 0 ∷ []

-- One cell is painted.
abbrev painted : Renderer
painted =
    edit_voxels 2 (pos 1) (pos 0) (pos 1) (pos 2) (pos 1) (pos 2) (some (7 ∷ [])) none
      (init_buffers 2 none eight [] off)

painted-Reachable : Reachable 2 painted
painted-Reachable =
    stepped (initialised none eight [] off refl)
      (edit_region (pos 1) (pos 0) (pos 1) (pos 2) (pos 1) (pos 2) (some (7 ∷ [])) none)

Reachable-IsCurrent_example : IsCurrent 2 painted
Reachable-IsCurrent_example = Reachable-IsCurrent 2 painted painted-Reachable

Reachable-marked_example : get_or painted.brick_ptr (brick_index 2 0 0 0) 0 ≡ 1
unfolding edit_voxels edit_box edit_cells clamp_box is_empty_box write_voxels write_bricks
    init_buffers load_palette for_range loop edit_slab edit_row edit_cell
Reachable-marked_example =
    Reachable-marked 2 painted 1 0 1 painted-Reachable (omega arith) (omega arith) (omega arith)
      refl

build_brick_occupancy-scan_brick_example :
    get_or (build_brick_occupancy 2 eight) (brick_index 2 0 0 0) 0
    ≡ (if scan_brick 2 eight 0 0 0 then 1 else 0)
build_brick_occupancy-scan_brick_example =
    build_brick_occupancy-scan_brick 2 eight 0 0 0 (omega arith) (omega arith) (omega arith) refl

-- A world of one voxel, shown and carved, and an upload that is no file.
abbrev one_voxel : Stamped
one_voxel = (set_voxel [] (pos 4) (pos 5) (pos 6) 9, clear_palette)

abbrev carved : Game
carved = (carve_at (pos 4) (pos 5) (pos 6) (pos 2) (boot false one_voxel [] [] off)).0

one_voxel-IsValid : Map.IsValid one_voxel.0
one_voxel-IsValid =
    set_voxel-IsValid [] (pos 4) (pos 5) (pos 6) 9 (record { unique = tt; live = tt })

Reachable-IsShown_example :
    IsShown (load_upload tenth_floats (some (1 ∷ [])) (pos 0) (pos 0) (pos 0) carved).0
Reachable-IsShown_example =
    Reachable-IsShown tenth_floats
      (load_upload tenth_floats (some (1 ∷ [])) (pos 0) (pos 0) (pos 0) carved).0
      (Runs.stepped
        (Runs.stepped (booted false one_voxel [] [] off one_voxel-IsValid clear_palette-IsValid)
          (carve (pos 4) (pos 5) (pos 6) (pos 2)))
        (upload (some (1 ∷ [])) (pos 0) (pos 0) (pos 0)))
