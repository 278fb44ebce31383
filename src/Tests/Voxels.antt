-- ===== src/Tests/Voxels.antt =====
-- engine/voxel: the chunk map and the palette at small worlds.
use voxhammer.Voxel.World.Bake.Grid.{bake_flat_grid-get_voxel}
use voxhammer.Voxel.World.Carve.Clears.{carve_sphere-get_voxel}
use voxhammer.Voxel.World.Bake.{bake_flat_grid}
use voxhammer.Base.Int.{◌*ℤ◌, negsuc, ◌-ℤ◌, pos, ◌+ℤ◌}
use voxhammer.Voxel.Palette.Adding.{add_palette_color_lem, Registers, Keeps}
use voxhammer.Voxel.World.Carve.Count.{carve_sphere-count, count_solid}
use voxhammer.Voxel.World.Carve.{carve_sphere, dist2}
use voxhammer.Voxel.World.Access.{get_voxel-set_voxel, set_voxel-IsValid}
use voxhammer.Voxel.World.{ChunkMap, get_voxel, set_voxel}
use voxhammer.Base.{arith, get_or, ◌+◌, ◌≡◌, [], length}
use voxhammer.Voxel.World.Map.{IsValid}
use voxhammer.Voxel.Palette.{clear_palette-IsValid, add_palette_color, clear_palette}

empty-IsValid : IsValid []
empty-IsValid = record { unique = tt; live = tt }

-- One voxel, in a chunk with a negative coordinate.
abbrev lone : ChunkMap
lone = set_voxel [] (pos 1) (negsuc 0) (pos 2) 7

lone-IsValid : IsValid lone
lone-IsValid = set_voxel-IsValid [] (pos 1) (negsuc 0) (pos 2) 7 empty-IsValid

get_voxel-set_voxel_example : get_voxel lone (pos 1) (negsuc 0) (pos 2) ≡ 7
get_voxel-set_voxel_example =
    get_voxel-set_voxel [] (pos 1) (negsuc 0) (pos 2) 7 (pos 1) (negsuc 0) (pos 2) empty-IsValid

set_voxel-IsValid_example : IsValid (set_voxel lone (pos 1) (negsuc 0) (pos 2) 0)
set_voxel-IsValid_example = set_voxel-IsValid lone (pos 1) (negsuc 0) (pos 2) 0 lone-IsValid

-- Two voxels in the grid, 3 apart.
abbrev pair : ChunkMap
pair = set_voxel (set_voxel [] (pos 4) (pos 4) (pos 4) 9) (pos 7) (pos 4) (pos 4) 9

pair-IsValid : IsValid pair
pair-IsValid =
    set_voxel-IsValid (set_voxel [] (pos 4) (pos 4) (pos 4) 9) (pos 7) (pos 4) (pos 4) 9
      (set_voxel-IsValid [] (pos 4) (pos 4) (pos 4) 9 empty-IsValid)

carve_sphere-get_voxel_example :
    IsValid (carve_sphere pair (pos 5) (pos 4) (pos 4) (pos 1)).0
    × (get_voxel (carve_sphere pair (pos 5) (pos 4) (pos 4) (pos 1)).0 (pos 4) (pos 4) (pos 4) ≡ 0)
unfolding dist2 ◌+ℤ◌ ◌-ℤ◌ ◌*ℤ◌
carve_sphere-get_voxel_example =
    carve_sphere-get_voxel pair (pos 5) (pos 4) (pos 4) (pos 1) (pos 4) (pos 4) (pos 4) pair-IsValid

carve_sphere-count_example :
    count_solid (carve_sphere pair (pos 5) (pos 4) (pos 4) (pos 1)).0
      + (carve_sphere pair (pos 5) (pos 4) (pos 4) (pos 1)).1
    ≡ count_solid pair
carve_sphere-count_example = carve_sphere-count pair (pos 5) (pos 4) (pos 4) (pos 1) pair-IsValid

bake_flat_grid-get_voxel_example :
    (length (bake_flat_grid pair 8) ≡ 512)
    × (get_or (bake_flat_grid pair 8) 292 0 ≡ get_voxel pair (pos 4) (pos 4) (pos 4))
bake_flat_grid-get_voxel_example =
    bake_flat_grid-get_voxel pair 8 4 4 4 pair-IsValid (omega arith) (omega arith) (omega arith)

add_palette_color_lem_example :
    Keeps clear_palette (add_palette_color clear_palette 255)
    × Registers clear_palette 255 (add_palette_color clear_palette 255)
add_palette_color_lem_example = add_palette_color_lem clear_palette 255 clear_palette-IsValid
