-- ===== src/Tests/Stamps.antt =====
-- engine/voxel: a stamp of one voxel, and its bounds.
use voxhammer.Voxel.Coords.{floor_div, world_to_chunk}
use voxhammer.Voxel.World.Access.{get_voxel-set_voxel}
use voxhammer.Voxel.Stamp.{stamp_vox}
use voxhammer.Voxel.Bounds.{bounds}
use voxhammer.Voxel.Palette.{clear_palette-IsValid, clear_palette}
use voxhammer.Voxel.Bounds.Covers.{IsInRange, bounds-Covers, Covers}
use voxhammer.Base.Int.{◌+ℤ◌, ◌*ℤ◌, ◌/ℤ◌, negsuc, pos}
use voxhammer.Voxel.Stamp.Laws.{stamp_vox-Grown, Grown}
use voxhammer.Base.{some, ◌≡◌, ◌∷◌, arith, ◌≢◌, []}
use voxhammer.Voxel.World.{put_chunk, get_voxel, set_voxel, ChunkMap}
use voxhammer.Voxel.World.Map.{IsValid}

abbrev model : ChunkMap
model = set_voxel [] (pos 1) (pos 2) (pos 3) 1

empty_map-IsValid : IsValid []
empty_map-IsValid = record { unique = tt; live = tt }

model-solid : get_voxel model (pos 1) (pos 2) (pos 3) ≢ 0
model-solid e = absurd (
    ground (
      arith,
      get_voxel-set_voxel [] (pos 1) (pos 2) (pos 3) 1 (pos 1) (pos 2) (pos 3) empty_map-IsValid,
    ))

model-IsInRange : IsInRange model
unfolding set_voxel put_chunk world_to_chunk floor_div ◌/ℤ◌ ◌*ℤ◌ ◌+ℤ◌ voxhammer.Base.Int.◌-ℤ◌
    voxhammer.Base.Int.◌%ℤ◌ mathlib.Core.Bool.xor
model-IsInRange =
    (((omega arith, omega arith), (omega arith, omega arith), (omega arith, omega arith)), tt)

bounds-Covers_example : Covers (bounds model) (pos 1) (pos 2) (pos 3)
bounds-Covers_example =
    bounds-Covers model (pos 1) (pos 2) (pos 3) model-IsInRange
      (omega arith, omega arith, omega arith) model-solid

stamp_vox-Grown_example :
    Grown [] clear_palette
      (stamp_vox ([], clear_palette) model (0 ∷ 255 ∷ []) (pos 9) (pos 0) (negsuc 4))
stamp_vox-Grown_example =
    stamp_vox-Grown [] clear_palette model (0 ∷ 255 ∷ []) (pos 9) (pos 0) (negsuc 4)
      empty_map-IsValid clear_palette-IsValid
