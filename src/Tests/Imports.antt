-- ===== src/Tests/Imports.antt =====
-- engine/voxel/VoxImport.cpp: the importer at small files.
use voxhammer.Import.Reader.{can_read}
use voxhammer.Import.Scene.{new_scene}
use voxhammer.Import.Material.{Floats}
use voxhammer.Import.Chunks.{Walk, walk, read_xyzi}
use voxhammer.Import.Chunks.Progress.{walk-can_read}
use voxhammer.Import.Chunks.Voxels.{Voxel, voxel_bytes, IsRead, read_xyzi-IsRead}
use voxhammer.Import.Load.{load_vox, start_walk}
use voxhammer.Import.Load.Safety.{IsSound, load_vox-IsSound}
use voxhammer.Voxel.World.Map.{IsValid}
use voxhammer.Base.{
  ◌^◌, ◌/◌, ◌*◌, ◌-◌, arith, ◌+◌, false, ltb, ◌++◌, refl, [], replicate, some, ℕ, ◌∷◌, ◌≡◌, List,
  codes,
}

-- Emission in tenths, cut off at 0.
abbrev pub tenth_floats : Floats
tenth_floats = record {
  F = ℕ;
  tenths = λ n. n;
  lt = ltb;
  add = λ a b. a + b;
  sub = λ a b. a - b;
  mul = λ a b. a * b / 10;
  div = λ a b. a * 10 / b;
  pow2 = λ a. 10 * 2 ^ (a / 10);
  atof = λ s. 10;
  to_u32 = λ a. a / 10;
}

no_chunks-IsValid : IsValid []
no_chunks-IsValid = record { unique = tt; live = tt }

new_scene-IsSound : IsSound new_scene
unfolding replicate
new_scene-IsSound = record { world_valid = no_chunks-IsValid; sized = refl }

-- A header, and a SIZE chunk that says more bytes than there are.
abbrev file : List ℕ
file =
    codes "VOX "
    ++ (150
        ∷ 0
        ∷ 0
        ∷ 0
        ∷ (codes "MAIN"
            ++ (0
                ∷ 0
                ∷ 0
                ∷ 0
                ∷ 0
                ∷ 0
                ∷ 0
                ∷ 0
                ∷ (codes "SIZE" ++ (200 ∷ 0 ∷ 0 ∷ 0 ∷ 0 ∷ 0 ∷ 0 ∷ 0 ∷ 2 ∷ [])))))

load_vox-IsSound_example :
    IsSound (load_vox tenth_floats (some file) new_scene).0
    × ((load_vox tenth_floats (some file) new_scene).1 ≡ false
        → (load_vox tenth_floats (some file) new_scene).0 ≡ new_scene)
load_vox-IsSound_example = load_vox-IsSound tenth_floats (some file) new_scene new_scene-IsSound

abbrev after_header : Walk tenth_floats
after_header = start_walk tenth_floats (record { bytes = file; pos = 20 }) new_scene

walk-can_read_example : can_read 12 (walk tenth_floats 30 after_header).reader ≡ false
walk-can_read_example = walk-can_read tenth_floats 30 after_header (omega arith)

abbrev two_voxels : List Voxel
two_voxels = record { x = 1; y = 2; z = 3; m = 0 } ∷ record { x = 1; y = 2; z = 3; m = 7 } ∷ []

read_xyzi-IsRead_example :
    IsRead two_voxels new_scene
      (read_xyzi
        (record { bytes = 2 ∷ 0 ∷ 0 ∷ 0 ∷ voxel_bytes two_voxels []; pos = 0 })
        new_scene).1
read_xyzi-IsRead_example =
    read_xyzi-IsRead two_voxels 2 0 0 0 []
      (record { bytes = 2 ∷ 0 ∷ 0 ∷ 0 ∷ voxel_bytes two_voxels []; pos = 0 }) new_scene
      no_chunks-IsValid refl refl
