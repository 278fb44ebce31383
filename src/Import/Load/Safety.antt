-- ===== src/Import/Load/Safety.antt =====
-- engine/voxel/VoxImport.cpp: what holds of the scene after any bytes.
use voxhammer.Base.Loops.{loop_inv}
use voxhammer.Import.Load.{
  load_vox_from_memory, load_vox, parse_vox, reset_scene, start_walk, parse_chunks,
}
use voxhammer.Import.Material.{pack_alpha, Floats}
use voxhammer.Base.Int.{pos}
use voxhammer.Voxel.World.Access.{set_voxel-IsValid}
use voxhammer.Import.Reader.{read_tag, u32, can_read, Reader}
use voxhammer.Import.Scene.{fill_default_palette, VoxScene}
use voxhammer.Import.Chunks.{
  Walk, walk_from, read_chunk, skip_unread, walk, walk_tag, read_xyzi, put_voxel, read_colors,
  read_rgba, read_size, read_voxels,
}
use voxhammer.Voxel.World.Map
use voxhammer.Base.{
  none, some, false, Option, codes, set, Option-cases, arith, text_eq, Text, refl, length-set, ltb,
  ◌==◌, if◌then◌else◌, zero, ◌+◌, inr, inl, Bool-cases, suc, ℕ, ◌∙◌, ◌≡◌, length, List,
}

-- The world is well formed, and the palette has its 256 entries.
pub record IsSound (s : VoxScene) : Type 0 where
  pub world_valid : Map.IsValid s.world
  pub sized : length s.palette ≡ 256

read_size-IsSound : (r : Reader) (s : VoxScene) → IsSound s → IsSound (read_size r s).1
unfolding read_size
read_size-IsSound r s v = record { world_valid = v.world_valid; sized = v.sized }

put_voxel-IsSound : (x y z m : ℕ) (s : VoxScene) → IsSound s → IsSound (put_voxel x y z m s)
unfolding put_voxel
put_voxel-IsSound x y z m s v = record {
  world_valid =
      set_voxel-IsValid s.world (pos x) (pos z) (pos y) (if m == 0 then 1 else m) v.world_valid;
  sized = v.sized;
}

read_voxels-IsSound :
    (n : ℕ) (r : Reader) (s : VoxScene) → IsSound s → IsSound (read_voxels n r s).1
unfolding read_voxels
read_voxels-IsSound zero r s v = v
read_voxels-IsSound (suc n) r s v = elim (Bool-cases (can_read 4 r)) [
  | inl e ↦ rw (e, read_voxels) (read_voxels-IsSound n _ _ (put_voxel-IsSound _ _ _ _ s v))
  | inr e ↦ rw (e, read_voxels) v
]

length-read_colors :
    (n i : ℕ) (r : Reader) (pal : List ℕ) → length (read_colors n i r pal).1 ≡ length pal
unfolding read_colors
length-read_colors zero i r pal = refl
length-read_colors (suc n) i r pal = elim (Bool-cases (can_read 4 r)) [
  | inl e ↦
      rw (e, read_colors)
        (length-read_colors n (i + 1) _ _ ∙ (elim (Bool-cases (ltb i 255)) [
          | inl h ↦ rw h (length-set pal (i + 1) (u32 r).1)
          | inr h ↦ rw h refl
        ]))
  | inr e ↦ rw (e, read_colors) refl
]

read_rgba-IsSound : (r : Reader) (s : VoxScene) → IsSound s → IsSound (read_rgba r s).1
unfolding read_rgba
read_rgba-IsSound r s v = record {
  world_valid = v.world_valid;
  sized = length-read_colors 256 0 r s.palette ∙ v.sized;
}

read_xyzi-IsSound : (r : Reader) (s : VoxScene) → IsSound s → IsSound (read_xyzi r s).1
unfolding read_xyzi
read_xyzi-IsSound r s v = read_voxels-IsSound (u32 r).1 (u32 r).0 s v

module _ (fl : Floats) where
  read_chunk-IsSound :
      (tag : Text) (self_end : ℕ) (r : Reader) (s : VoxScene) (emit : List fl.F)
      → IsSound s
      → IsSound (read_chunk fl tag self_end r s emit).out
  unfolding read_chunk
  read_chunk-IsSound tag self_end r s emit v = elim (Bool-cases (text_eq tag (codes "SIZE"))) [
    | inl e ↦ rw (e, read_chunk) (read_size-IsSound r s v)
    | inr e ↦ elim (Bool-cases (text_eq tag (codes "XYZI"))) [
      | inl f ↦ rw (e, f, read_chunk) (read_xyzi-IsSound r s v)
      | inr f ↦ elim (Bool-cases (text_eq tag (codes "RGBA"))) [
        | inl g ↦ rw (e, f, g, read_chunk) (read_rgba-IsSound r s v)
        | inr g ↦ elim (Bool-cases (text_eq tag (codes "MATL"))) [
          | inl h ↦ rw (e, f, g, h, read_chunk) v
          | inr h ↦ rw (e, f, g, h, read_chunk) v
        ]
      ]
    ]
  ]

  skip_unread-out : (self_end : ℕ) (w : Walk fl) → (skip_unread fl self_end w).out ≡ w.out
  unfolding skip_unread
  skip_unread-out self_end w = ground arith

  walk_tag-IsSound :
      (w : Walk fl) (r : Reader) (tag : Text) → IsSound w.out → IsSound (walk_tag fl w r tag).out
  unfolding walk_tag
  walk_tag-IsSound w r tag v = rw (skip_unread-out _ _) (read_chunk-IsSound tag _ _ w.out w.emit v)

  walk_from-IsSound :
      (go : Walk fl → Walk fl) (w : Walk fl)
      → ((u : Walk fl) → IsSound u.out → IsSound (go u).out)
      → IsSound w.out
      → IsSound (walk_from fl go w).out
  unfolding walk_from
  walk_from-IsSound go w keep v = elim (Bool-cases (can_read 12 w.reader)) [
    | inr e ↦ rw (e, walk_from) v
    | inl e ↦ elim (Option-cases (read_tag w.reader).1) [
      | inl f ↦ rw (e, f, walk_from) v
      | inr (tag, f) ↦
          rw (e, f, walk_from) (keep _ (walk_tag-IsSound w (read_tag w.reader).0 tag v))
    ]
  ]

  walk-IsSound : (fuel : ℕ) (w : Walk fl) → IsSound w.out → IsSound (walk fl fuel w).out
  unfolding walk
  walk-IsSound zero w v = v
  walk-IsSound (suc fuel) w v = walk_from-IsSound (walk fl fuel) w (walk-IsSound fuel) v

  length-pack_alpha :
      (emit : List fl.F) (pal : List ℕ) → length (pack_alpha fl emit pal) ≡ length pal
  unfolding pack_alpha
  length-pack_alpha emit pal =
      loop_inv (λ p. length p ≡ length pal) 256 _ pal (λ i t h k. length-set t i _ ∙ k) refl

  reset_scene-IsSound : (s : VoxScene) → IsSound s → IsSound (reset_scene s)
  unfolding reset_scene fill_default_palette
  reset_scene-IsSound s v = record {
    world_valid = v.world_valid;
    sized =
        loop_inv (λ p. length p ≡ length (set s.palette 0 0)) 255 _ (set s.palette 0 0)
          (λ i t h k. length-set t (i + 1) _ ∙ k) refl
        ∙ length-set s.palette 0 0
        ∙ v.sized;
  }

  parse_chunks-IsSound : (r : Reader) (s : VoxScene) → IsSound s → IsSound (parse_chunks fl r s)
  unfolding parse_chunks
  parse_chunks-IsSound r s v =
      let w = walk-IsSound (length r.bytes + 1) (start_walk fl r s) (reset_scene-IsSound s v) in
      record { world_valid = w.world_valid; sized = length-pack_alpha _ _ ∙ w.sized }

  parse_vox-IsSound : (r : Reader) (s : VoxScene) → IsSound s → IsSound (parse_vox fl r s).0
  unfolding parse_vox
  parse_vox-IsSound r s v =
      ground (arith, parse_chunks-IsSound (u32 (u32 (read_tag (u32 (read_tag r).0).0).0).0).0 s v)

  parse_vox_refused :
      (r : Reader) (s : VoxScene) → (parse_vox fl r s).1 ≡ false → (parse_vox fl r s).0 ≡ s
  unfolding parse_vox
  parse_vox_refused r s e = ground arith

  -- Whatever the bytes are, also where the file is refused: a well-formed world stays well formed,
  -- and the palette keeps its 256 entries. A file that is refused leaves the scene as it was.
  pub load_vox-IsSound :
      (contents : Option (List ℕ)) (s : VoxScene)
      → IsSound s
      → IsSound (load_vox fl contents s).0
        × ((load_vox fl contents s).1 ≡ false → (load_vox fl contents s).0 ≡ s)
  unfolding load_vox load_vox_from_memory
  load_vox-IsSound none s v = (v, λ e. refl)
  load_vox-IsSound (some bytes) s v = elim (Bool-cases (ltb (length bytes) 12)) [
    | inl e ↦ rw e (v, λ e. refl)
    | inr e ↦
        rw e (parse_vox-IsSound (record { bytes = bytes; pos = 0 }) s v, parse_vox_refused _ s)
  ]
