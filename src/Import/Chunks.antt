-- ===== src/Import/Chunks.antt =====
-- engine/voxel/VoxImport.cpp: the chunks of a file, and the walk over them.
pub mod Progress
pub mod Voxels
use voxhammer.Base.Int.{pos}
use voxhammer.Voxel.World.{set_voxel}
use voxhammer.Import.Reader.{read_tag, u8, skip, can_read, u32, Reader}
use voxhammer.Import.Scene.{VoxScene}
use voxhammer.Import.Material.{read_matl, Floats}
use voxhammer.Base.{
  some, none, true, set, false, ◌-◌, ◌==◌, ltb, text_eq, if◌then◌else◌, zero, ◌+◌, suc, ℕ, List,
  Text, codes,
}

-- The SIZE branch.
unfoldable pub read_size : Reader → VoxScene → Reader × VoxScene
read_size r out =
    let (r1, x) = u32 r in
    let (r2, y) = u32 r1 in
    let (r3, z) = u32 r2 in (r3, record out { size_x = x; size_y = y; size_z = z })

-- `if (m == 0) m = 1;`, and the swap of Y and Z.
unfoldable pub put_voxel : ℕ → ℕ → ℕ → ℕ → VoxScene → VoxScene
put_voxel x y z m out = record out {
  world = set_voxel out.world (pos x) (pos z) (pos y) (if m == 0 then 1 else m);
  voxel_count = out.voxel_count + 1;
}

unfoldable pub read_voxels : ℕ → Reader → VoxScene → Reader × VoxScene
read_voxels zero r out = (r, out)
read_voxels (suc n) r out = elim (can_read 4 r) [
  | false ↦ (r, out)
  | true ↦
      let (r1, x) = u8 r in
      let (r2, y) = u8 r1 in
      let (r3, z) = u8 r2 in let (r4, m) = u8 r3 in read_voxels n r4 (put_voxel x y z m out)
]

-- The XYZI branch.
unfoldable pub read_xyzi : Reader → VoxScene → Reader × VoxScene
read_xyzi r out = let (r', n) = u32 r in read_voxels n r' out

-- The loop of the RGBA branch from index `i`.
unfoldable pub read_colors : ℕ → ℕ → Reader → List ℕ → Reader × List ℕ
read_colors zero i r pal = (r, pal)
read_colors (suc n) i r pal = elim (can_read 4 r) [
  | false ↦ (r, pal)
  | true ↦
      let (r', rgba) = u32 r in
      read_colors n (i + 1) r' (if ltb i 255 then set pal (i + 1) rgba else pal)
]

unfoldable pub read_rgba : Reader → VoxScene → Reader × VoxScene
read_rgba r out =
    let (r', pal) = read_colors 256 0 r out.palette in (r', record out { palette = pal })

module _ (fl : Floats) where
  open fl use {F}

  pub record Walk : Type 0 where
    pub reader : Reader
    pub out : VoxScene
    pub emit : List F

  -- The branch on the tag.
  unfoldable pub read_chunk : Text → ℕ → Reader → VoxScene → List F → Walk
  read_chunk tag self_end r out emit =
      if text_eq tag (codes "SIZE")
      then (let (r', out') = read_size r out in record { reader = r'; out = out'; emit = emit })
      else if text_eq tag (codes "XYZI")
      then (let (r', out') = read_xyzi r out in record { reader = r'; out = out'; emit = emit })
      else if text_eq tag (codes "RGBA")
      then (let (r', out') = read_rgba r out in record { reader = r'; out = out'; emit = emit })
      else if text_eq tag (codes "MATL")
      then (let (r', emit') = read_matl fl self_end r emit in
          record { reader = r'; out = out; emit = emit' })
      else record { reader = r; out = out; emit = emit }

  -- `if (r.pos < selfEnd) r.skip(selfEnd - r.pos);`
  unfoldable pub skip_unread : ℕ → Walk → Walk
  skip_unread self_end w =
      if ltb w.reader.pos self_end
      then record w { reader = skip (self_end - w.reader.pos) w.reader }
      else w

  -- One round, once the tag has been read.
  unfoldable pub walk_tag : Walk → Reader → Text → Walk
  unfolding read_chunk skip_unread
  walk_tag w r tag =
      let (r1, self_bytes) = u32 r in
      let (r2, child_bytes) = u32 r1 in
      let self_end = r2.pos + self_bytes in
      skip_unread self_end (read_chunk tag self_end r2 w.out w.emit)

  -- One round, with the loop to go on with.
  unfoldable pub walk_from : (Walk → Walk) → Walk → Walk
  walk_from go w = elim (can_read 12 w.reader) [
    | false ↦ w
    | true ↦
        let (r, tag) = read_tag w.reader in
        elim tag [ none ↦ record w { reader = r } | some t ↦ go (walk_tag w r t) ]
  ]

  -- The `while` loop, on fuel.
  unfoldable pub walk : ℕ → Walk → Walk
  walk zero w = w
  walk (suc fuel) w = walk_from (walk fuel) w
