-- ===== src/Import/Load.antt =====
-- engine/voxel/VoxImport.cpp: `ParseVox`, `LoadVoxFromMemory` and `LoadVox`. What reading the file
-- gave is an argument; the log is not modelled.
pub mod Safety
use voxhammer.Import.Chunks.{walk, Walk}
use voxhammer.Import.Reader.{u32, read_tag, Reader}
use voxhammer.Import.Scene.{fill_default_palette, VoxScene}
use voxhammer.Import.Material.{pack_alpha, Floats}
use voxhammer.Base.{
  true, ◌+◌, length, ltb, not, if◌then◌else◌, none, text_eq, some, false, replicate, Bool, ℕ,
  Option, List, Text, codes,
}

-- `readTag(tag) && matchTag(tag, expected)`
unfoldable pub is_tag : Option Text → Text → Bool
is_tag none expected = false
is_tag (some t) expected = text_eq t expected

-- The scene before the chunks are read.
unfoldable pub reset_scene : VoxScene → VoxScene
reset_scene out = record out {
  palette = fill_default_palette out.palette;
  size_x = 0;
  size_y = 0;
  size_z = 0;
  voxel_count = 0;
}

module _ (fl : Floats) where
  abbrev pub start_walk : Reader → VoxScene → Walk fl
  start_walk r out = record {
    reader = r;
    out = reset_scene out;
    emit = replicate 256 (fl.tenths 0);
  }

  -- From the walk over the chunks to the end of `ParseVox`. Each round takes 12 bytes at least.
  pub parse_chunks : Reader → VoxScene → VoxScene
  parse_chunks r out =
      let w = walk fl (length r.bytes + 1) (start_walk r out) in
      record w.out { palette = pack_alpha fl w.emit w.out.palette }

  -- `ParseVox`: the scene, and whether it was read.
  pub parse_vox : Reader → VoxScene → VoxScene × Bool
  unfolding parse_chunks
  parse_vox r out =
      let (r1, magic) = read_tag r in
      let (r2, version) = u32 r1 in
      let (r3, tag) = read_tag r2 in
      let (r4, self_bytes) = u32 r3 in
      let (r5, child_bytes) = u32 r4 in
      if not (is_tag magic (codes "VOX "))
      then (out, false)
      else if not (is_tag tag (codes "MAIN"))
      then (out, false)
      else (parse_chunks r5 out, true)

  -- `LoadVoxFromMemory`; a null pointer is no buffer.
  pub load_vox_from_memory : Option (List ℕ) → VoxScene → VoxScene × Bool
  unfolding parse_vox
  load_vox_from_memory none out = (out, false)
  load_vox_from_memory (some bytes) out =
      if ltb (length bytes) 12
      then (out, false)
      else parse_vox (record { bytes = bytes; pos = 0 }) out

  -- `LoadVox`, where the file gave its bytes, or could not be opened or read.
  pub load_vox : Option (List ℕ) → VoxScene → VoxScene × Bool
  unfolding load_vox_from_memory
  load_vox none out = (out, false)
  load_vox (some bytes) out = load_vox_from_memory (some bytes) out
