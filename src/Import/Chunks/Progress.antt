-- ===== src/Import/Chunks/Progress.antt =====
-- engine/voxel/VoxImport.cpp: the position of the readers, and the end of the walk over the chunks.
use voxhammer.Import.Reader.{can_read, read_tag, skip, u32, u8, Reader}
use voxhammer.Import.Scene.{VoxScene}
use voxhammer.Import.Material.{read_chars, read_matl, read_pairs, read_str, Floats, Matl}
use voxhammer.Import.Chunks.{
  walk_from, read_chunk, read_colors, read_rgba, read_size, read_voxels, read_xyzi, skip_unread,
  walk, walk_tag, Walk,
}
use voxhammer.Base.{
  ap, none, Option-cases, ◌≢◌, refl, false, ltb, text_eq, true, zero, inl, inr, Bool-cases, ◌+◌,
  ◌<◌, suc, arith, length, ℕ, ◌∙◌, ◌≡◌, ◌≤◌, List, Text, codes,
}

-- The position is in the buffer, or where a failed read puts it.
abbrev pub InBuffer : Reader → Type 0
InBuffer r = r.pos ≤ length r.bytes + 1

-- The same buffer, no position before the one it had, and still in the buffer.
abbrev pub Onward : Reader → Reader → Type 0
Onward r r' = (r'.bytes ≡ r.bytes) × (r.pos ≤ r'.pos) × InBuffer r'

Onward-trans : (r r' r'' : Reader) → Onward r r' → Onward r' r'' → Onward r r''
Onward-trans r r' r'' (a, b, c) (d, e, f) = (d ∙ a, omega (arith, b, e), f)

u8-Onward : (r : Reader) → InBuffer r → Onward r (u8 r).0
unfolding u8
u8-Onward r h = ground arith

u32-Onward : (r : Reader) → InBuffer r → Onward r (u32 r).0
unfolding u32
u32-Onward r h = ground arith

read_chars-Onward : (n : ℕ) (r : Reader) → InBuffer r → Onward r (read_chars n r).0
unfolding read_chars
read_chars-Onward zero r h = (refl, omega arith, h)
read_chars-Onward (suc n) r h = elim (Bool-cases (can_read 1 r)) [
  | inr e ↦ rw (e, read_chars) (refl, omega arith, h)
  | inl e ↦
      let (a, b, c) = u8-Onward r h in
      rw (e, read_chars) (Onward-trans r (u8 r).0 _ (a, b, c) (read_chars-Onward n (u8 r).0 c))
]

read_str-Onward : (r : Reader) → InBuffer r → Onward r (read_str r).0
unfolding read_str
read_str-Onward r h =
    let (a, b, c) = u32-Onward r h in
    Onward-trans r (u32 r).0 _ (a, b, c) (read_chars-Onward (u32 r).1 (u32 r).0 c)

read_voxels-Onward :
    (n : ℕ) (r : Reader) (s : VoxScene) → InBuffer r → Onward r (read_voxels n r s).0
unfolding read_voxels
read_voxels-Onward zero r s h = (refl, omega arith, h)
read_voxels-Onward (suc n) r s h = elim (Bool-cases (can_read 4 r)) [
  | inr e ↦ rw (e, read_voxels) (refl, omega arith, h)
  | inl e ↦
      let r1 = (u8 r).0 in
      let r2 = (u8 r1).0 in
      let r3 = (u8 r2).0 in
      let r4 = (u8 r3).0 in
      let p1 = u8-Onward r h in
      let p2 = u8-Onward r1 p1.2 in
      let p3 = u8-Onward r2 p2.2 in
      let p4 = u8-Onward r3 p3.2 in
      let q = Onward-trans r r3 r4 (Onward-trans r r2 r3 (Onward-trans r r1 r2 p1 p2) p3) p4 in
      rw (e, read_voxels) (Onward-trans r r4 _ q (read_voxels-Onward n r4 _ p4.2))
]

read_colors-Onward :
    (n i : ℕ) (r : Reader) (pal : List ℕ) → InBuffer r → Onward r (read_colors n i r pal).0
unfolding read_colors
read_colors-Onward zero i r pal h = (refl, omega arith, h)
read_colors-Onward (suc n) i r pal h = elim (Bool-cases (can_read 4 r)) [
  | inr e ↦ rw (e, read_colors) (refl, omega arith, h)
  | inl e ↦
      let p = u32-Onward r h in
      rw (e, read_colors)
        (Onward-trans r (u32 r).0 _ p (read_colors-Onward n (i + 1) (u32 r).0 _ p.2))
]

read_size-Onward : (r : Reader) (s : VoxScene) → InBuffer r → Onward r (read_size r s).0
unfolding read_size
read_size-Onward r s h =
    let r1 = (u32 r).0 in
    let r2 = (u32 r1).0 in
    let p1 = u32-Onward r h in
    let p2 = u32-Onward r1 p1.2 in
    Onward-trans r r2 _ (Onward-trans r r1 r2 p1 p2) (u32-Onward r2 p2.2)

read_xyzi-Onward : (r : Reader) (s : VoxScene) → InBuffer r → Onward r (read_xyzi r s).0
unfolding read_xyzi
read_xyzi-Onward r s h =
    let p = u32-Onward r h in
    Onward-trans r (u32 r).0 _ p (read_voxels-Onward (u32 r).1 (u32 r).0 s p.2)

read_rgba-Onward : (r : Reader) (s : VoxScene) → InBuffer r → Onward r (read_rgba r s).0
unfolding read_rgba
read_rgba-Onward r s h = read_colors-Onward 256 0 r s.palette h

-- The reader after a tag and the two sizes.
abbrev after_header : Reader → Reader
after_header r = (u32 (u32 (read_tag r).0).0).0

header_on :
    (r : Reader)
    → can_read 12 r ≡ true
    → ((after_header r).bytes ≡ r.bytes)
      × ((after_header r).pos ≡ r.pos + 12)
      × InBuffer (after_header r)
unfolding read_tag u32
header_on r h = ground arith

read_tag-some : (r : Reader) → can_read 12 r ≡ true → (read_tag r).1 ≢ none
unfolding read_tag
read_tag-some r h e = ground arith

module _ (fl : Floats) where
  read_pairs-Onward :
      (n self_end : ℕ) (r : Reader) (m : Matl fl)
      → InBuffer r
      → Onward r (read_pairs fl n self_end r m).0
  unfolding read_pairs
  read_pairs-Onward zero self_end r m h = (refl, omega arith, h)
  read_pairs-Onward (suc n) self_end r m h = elim (Bool-cases (ltb r.pos self_end)) [
    | inr e ↦ rw (e, read_pairs) (refl, omega arith, h)
    | inl e ↦
        let r1 = (read_str r).0 in
        let r2 = (read_str r1).0 in
        let p1 = read_str-Onward r h in
        let p2 = read_str-Onward r1 p1.2 in
        rw (e, read_pairs)
          (Onward-trans r r2 _ (Onward-trans r r1 r2 p1 p2)
            (read_pairs-Onward n self_end r2 _ p2.2))
  ]

  read_matl-Onward :
      (self_end : ℕ) (r : Reader) (emit : List fl.F)
      → InBuffer r
      → Onward r (read_matl fl self_end r emit).0
  unfolding read_matl
  read_matl-Onward self_end r emit h =
      let r1 = (u32 r).0 in
      let r2 = (u32 r1).0 in
      let p1 = u32-Onward r h in
      let p2 = u32-Onward r1 p1.2 in
      Onward-trans r r2 _ (Onward-trans r r1 r2 p1 p2)
        (read_pairs-Onward (u32 r1).1 self_end r2 _ p2.2)

  read_chunk-Onward :
      (tag : Text) (self_end : ℕ) (r : Reader) (s : VoxScene) (emit : List fl.F)
      → InBuffer r
      → Onward r (read_chunk fl tag self_end r s emit).reader
  unfolding read_chunk
  read_chunk-Onward tag self_end r s emit v = elim (Bool-cases (text_eq tag (codes "SIZE"))) [
    | inl e ↦ rw (e, read_chunk) (read_size-Onward r s v)
    | inr e ↦ elim (Bool-cases (text_eq tag (codes "XYZI"))) [
      | inl f ↦ rw (e, f, read_chunk) (read_xyzi-Onward r s v)
      | inr f ↦ elim (Bool-cases (text_eq tag (codes "RGBA"))) [
        | inl g ↦ rw (e, f, g, read_chunk) (read_rgba-Onward r s v)
        | inr g ↦ elim (Bool-cases (text_eq tag (codes "MATL"))) [
          | inl h ↦ rw (e, f, g, h, read_chunk) (read_matl-Onward self_end r emit v)
          | inr h ↦ rw (e, f, g, h, read_chunk) (refl, omega arith, v)
        ]
      ]
    ]
  ]

  skip_unread-on :
      (self_end : ℕ) (w : Walk fl)
      → ((skip_unread fl self_end w).reader.bytes ≡ w.reader.bytes)
        × (w.reader.pos ≤ (skip_unread fl self_end w).reader.pos)
  unfolding skip_unread skip
  skip_unread-on self_end w = ground arith

  -- A round that reads a tag moves on by 12 bytes at least.
  walk_tag-on :
      (w : Walk fl) (tag : Text)
      → can_read 12 w.reader ≡ true
      → ((walk_tag fl w (read_tag w.reader).0 tag).reader.bytes ≡ w.reader.bytes)
        × (w.reader.pos + 12 ≤ (walk_tag fl w (read_tag w.reader).0 tag).reader.pos)
  unfolding walk_tag
  walk_tag-on w tag h =
      let (a, b, c) = header_on w.reader h in
      let r2 = after_header w.reader in
      let self_end = r2.pos + (u32 (read_tag w.reader).0).1 in
      let (d, e, f) = read_chunk-Onward tag self_end r2 w.out w.emit c in
      let (x, y) = skip_unread-on self_end (read_chunk fl tag self_end r2 w.out w.emit) in
      (x ∙ d ∙ a, omega (arith, b, e, y))

  walk_from-ends :
      (go : Walk fl → Walk fl) (n : ℕ) (w : Walk fl)
      → ((u : Walk fl)
          → length u.reader.bytes < u.reader.pos + n
          → can_read 12 (go u).reader ≡ false)
      → length w.reader.bytes < w.reader.pos + suc n
      → can_read 12 (walk_from fl go w).reader ≡ false
  unfolding walk_from
  walk_from-ends go n w ends h = elim (Bool-cases (can_read 12 w.reader)) [
    | inr e ↦ rw (e, walk_from) e
    | inl e ↦ elim (Option-cases (read_tag w.reader).1) [
      | inl f ↦ absurd (read_tag-some w.reader e f)
      | inr (tag, f) ↦
          let (same, further) = walk_tag-on w tag e in
          rw (e, f, walk_from) (ends _ (omega (arith, further, ap length same)))
    ]
  ]

  -- With more fuel than there are bytes left, the walk over the chunks ends by its own test: fewer
  -- than 12 bytes are left where it stops, whatever the chunks hold.
  pub walk-can_read :
      (fuel : ℕ) (w : Walk fl)
      → length w.reader.bytes < w.reader.pos + fuel
      → can_read 12 (walk fl fuel w).reader ≡ false
  unfolding walk
  walk-can_read zero w h = ground arith
  walk-can_read (suc fuel) w h = walk_from-ends (walk fl fuel) fuel w (walk-can_read fuel) h
