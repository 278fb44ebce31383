-- ===== src/Voxel/World/Bake/Grid.antt =====
-- engine/voxel/VoxelWorld.cpp, `BakeFlatGrid`: the whole grid against the chunk map.
use voxhammer.Voxel.World.Map.{IsAbsent, IsValid, HasUniqueKeys}
use voxhammer.Voxel.World.{ChunkMap, find_chunk, get_in, get_voxel}
use voxhammer.Voxel.Chunk.{chunk_get, Chunk}
use voxhammer.Voxel.Coords.{
  coord_eq_iff, chunk_local, world_to_chunk, coord_eq, local_mod, floor_div, ChunkCoord,
}
use voxhammer.Base.Int.{negsuc, ◌+ℤ◌, pos, ◌==ℤ◌, ℤ}
use voxhammer.Base.{
  get_or-replicate, length-replicate, replicate, get_or, none, sym, ap, [], ◌∷◌, ◌∙◌, length-set,
  get_or-set, inr, ==_iff, inl, ◌*◌, Bool-cases, Bool-eq, length, if◌then◌else◌, refl, set, ◌==◌,
  List, arith, false, true, ◌&&◌, ◌<◌, ◌≡◌, Bool, ℕ,
}
use voxhammer.Voxel.World.Bake.{
  flat_index, outside, chunk_base, bake_cell, bake_row, bake_slab, bake_chunk, bake_chunks,
  bake_flat_grid,
}
use voxhammer.Voxel.World.Bake.Cells.{
  flat_injective, flat_index-lt, over, read, Full, Puts, loop-Puts,
}

and_left_comm : (a b c : Bool) → a && (b && c) ≡ b && (a && c)
and_left_comm a b c = ground arith

and_last : (a b c : Bool) → a && (b && c) ≡ c && (b && a)
and_last a b c = ground arith

if_self : (b : Bool) (v : ℕ) → v ≡ (if b then v else v)
if_self b v = ground arith

and_three : (a b c : Bool) → (a && b && c) ≡ c && (a && b)
and_three a b c = ground arith

-- A coordinate that passes the range test is a number below `dim`.
inside : (w : ℤ) (dim : ℕ) → outside w dim ≡ false → (n : ℕ) × (w ≡ pos n) × (n < dim)
inside (pos n) dim h = (n, refl, ground arith)
inside (negsuc n) dim h = absurd (ground arith)

outside_ne : (w : ℤ) (dim x : ℕ) → x < dim → outside w dim ≡ true → (w ==ℤ pos x) ≡ false
outside_ne (pos n) dim x h o = ground arith
outside_ne (negsuc n) dim x h o = ground arith

over_zero : (v : ℕ) → over v 0 ≡ v
over_zero v = ground arith

find_chunk-absent : (m : ChunkMap) (k : ChunkCoord) → IsAbsent k m → find_chunk m k ≡ none
unfolding find_chunk
find_chunk-absent [] k h = refl
find_chunk-absent ((j, c) ∷ m) k (h, hs) = rw h (find_chunk-absent m k hs)

get_in_none :
    (m : ChunkMap) (k key : ChunkCoord) (l : ℕ × ℕ × ℕ)
    → IsAbsent k m
    → coord_eq k key ≡ true
    → get_in (find_chunk m key) l ≡ 0
unfolding get_in
get_in_none m k key l absent h =
    ap (λ j. get_in (find_chunk m j) l) (sym ((coord_eq_iff k key).0 h))
    ∙ ap (λ o. get_in o l) (find_chunk-absent m k absent)

module _ (dim x y z : ℕ) (hx : x < dim) (hy : y < dim) (hz : z < dim) where
  same_index :
      (wx wy wz : ℕ)
      → wx < dim
      → wy < dim
      → wz < dim
      → (flat_index dim wz wy wx == flat_index dim z y x)
        ≡ (pos wx ==ℤ pos x && (pos wy ==ℤ pos y && pos wz ==ℤ pos z))
  same_index wx wy wz bx by bz =
      Bool-eq
        (λ e.
          let (ez, ey, ex) = flat_injective dim wz wy wx z y x bx by hx hy ((==_iff _ _).0 e) in
          ground arith)
        (λ e.
          let ex : wx ≡ x = ground arith in
          let ey : wy ≡ y = ground arith in
          let ez : wz ≡ z = ground arith in rw (ex, ey, ez) (ground arith))

  -- One write.
  put_cell :
      (wx wy wz m : ℕ) (g : List ℕ)
      → wx < dim
      → wy < dim
      → wz < dim
      → length g ≡ dim * dim * dim
      → (m == 0) ≡ false
      → read dim x y z hx hy hz (set g (flat_index dim wz wy wx) m) ≡ (
          if pos wx ==ℤ pos x && (pos wy ==ℤ pos y && pos wz ==ℤ pos z)
          then m
          else read dim x y z hx hy hz g)
  unfolding read
  put_cell wx wy wz m g bx by bz full n = rw (← same_index wx wy wz bx by bz) (
      get_or-set g (flat_index dim wz wy wx) (flat_index dim z y x) m 0
        (omega (arith, flat_index-lt dim wz wy wx bz by bx)))

  module _ (k : ChunkCoord) (c : Chunk) where
    cell-Puts :
        (lz ly lx : ℕ)
        → outside (chunk_base k.y +ℤ pos ly) dim ≡ false
        → outside (chunk_base k.z +ℤ pos lz) dim ≡ false
        → Puts dim x y z hx hy hz
            (chunk_base k.x +ℤ pos lx ==ℤ pos x
              && (chunk_base k.y +ℤ pos ly ==ℤ pos y && chunk_base k.z +ℤ pos lz ==ℤ pos z))
            (chunk_get c (lx, ly, lz))
            (bake_cell k c dim lz ly lx)
    unfolding bake_cell
    cell-Puts lz ly lx oy oz g full =
        let wx = chunk_base k.x +ℤ pos lx in
        let m = chunk_get c (lx, ly, lz) in
        let (ny, ey, by) = inside (chunk_base k.y +ℤ pos ly) dim oy in
        let (nz, ez, bz) = inside (chunk_base k.z +ℤ pos lz) dim oz in
        elim (Bool-cases (outside wx dim)) [
          | inl o ↦ rw (o, outside_ne wx dim x hx o) (full, refl)
          | inr o ↦
              let (nx, ex, bx) = inside wx dim o in
              elim (Bool-cases (m == 0)) [
                | inl e ↦ rw (o, e) (full, if_self _ _)
                | inr e ↦
                    rw (o, e)
                      (rw (ey, ez, ex)
                        (
                          length-set g (flat_index dim nz ny nx) m ∙ full,
                          put_cell nx ny nz m g bx by bz full e,
                        ))
              ]
        ]

    row-Puts :
        (lz ly : ℕ)
        → outside (chunk_base k.z +ℤ pos lz) dim ≡ false
        → Puts dim x y z hx hy hz
            (chunk_base k.y +ℤ pos ly ==ℤ pos y
              && (k.x ==ℤ floor_div (pos x) (pos 32) && chunk_base k.z +ℤ pos lz ==ℤ pos z))
            (chunk_get c (local_mod (pos x) (pos 32), ly, lz))
            (bake_row k c dim lz ly)
    unfolding bake_row
    row-Puts lz ly oz g full =
        let wy = chunk_base k.y +ℤ pos ly in
        let ty = wy ==ℤ pos y in
        let tz = chunk_base k.z +ℤ pos lz ==ℤ pos z in
        elim (Bool-cases (outside wy dim)) [
          | inl o ↦ rw (o, outside_ne wy dim y hy o) (full, refl)
          | inr o ↦
              rw (o, and_left_comm ty (k.x ==ℤ floor_div (pos x) (pos 32)) tz)
                (loop-Puts dim x y z hx hy hz k.x x (ty && tz) (λ lx. chunk_get c (lx, ly, lz))
                  (bake_cell k c dim lz ly) (λ lx b. cell-Puts lz ly lx o oz) g full)
        ]

    slab-Puts :
        (lz : ℕ)
        → Puts dim x y z hx hy hz
            (chunk_base k.z +ℤ pos lz ==ℤ pos z
              && (k.x ==ℤ floor_div (pos x) (pos 32) && k.y ==ℤ floor_div (pos y) (pos 32)))
            (chunk_get c (local_mod (pos x) (pos 32), local_mod (pos y) (pos 32), lz))
            (bake_slab k c dim lz)
    unfolding bake_slab
    slab-Puts lz g full =
        let wz = chunk_base k.z +ℤ pos lz in
        let tz = wz ==ℤ pos z in
        let tx = k.x ==ℤ floor_div (pos x) (pos 32) in
        elim (Bool-cases (outside wz dim)) [
          | inl o ↦ rw (o, outside_ne wz dim z hz o) (full, refl)
          | inr o ↦
              rw (o, and_last tz tx (k.y ==ℤ floor_div (pos y) (pos 32)))
                (loop-Puts dim x y z hx hy hz k.y y (tx && tz)
                  (λ ly. chunk_get c (local_mod (pos x) (pos 32), ly, lz)) (bake_row k c dim lz)
                  (λ ly b. row-Puts lz ly o) g full)
        ]

    chunk-Puts :
        Puts dim x y z hx hy hz
          (coord_eq k (world_to_chunk (pos x) (pos y) (pos z)))
          (chunk_get c (chunk_local (pos x) (pos y) (pos z)))
          (bake_chunk k c dim)
    unfolding bake_chunk coord_eq world_to_chunk chunk_local
    chunk-Puts g full =
        let tx = k.x ==ℤ floor_div (pos x) (pos 32) in
        let ty = k.y ==ℤ floor_div (pos y) (pos 32) in
        let tz = k.z ==ℤ floor_div (pos z) (pos 32) in
        rw (and_three tx ty tz) (
          loop-Puts dim x y z hx hy hz k.z z (tx && ty)
            (λ lz. chunk_get c (local_mod (pos x) (pos 32), local_mod (pos y) (pos 32), lz))
            (bake_slab k c dim) (λ lz b. slab-Puts lz) g full)

  chunks-read :
      (m : ChunkMap) (g : List ℕ)
      → HasUniqueKeys m
      → Full dim x y z hx hy hz g
      → Full dim x y z hx hy hz (bake_chunks dim m g)
        × (read dim x y z hx hy hz (bake_chunks dim m g)
            ≡ over (get_voxel m (pos x) (pos y) (pos z)) (read dim x y z hx hy hz g))
  unfolding bake_chunks get_voxel get_in find_chunk
  chunks-read [] g u full = (full, refl)
  chunks-read ((k, c) ∷ m) g (absent, u) full =
      let key = world_to_chunk (pos x) (pos y) (pos z) in
      let l = chunk_local (pos x) (pos y) (pos z) in
      let (p, r) = chunk-Puts k c g full in
      let (q, e) = chunks-read m (bake_chunk k c dim g) u p in
      (
        q,
        elim (Bool-cases (coord_eq k key)) [
          | inl h ↦
              e
              ∙ rw (r, h)
                  (ap (λ v. over v (over (chunk_get c l) (read dim x y z hx hy hz g)))
                    (get_in_none m k key l absent h))
          | inr h ↦ e ∙ rw (r, h) refl
        ],
      )

-- The baked grid of a well-formed map has dim ^ 3 cells, and the cell z * dim * dim + y * dim + x
-- holds the material of the voxel (x, y, z), for every voxel of the grid.
pub bake_flat_grid-get_voxel :
    (m : ChunkMap) (dim x y z : ℕ)
    → IsValid m
    → x < dim
    → y < dim
    → z < dim
    → (length (bake_flat_grid m dim) ≡ dim * dim * dim)
      × (get_or (bake_flat_grid m dim) (flat_index dim z y x) 0
          ≡ get_voxel m (pos x) (pos y) (pos z))
unfolding bake_flat_grid read
bake_flat_grid-get_voxel m dim x y z v hx hy hz =
    let (p, r) =
      chunks-read dim x y z hx hy hz m (replicate (dim * dim * dim) 0) v.unique
        (length-replicate {A = ℕ} (dim * dim * dim) 0) in
    (p, r ∙ rw (get_or-replicate {A = ℕ} (dim * dim * dim) (flat_index dim z y x) 0) (over_zero _))
