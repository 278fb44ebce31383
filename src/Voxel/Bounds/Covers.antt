-- ===== src/Voxel/Bounds/Covers.antt =====
-- engine/voxel/VoxelWorld.cpp, `Bounds`: the bounds against the voxels.
use voxhammer.Voxel.World.Access.{get_voxel-absent}
use voxhammer.Base.{
  true, All, refl, ◌+◌, Option-cases, ◌≢◌, inr, inl, Bool-cases, some, ◌≡◌, [], arith, ◌∷◌,
}
use mathlib.Core.Path.{subst}
use voxhammer.Base.Int.{
  negsuc, ◌-ℤ◌, max_ℤ, ltb_ℤ, -ℤ_parts, neg_part, +ℤ_parts, pos_part, ◌==ℤ◌, pos, ◌+ℤ◌, ℤ, ◌*ℤ◌,
  ◌≤ℤ◌,
}
use voxhammer.Voxel.Bounds.{
  int_min, wrap_int, no_bounds, int_max, bounds, finish, chunk_hi, chunk_lo, widen, widen_all,
  Bounds,
}
use voxhammer.Voxel.Coords.{
  chunk_size, local_mod-lt, floor_div-local_mod, local_mod, floor_div, world_to_chunk, coord_eq_iff,
  coord_eq, ChunkCoord,
}
use voxhammer.Voxel.World.{get_voxel, find_chunk, ChunkMap}
use voxhammer.Voxel.Chunk.{Chunk}

-- The least and the greatest coordinate of a chunk.
abbrev low : ℤ → ℤ
low c = c *ℤ pos chunk_size

abbrev high : ℤ → ℤ
high c = c *ℤ pos chunk_size +ℤ pos chunk_size -ℤ pos 1

-- The chunk is inside the bounds, whose upper corner is inclusive.
abbrev Holds : Bounds → ChunkCoord → Type 0
Holds b k =
    (b.xmin ≤ℤ low k.x)
    × (high k.x ≤ℤ b.xmax)
    × (b.ymin ≤ℤ low k.y)
    × (high k.y ≤ℤ b.ymax)
    × (b.zmin ≤ℤ low k.z)
    × (high k.z ≤ℤ b.zmax)

-- The coordinates of the chunk on an axis and their exclusive end are in the range of `int`.
abbrev pub Fits : ℤ → Type 0
Fits c = (int_min ≤ℤ low c) × (low c +ℤ pos chunk_size ≤ℤ int_max)

abbrev pub IsInRange : ChunkMap → Type 0
IsInRange = All (λ e. Fits e.0.x × Fits e.0.y × Fits e.0.z)

wrap_int-same : (v : ℤ) → int_min ≤ℤ v → v ≤ℤ int_max → wrap_int v ≡ v
unfolding wrap_int
wrap_int-same (pos n) a b = ground arith
wrap_int-same (negsuc n) a b = ground arith

chunk_lo-low : (c : ℤ) → Fits c → chunk_lo c ≡ low c
unfolding chunk_lo
chunk_lo-low c (a, b) = wrap_int-same (low c) a (omega (arith, b, +ℤ_parts (low c) (pos 32)))

chunk_hi-high : (c : ℤ) → Fits c → chunk_hi c ≡ high c
unfolding chunk_hi
chunk_hi-high c (a, b) =
    let up = low c +ℤ pos 32 in
    rw (chunk_lo-low c (a, b), wrap_int-same up (omega (arith, a, +ℤ_parts (low c) (pos 32))) b)
      (wrap_int-same (up -ℤ pos 1)
        (omega (arith, a, +ℤ_parts (low c) (pos 32), -ℤ_parts up (pos 1)))
        (omega (arith, b, -ℤ_parts up (pos 1))))

widen-new : (b : Bounds) (k : ChunkCoord) → Fits k.x × Fits k.y × Fits k.z → Holds (widen b k) k
unfolding widen
widen-new b k (x, y, z) =
    rw
      (
        chunk_hi-high k.x x,
        chunk_lo-low k.x x,
        chunk_hi-high k.y y,
        chunk_lo-low k.y y,
        chunk_hi-high k.z z,
        chunk_lo-low k.z z,
      )
      (ground arith)

widen-old : (b : Bounds) (j k : ChunkCoord) → Holds b k → Holds (widen b j) k
unfolding widen
widen-old b j k h = ground arith

-- The upper corner can be made exclusive.
abbrev IsBelow : Bounds → Type 0
IsBelow b =
    (ltb_ℤ b.xmax int_max ≡ true) × (ltb_ℤ b.ymax int_max ≡ true) × (ltb_ℤ b.zmax int_max ≡ true)

hi_below : (a c : ℤ) → Fits c → ltb_ℤ a int_max ≡ true → ltb_ℤ (max_ℤ a (chunk_hi c)) int_max ≡ true
hi_below a c f h =
    rw (chunk_hi-high c f)
      (ground (arith, f, +ℤ_parts (low c) (pos 32), -ℤ_parts (low c +ℤ pos 32) (pos 1)))

widen-IsBelow :
    (b : Bounds) (k : ChunkCoord) → Fits k.x × Fits k.y × Fits k.z → IsBelow b → IsBelow (widen b k)
unfolding widen
widen-IsBelow b k (f, g, h) (x, y, z) =
    (hi_below b.xmax k.x f x, hi_below b.ymax k.y g y, hi_below b.zmax k.z h z)

widen_all-old : (b : Bounds) (m : ChunkMap) (k : ChunkCoord) → Holds b k → Holds (widen_all b m) k
unfolding widen_all
widen_all-old b [] k h = h
widen_all-old b ((j, c) ∷ m) k h = widen_all-old (widen b j) m k (widen-old b j k h)

widen_all-IsBelow : (b : Bounds) (m : ChunkMap) → IsInRange m → IsBelow b → IsBelow (widen_all b m)
unfolding widen_all
widen_all-IsBelow b [] r h = h
widen_all-IsBelow b ((j, c) ∷ m) (f, r) h =
    widen_all-IsBelow (widen b j) m r (widen-IsBelow b j f h)

widen_all-found :
    (b : Bounds) (m : ChunkMap) (k : ChunkCoord) (c : Chunk)
    → IsInRange m
    → find_chunk m k ≡ some c
    → Holds (widen_all b m) k
unfolding widen_all find_chunk
widen_all-found b [] k c r e = absurd (ground arith)
widen_all-found b ((j, d) ∷ m) k c (f, r) e = elim (Bool-cases (coord_eq j k)) [
  | inl h ↦
      let same : j ≡ k = (coord_eq_iff j k).0 h in
      widen_all-old (widen b j) m k (subst (Holds (widen b j)) same (widen-new b j f))
  | inr h ↦ widen_all-found (widen b j) m k c r (rw h at e)
]

chunk_axis : (v : ℤ) → (low (floor_div v (pos 32)) ≤ℤ v) × (v ≤ℤ high (floor_div v (pos 32)))
chunk_axis v =
    let c = floor_div v (pos 32) *ℤ pos 32 in
    let l = pos (local_mod v (pos 32)) in
    let e : c +ℤ l ≡ v = floor_div-local_mod v in
    let same : pos_part (c +ℤ l) + neg_part v ≡ pos_part v + neg_part (c +ℤ l) = rw e refl in
    ground (
      arith,
      same,
      local_mod-lt v,
      +ℤ_parts c l,
      +ℤ_parts c (pos 32),
      -ℤ_parts (c +ℤ pos 32) (pos 1),
    )

-- The box with its upper corner exclusive.
abbrev pub Covers : Bounds → ℤ → ℤ → ℤ → Type 0
Covers b x y z =
    (b.xmin ≤ℤ x)
    × (x +ℤ pos 1 ≤ℤ b.xmax)
    × (b.ymin ≤ℤ y)
    × (y +ℤ pos 1 ≤ℤ b.ymax)
    × (b.zmin ≤ℤ z)
    × (z +ℤ pos 1 ≤ℤ b.zmax)

-- Making an upper end exclusive.
exclusive :
    (v top : ℤ)
    → int_min ≤ℤ top
    → ltb_ℤ top int_max ≡ true
    → v ≤ℤ top
    → v +ℤ pos 1 ≤ℤ wrap_int (top +ℤ pos 1)
exclusive v top a b h =
    rw
      (wrap_int-same (top +ℤ pos 1) (omega (arith, a, +ℤ_parts top (pos 1)))
        (ground (arith, b, +ℤ_parts top (pos 1))))
      (omega (arith, h, +ℤ_parts v (pos 1), +ℤ_parts top (pos 1)))

finish-Covers :
    (b : Bounds) (x y z : ℤ)
    → (int_min ≤ℤ x) × (int_min ≤ℤ y) × (int_min ≤ℤ z)
    → IsBelow b
    → Holds b (world_to_chunk x y z)
    → Covers (finish b) x y z
unfolding finish world_to_chunk
finish-Covers b x y z (ix, iy, iz) (px, py, pz) (ax, bx, ay, by', az, bz) =
    let (lx, ux) = chunk_axis x in
    let (ly, uy) = chunk_axis y in
    let (lz, uz) = chunk_axis z in
    elim (Bool-cases (b.xmin ==ℤ int_max)) [
      | inl e ↦ absurd (ground (arith, e, ax, bx, lx, ux, px))
      | inr e ↦ rw e (
        omega (arith, ax, lx),
        exclusive x b.xmax (omega (arith, ix, ux, bx)) px (omega (arith, ux, bx)),
        omega (arith, ay, ly),
        exclusive y b.ymax (omega (arith, iy, uy, by')) py (omega (arith, uy, by')),
        omega (arith, az, lz),
        exclusive z b.zmax (omega (arith, iz, uz, bz)) pz (omega (arith, uz, bz)),
      )
    ]

-- If the coordinates of each chunk and their exclusive ends are in the range of `int`, every solid
-- voxel of three `int` coordinates lies in the bounds of its world, the upper corner exclusive.
pub bounds-Covers :
    (m : ChunkMap) (x y z : ℤ)
    → IsInRange m
    → (int_min ≤ℤ x) × (int_min ≤ℤ y) × (int_min ≤ℤ z)
    → get_voxel m x y z ≢ 0
    → Covers (bounds m) x y z
unfolding bounds
bounds-Covers m x y z r ints n = elim (Option-cases (find_chunk m (world_to_chunk x y z))) [
  | inl e ↦ absurd (n (get_voxel-absent m x y z e))
  | inr (c, e) ↦
      finish-Covers (widen_all no_bounds m) x y z ints
        (widen_all-IsBelow no_bounds m r (ground arith, ground arith, ground arith))
        (widen_all-found no_bounds m (world_to_chunk x y z) c r e)
]
