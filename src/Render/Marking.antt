-- ===== src/Render/Marking.antt =====
-- engine/render/Renderer.cpp, `BuildBrickOccupancy`: what the loops leave at one brick.
use native.Mathlib.Decide.{ℕ_discrete}
use voxhammer.Base.{
  get_or-replicate, length-replicate, ltb, replicate, if◌then◌else◌, ==_iff, false, set, ◌*◌,
  length-set, ◌/◌, get_or-set, inr, inl, true, ◌==◌, zero, ◌⊎◌, Bool-cases, arith, get_or, length,
  ◌≡◌, suc, ◌<◌, List, ℕ,
}
use voxhammer.Base.Loops.{loop}
use voxhammer.Render.{
  row_index, mark_voxel, mark_row, mark_slab, mark_bricks, build_brick_occupancy, brick_dim,
  brick_grid, brick_count, brick_index,
}
use voxhammer.Render.Edit.{scan_brick}
use voxhammer.Render.Occupancy.{
  solid_at, row_index-lt, row_injective, in_brick, scan_brick-solid, solid-scan_brick,
}

module _ (g : ℕ) (v : List ℕ) (bz by bx : ℕ) (hz : bz < brick_grid g) (hy : by < brick_grid g)
    (hx : bx < brick_grid g) where
  read_brick : List ℕ → ℕ
  read_brick occ = get_or occ (brick_index g bz by bx) 0

  -- Nothing is marked so far that has no solid voxel.
  IsMarked : List ℕ → Type 0
  IsMarked occ =
      (length occ ≡ brick_count g)
      × ((read_brick occ ≡ 0) ⊎ ((read_brick occ ≡ 1) × (scan_brick g v bz by bx ≡ true)))

  -- A part of the loops that marks only what it may, and unmarks nothing.
  abbrev Marks : (List ℕ → List ℕ) → Type 0
  Marks f = (t : List ℕ) → IsMarked t → IsMarked (f t) × (read_brick t ≡ 1 → read_brick (f t) ≡ 1)

  abbrev Reaches : (List ℕ → List ℕ) → Type 0
  Reaches f = (t : List ℕ) → IsMarked t → read_brick (f t) ≡ 1

  loop-Marks :
      (n : ℕ) (f : ℕ → List ℕ → List ℕ) → ((i : ℕ) → i < n → Marks (f i)) → Marks (loop n f)
  unfolding loop
  loop-Marks zero f m t h = (h, λ r. r)
  loop-Marks (suc n) f m t h =
      let (p, r) = loop-Marks n f (λ i q. m i (omega arith)) t h in
      let (p', r') = m n (omega arith) _ p in (p', λ q. r' (r q))

  loop-Reaches :
      (n k : ℕ) (f : ℕ → List ℕ → List ℕ)
      → k < n
      → ((i : ℕ) → i < n → Marks (f i))
      → Reaches (f k)
      → Reaches (loop n f)
  unfolding loop
  loop-Reaches zero k f q m r t h = absurd (omega arith)
  loop-Reaches (suc n) k f q m r t h =
      let m' = λ (i : ℕ) (c : i < n). m i (omega arith) in
      let (p, _) = loop-Marks n f m' t h in
      elim (ℕ_discrete n k) [
        | yes e ↦ rw e (r _ (rw (← e) p))
        | no e ↦ (m n (omega arith) _ p).1 (loop-Reaches n k f (omega arith) m' r t h)
      ]

  module _ (z y x : ℕ) (cz : z < g) (cy : y < g) (cx : x < g) where
    -- What a write of 1 at the brick of a voxel leaves.
    read-set :
        (t : List ℕ)
        → length t ≡ brick_count g
        → read_brick (set t (brick_index g (z / brick_dim) (y / brick_dim) (x / brick_dim)) 1) ≡ (
            if brick_index g (z / brick_dim) (y / brick_dim) (x / brick_dim)
              == brick_index g bz by bx
            then 1
            else read_brick t)
    unfolding read_brick
    read-set t full =
        let (_, _, kz) = in_brick g z cz in
        let (_, _, ky) = in_brick g y cy in
        let (_, _, kx) = in_brick g x cx in
        get_or-set t (brick_index g (z / brick_dim) (y / brick_dim) (x / brick_dim)) _ 1 0
          (omega (arith, full, row_index-lt (brick_grid g) _ _ _ kz ky kx))

    same_brick :
        (brick_index g (z / brick_dim) (y / brick_dim) (x / brick_dim) == brick_index g bz by bx)
          ≡ true
        → solid_at g v z y x ≡ true
        → scan_brick g v bz by bx ≡ true
    same_brick e s =
        let (_, _, ky) = in_brick g y cy in
        let (_, _, kx) = in_brick g x cx in
        let (ez, ey, ex) =
          row_injective (brick_grid g) _ _ _ bz by bx kx ky hx hy ((==_iff _ _).0 e) in
        rw (← ez, ← ey, ← ex) (scan_brick-solid g v z y x cz cy cx s)

    voxel-Marks : Marks (mark_voxel g v z y x)
    unfolding mark_voxel IsMarked
    voxel-Marks t (full, at) = elim (Bool-cases (get_or v (row_index g z y x) 0 == 0)) [
      | inl e ↦ rw e ((full, at), λ r. r)
      | inr e ↦
          rw (e, length-set, read-set t full)
            ((full, ground (arith, at, same_brick, e)), ground arith)
    ]

    voxel-Reaches :
        solid_at g v z y x ≡ true
        → z / brick_dim ≡ bz
        → y / brick_dim ≡ by
        → x / brick_dim ≡ bx
        → Reaches (mark_voxel g v z y x)
    unfolding mark_voxel IsMarked
    voxel-Reaches s ez ey ex t (full, _) =
        let e : (get_or v (row_index g z y x) 0 == 0) ≡ false = ground (arith, s) in
        rw (e, read-set t full, ez, ey, ex) (ground arith)

  row-Marks : (z y : ℕ) → z < g → y < g → Marks (mark_row g v z y)
  unfolding mark_row
  row-Marks z y cz cy = loop-Marks g _ (λ x c. voxel-Marks z y x cz cy c)

  slab-Marks : (z : ℕ) → z < g → Marks (mark_slab g v z)
  unfolding mark_slab
  slab-Marks z cz = loop-Marks g _ (λ y c. row-Marks z y cz c)

  bricks-Reaches : scan_brick g v bz by bx ≡ true → Reaches (mark_bricks g v)
  unfolding mark_bricks mark_slab mark_row
  bricks-Reaches h =
      let (z, y, x, cz, cy, cx, ez, ey, ex, s) = solid-scan_brick g v bz by bx h in
      loop-Reaches g z _ cz slab-Marks (
        loop-Reaches g y _ cy (λ i c. row-Marks z i cz c)
          (loop-Reaches g x _ cx (λ i c. voxel-Marks z y i cz cy c)
            (voxel-Reaches z y x cz cy cx s ez ey ex)))

  zeros-IsMarked : IsMarked (replicate (brick_count g) 0)
  unfolding IsMarked read_brick
  zeros-IsMarked = (
    length-replicate {A = ℕ} (brick_count g) 0,
    inl (get_or-replicate {A = ℕ} (brick_count g) _ 0),
  )

  pub mark_bricks-scan_brick :
      let occ = mark_bricks g v (replicate (brick_count g) 0) in
      (length occ ≡ brick_count g)
      × (get_or occ (brick_index g bz by bx) 0 ≡ (if scan_brick g v bz by bx then 1 else 0))
  unfolding mark_bricks IsMarked read_brick
  mark_bricks-scan_brick =
      let ((full, at), _) = loop-Marks g _ slab-Marks _ zeros-IsMarked in
      (
        full,
        elim (Bool-cases (scan_brick g v bz by bx)) [
          | inl e ↦ rw e (bricks-Reaches e _ zeros-IsMarked)
          | inr e ↦ rw e (ground (arith, at, e))
        ],
      )

  -- In a grid of the right size a brick is marked 1 if it has a solid voxel, and 0 if it has none.
  pub build_brick_occupancy-scan_brick :
      length v ≡ g * g * g
      → get_or (build_brick_occupancy g v) (brick_index g bz by bx) 0
        ≡ (if scan_brick g v bz by bx then 1 else 0)
  unfolding build_brick_occupancy
  build_brick_occupancy-scan_brick full =
      let enough : ltb (length v) (g * g * g) ≡ false = ground (arith, full) in
      rw enough mark_bricks-scan_brick.1
