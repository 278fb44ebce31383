-- ===== src/Voxel/World/Carve/Count.antt =====
-- The number that `carve_sphere` returns.
use voxhammer.Base.Loops.{loop_ℤ_inv}
use voxhammer.Voxel.World.Access.{set_voxel-IsValid, get_voxel-set_voxel}
use voxhammer.Voxel.World.Map.{IsValid}
use voxhammer.Voxel.Coords.{world_dim}
use voxhammer.Base.Int.{◌*ℤ◌, ltb_ℤ, negsuc, ◌≤ℤ◌, pos, ℤ, ◌+ℤ◌, ◌-ℤ◌}
use voxhammer.Voxel.World.{set_voxel, get_voxel, ChunkMap}
use native.Mathlib.Decide.{ℕ_discrete}
use voxhammer.Base.{
  if◌then◌else◌, true, refl, ◌≡◌, ◌≤◌, ℕ, inr, inl, Bool-cases, ap, zero, false, ◌==◌, arith, suc,
  ◌+◌, ◌≢◌, ◌<◌,
}
use voxhammer.Voxel.World.Carve.{
  box_hi, dist2, box_lo, carve_box, carve_row, carve_body, carve_slab, carve_sphere, Carved,
}

sum_below : ℕ → (ℕ → ℕ) → ℕ
sum_below zero f = 0
sum_below (suc n) f = f n + sum_below n f

abbrev solid : ChunkMap → ℕ → ℕ → ℕ → ℕ
solid m z y x = if get_voxel m (pos x) (pos y) (pos z) == 0 then 0 else 1

-- The number of solid voxels in the grid.
pub count_solid : ChunkMap → ℕ
count_solid m = sum_below world_dim λ z. sum_below world_dim λ y. sum_below world_dim (solid m z y)

sum_below-eq : (n : ℕ) (f g : ℕ → ℕ) → ((i : ℕ) → f i ≡ g i) → sum_below n f ≡ sum_below n g
unfolding sum_below
sum_below-eq zero f g h = refl
sum_below-eq (suc n) f g h = omega (arith, h n, sum_below-eq n f g h)

sum_below_lt :
    (n k : ℕ) (f g : ℕ → ℕ) → n ≤ k → ((i : ℕ) → i ≢ k → f i ≡ g i) → sum_below n f ≡ sum_below n g
unfolding sum_below
sum_below_lt zero k f g b h = refl
sum_below_lt (suc n) k f g b h =
    omega (arith, sum_below_lt n k f g (omega arith) h, h n (omega arith))

-- Two sums that differ in one term.
sum_below_one :
    (n k d : ℕ) (f g : ℕ → ℕ)
    → k < n
    → f k ≡ g k + d
    → ((i : ℕ) → i ≢ k → f i ≡ g i)
    → sum_below n f ≡ sum_below n g + d
unfolding sum_below
sum_below_one zero k d f g b e h = absurd (omega arith)
sum_below_one (suc n) k d f g b e h = elim (ℕ_discrete n k) [
  | yes q ↦ omega (arith, sum_below_lt n k f g (omega arith) h, ap f q, ap g q)
  | no q ↦ omega (arith, sum_below_one n k d f g (omega arith) e h, h n q)
]

-- Erasing one solid voxel of the grid takes one off the count.
count_solid-erase :
    (m : ChunkMap) (x y z : ℕ)
    → IsValid m
    → x < world_dim
    → y < world_dim
    → z < world_dim
    → (get_voxel m (pos x) (pos y) (pos z) == 0) ≡ false
    → count_solid m ≡ count_solid (set_voxel m (pos x) (pos y) (pos z) 0) + 1
unfolding count_solid
count_solid-erase m x y z v hx hy hz e =
    let law =
      λ (i j k : ℕ). get_voxel-set_voxel m (pos x) (pos y) (pos z) 0 (pos i) (pos j) (pos k) v in
    let m' = set_voxel m (pos x) (pos y) (pos z) 0 in
    let row = λ (n : ChunkMap) (k j : ℕ). sum_below world_dim (solid n k j) in
    let slab = λ (n : ChunkMap) (k : ℕ). sum_below world_dim (row n k) in
    sum_below_one world_dim z 1 (slab m) (slab m') hz
      (sum_below_one world_dim y 1 (row m z) (row m' z) hy
        (sum_below_one world_dim x 1 (solid m z y) (solid m' z y) hx (rw (law x y z) (ground arith))
          (λ i n. rw (law i y z) (ground arith)))
        (λ j n.
          sum_below-eq world_dim (solid m z j) (solid m' z j) (λ i. rw (law i j z) (ground arith))))
      (λ k n. sum_below-eq world_dim (row m k) (row m' k) (λ j.
        sum_below-eq world_dim (solid m k j) (solid m' k j) (λ i. rw (law i j k) (ground arith))))

on_axis :
    (c radius i : ℤ)
    → box_lo c radius ≤ℤ i
    → ltb_ℤ i (box_hi c radius +ℤ pos 1) ≡ true
    → (n : ℕ) × (i ≡ pos n) × (n < world_dim)
unfolding ◌-ℤ◌ ◌+ℤ◌
on_axis c radius (pos n) lo hi = (n, refl, ground arith)
on_axis c radius (negsuc n) lo hi = absurd (ground arith)

module _ (total : ℕ) where
  -- What has been removed and what is left make up the total.
  abbrev Counted : Carved → Type 0
  Counted s = IsValid s.0 × (count_solid s.0 + s.1 ≡ total)

  carve_body-Counted :
      (cx cy cz r2 : ℤ) (x y z : ℕ) (s : Carved)
      → x < world_dim
      → y < world_dim
      → z < world_dim
      → Counted s
      → Counted (carve_body cx cy cz r2 (pos z) (pos y) (pos x) s)
  unfolding carve_body
  carve_body-Counted cx cy cz r2 x y z (m, n) hx hy hz (v, e) =
      elim (Bool-cases (ltb_ℤ r2 (dist2 (pos x -ℤ cx) (pos y -ℤ cy) (pos z -ℤ cz)))) [
        | inl o ↦ rw o (v, e)
        | inr o ↦ elim (Bool-cases (get_voxel m (pos x) (pos y) (pos z) == 0)) [
          | inl q ↦ rw (o, q) (v, e)
          | inr q ↦
              rw (o, q)
                (
                  set_voxel-IsValid m (pos x) (pos y) (pos z) 0 v,
                  omega (arith, count_solid-erase m x y z v hx hy hz q),
                )
        ]
      ]

-- On a well-formed map, the number returned is the number of voxels of the grid that were solid
-- and are not any more.
pub carve_sphere-count :
    (m : ChunkMap) (cx cy cz radius : ℤ)
    → IsValid m
    → count_solid (carve_sphere m cx cy cz radius).0 + (carve_sphere m cx cy cz radius).1
      ≡ count_solid m
unfolding carve_sphere carve_slab carve_row carve_box
carve_sphere-count m cx cy cz (negsuc r) v = omega arith
carve_sphere-count m cx cy cz (pos r) v =
    let radius = pos r in
    (loop_ℤ_inv (Counted (count_solid m)) (box_lo cz radius) (box_hi cz radius +ℤ pos 1) _ (m, 0)
      (λ z s z0 z1 h.
        loop_ℤ_inv (Counted (count_solid m)) (box_lo cy radius) (box_hi cy radius +ℤ pos 1) _ s
          (λ y t y0 y1 k.
            loop_ℤ_inv (Counted (count_solid m)) (box_lo cx radius) (box_hi cx radius +ℤ pos 1) _ t
              (λ x u x0 x1 l.
                let (i, ei, bi) = on_axis cx radius x x0 x1 in
                let (j, ej, bj) = on_axis cy radius y y0 y1 in
                let (n, en, bn) = on_axis cz radius z z0 z1 in
                rw (ei, ej, en)
                  (carve_body-Counted (count_solid m) cx cy cz (radius *ℤ radius) i j n u bi bj bn
                    l))
              k)
          h)
      (v, omega arith)).1
