-- ===== src/Voxel/World/Carve/Ball.antt =====
-- The ball against the box that `carve_sphere` walks.
use voxhammer.Base.{◌*◌, ℕ, ◌≤◌, ◌≡◌, true, ◌&&◌, arith}
use voxhammer.Base.Int.{
  magnitude, square, int_laws, ℤ, pos, ◌+ℤ◌, ◌-ℤ◌, ◌*ℤ◌, ◌≤ℤ◌, ltb_ℤ, leb_ℤ, max_ℤ, min_ℤ,
}
use voxhammer.Voxel.Coords.{world_dim}
use voxhammer.Voxel.World.Carve.{in_ball, dist2, box_lo, box_hi}

square_le : (a b : ℕ) → a * a ≤ b * b → a ≤ b
square_le a b h = grind arith

pub square_nonneg : (a b : ℤ) → pos 0 ≤ℤ a *ℤ a +ℤ b *ℤ b
unfolding ◌+ℤ◌
square_nonneg a b = rw (square a, square b) (ground arith)

within :
    (c radius k : ℤ)
    → pos 0 ≤ℤ radius
    → magnitude (k -ℤ c) ≤ magnitude radius
    → (c -ℤ radius ≤ℤ k) × (k ≤ℤ c +ℤ radius)
unfolding ◌-ℤ◌ ◌+ℤ◌
within c radius k h g = ground arith

box_tests :
    (lo hi k : ℤ)
    → lo ≤ℤ k
    → k ≤ℤ hi
    → (leb_ℤ (max_ℤ (pos 0) lo) k && ltb_ℤ k (min_ℤ (pos world_dim -ℤ pos 1) hi +ℤ pos 1))
      ≡ (leb_ℤ (pos 0) k && ltb_ℤ k (pos world_dim))
unfolding ◌-ℤ◌ ◌+ℤ◌
box_tests lo hi k a b = ground arith

magnitude_le :
    (radius e d : ℤ) → pos 0 ≤ℤ d → e *ℤ e +ℤ d ≤ℤ radius *ℤ radius → magnitude e ≤ magnitude radius
unfolding ◌+ℤ◌
magnitude_le radius e d g h =
    square_le (magnitude e) (magnitude radius) (square_bound (rw (square e, square radius) at h))
  where
    square_bound :
        pos (magnitude e * magnitude e) +ℤ d ≤ℤ pos (magnitude radius * magnitude radius)
        → magnitude e * magnitude e ≤ magnitude radius * magnitude radius
    square_bound k = ground arith

-- A ball that meets a coordinate lies around it on each axis.
pub axis_box :
    (c radius k d : ℤ)
    → pos 0 ≤ℤ radius
    → pos 0 ≤ℤ d
    → (k -ℤ c) *ℤ (k -ℤ c) +ℤ d ≤ℤ radius *ℤ radius
    → (leb_ℤ (box_lo c radius) k && ltb_ℤ k (box_hi c radius +ℤ pos 1))
      ≡ (leb_ℤ (pos 0) k && ltb_ℤ k (pos world_dim))
axis_box c radius k d r g h =
    let (a, b) = within c radius k r (magnitude_le radius (k -ℤ c) d g h) in
    box_tests (c -ℤ radius) (c +ℤ radius) k a b

-- On all three axes at once: inside the ball, being in the box is being in the grid.
module _ (cx cy cz radius x y z : ℤ) where
  pub ball_box :
      pos 0 ≤ℤ radius
      → in_ball cx cy cz (radius *ℤ radius) x y z ≡ true
      → ((leb_ℤ (box_lo cx radius) x && ltb_ℤ x (box_hi cx radius +ℤ pos 1))
          ≡ (leb_ℤ (pos 0) x && ltb_ℤ x (pos world_dim)))
        × ((leb_ℤ (box_lo cy radius) y && ltb_ℤ y (box_hi cy radius +ℤ pos 1))
            ≡ (leb_ℤ (pos 0) y && ltb_ℤ y (pos world_dim)))
        × ((leb_ℤ (box_lo cz radius) z && ltb_ℤ z (box_hi cz radius +ℤ pos 1))
            ≡ (leb_ℤ (pos 0) z && ltb_ℤ z (pos world_dim)))
  unfolding dist2
  ball_box r b =
      let dx = (x -ℤ cx) in
      let dy = (y -ℤ cy) in
      let dz = (z -ℤ cz) in
      let le : dx *ℤ dx +ℤ dy *ℤ dy +ℤ dz *ℤ dz ≤ℤ radius *ℤ radius = ground arith in
      (
        axis_box cx radius x (dy *ℤ dy +ℤ dz *ℤ dz) r (square_nonneg dy dz) (omega int_laws),
        axis_box cy radius y (dx *ℤ dx +ℤ dz *ℤ dz) r (square_nonneg dx dz) (omega int_laws),
        axis_box cz radius z (dx *ℤ dx +ℤ dy *ℤ dy) r (square_nonneg dx dy) (omega int_laws),
      )
