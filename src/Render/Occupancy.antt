-- ===== src/Render/Occupancy.antt =====
-- engine/render/Renderer.cpp: which bricks are marked as occupied.
use voxhammer.Base.Ranges.{any_from-elim, any_from-intro}
use voxhammer.Base.{◌==◌, get_or, not, true, ◌+◌, Bool, arith, ◌/◌, ◌≡◌, ◌≤◌, List, ◌*◌, ◌<◌, ℕ}
use voxhammer.Render.{brick_dim, brick_grid, row_index}
use voxhammer.Render.Edit.{scan_brick, brick_cells}
use voxhammer.Voxel.World.Bake.Cells.{flat_index-lt, flat_injective}

abbrev pub solid_at : ℕ → List ℕ → ℕ → ℕ → ℕ → Bool
solid_at g v z y x = not (get_or v (row_index g z y x) 0 == 0)

pub row_index-lt : (g z y x : ℕ) → z < g → y < g → x < g → row_index g z y x < g * g * g
row_index-lt g z y x hz hy hx = omega (arith, flat_index-lt g z y x hz hy hx)

pub row_injective :
    (g z y x z' y' x' : ℕ)
    → x < g
    → y < g
    → x' < g
    → y' < g
    → row_index g z y x ≡ row_index g z' y' x'
    → (z ≡ z') × (y ≡ y') × (x ≡ x')
row_injective g z y x z' y' x' hx hy hx' hy' e =
    flat_injective g z y x z' y' x' hx hy hx' hy' (omega (arith, e))

-- A coordinate lies in the range of its brick, and only there.
pub in_brick :
    (g c : ℕ)
    → c < g
    → let first = c / brick_dim * brick_dim in
      (first ≤ c) × (c < first + brick_cells g first) × (c / brick_dim < brick_grid g)
in_brick g c h = ground arith

of_brick :
    (g b c : ℕ)
    → b * brick_dim ≤ c
    → c < b * brick_dim + brick_cells g (b * brick_dim)
    → (c < g) × (c / brick_dim ≡ b)
of_brick g b c h k = ground arith

module _ (g : ℕ) (v : List ℕ) where
  pub scan_brick-solid :
      (z y x : ℕ)
      → z < g
      → y < g
      → x < g
      → solid_at g v z y x ≡ true
      → scan_brick g v (z / brick_dim) (y / brick_dim) (x / brick_dim) ≡ true
  unfolding scan_brick
  scan_brick-solid z y x hz hy hx s =
      let (z0, z1, _) = in_brick g z hz in
      let (y0, y1, _) = in_brick g y hy in
      let (x0, x1, _) = in_brick g x hx in
      any_from-intro _ _ _ z z0 z1 (any_from-intro _ _ _ y y0 y1 (any_from-intro _ _ _ x x0 x1 s))

  pub solid-scan_brick :
      (bz by bx : ℕ)
      → scan_brick g v bz by bx ≡ true
      → (z : ℕ) × (y : ℕ) × (x : ℕ) × (z < g)
        × (y < g)
        × (x < g)
        × (z / brick_dim ≡ bz)
        × (y / brick_dim ≡ by)
        × (x / brick_dim ≡ bx)
        × (solid_at g v z y x ≡ true)
  unfolding scan_brick
  solid-scan_brick bz by bx h =
      let (z, z0, z1, hz) = any_from-elim _ _ _ h in
      let (y, y0, y1, hy) = any_from-elim _ _ _ hz in
      let (x, x0, x1, s) = any_from-elim _ _ _ hy in
      let (bz', ez) = of_brick g bz z z0 z1 in
      let (by', ey) = of_brick g by y y0 y1 in
      let (bx', ex) = of_brick g bx x x0 x1 in (z, y, x, bz', by', bx', ez, ey, ex, s)
