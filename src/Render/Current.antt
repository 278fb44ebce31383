-- ===== src/Render/Current.antt =====
-- engine/render/Renderer.cpp: the bricks follow the voxels, through every edit.
use voxhammer.Base.{
  refl, inr, inl, Bool-cases, false, arith, ◌+◌, ◌-◌, ◌∙◌, if◌then◌else◌, ltb, sym, Bool-eq, get_or,
  ◌&&◌, ◌*◌, leb, length, true, ◌/◌, ◌≤◌, Bool, List, ◌<◌, ◌≡◌, ℕ,
}
use voxhammer.Render.{
  Renderer, brick_dim, brick_grid, brick_count, row_index, brick_index, build_brick_occupancy,
}
use voxhammer.Render.Edit.{
  Box, scan_brick, edit_cells, edit_cell, edit_row, edit_slab, refresh_brick, refresh_row,
  refresh_slab, refresh_bricks,
}
use voxhammer.Render.Occupancy.{solid_at, scan_brick-solid, solid-scan_brick}
use voxhammer.Render.Writes.{write_box, write_slab, write_row, write_box-read, read_cell, in_range}

-- The buffers have their sizes, and the occupancy of every brick is the one that `BuildBrickOccupancy`
-- computes from the voxels.
pub record Matches (g : ℕ) (v occ : List ℕ) : Type 0 where
  pub voxel_length : length v ≡ g * g * g
  pub brick_length : length occ ≡ brick_count g
  pub bricks :
      (bz by bx : ℕ)
      → bz < brick_grid g
      → by < brick_grid g
      → bx < brick_grid g
      → get_or occ (brick_index g bz by bx) 0
        ≡ get_or (build_brick_occupancy g v) (brick_index g bz by bx) 0

-- The buffers are mapped, and they match.
abbrev pub IsCurrent : ℕ → Renderer → Type 0
IsCurrent g d =
    (d.voxel_mapped ≡ true) × (d.brick_mapped ≡ true) × Matches g d.voxel_ptr d.brick_ptr

module _ (g : ℕ) where
  scan_brick-same :
      (v v' : List ℕ) (bz by bx : ℕ)
      → ((z y x : ℕ)
          → z < g
          → y < g
          → x < g
          → z / brick_dim ≡ bz
          → y / brick_dim ≡ by
          → x / brick_dim ≡ bx
          → solid_at g v z y x ≡ solid_at g v' z y x)
      → scan_brick g v bz by bx ≡ scan_brick g v' bz by bx
  scan_brick-same v v' bz by bx same =
      Bool-eq
        (λ h.
          let (z, y, x, cz, cy, cx, ez, ey, ex, s) = solid-scan_brick g v bz by bx h in
          rw (← ez, ← ey, ← ex)
            (scan_brick-solid g v' z y x cz cy cx (sym (same z y x cz cy cx ez ey ex) ∙ s)))
        (λ h.
          let (z, y, x, cz, cy, cx, ez, ey, ex, s) = solid-scan_brick g v' bz by bx h in
          rw (← ez, ← ey, ← ex)
            (scan_brick-solid g v z y x cz cy cx (same z y x cz cy cx ez ey ex ∙ s)))

  -- The box of an edit is inside the grid, and not empty.
  pub record IsInside (b : Box) : Type 0 where
    pub x_order : b.x0 < b.x1
    pub y_order : b.y0 < b.y1
    pub z_order : b.z0 < b.z1
    pub x_bound : b.x1 ≤ g
    pub y_bound : b.y1 ≤ g
    pub z_bound : b.z1 ≤ g

  abbrev pub in_box : Box → ℕ → ℕ → ℕ → Bool
  in_box b z y x =
      leb b.z0 z && ltb z b.z1 && (leb b.y0 y && ltb y b.y1 && (leb b.x0 x && ltb x b.x1))

  -- Whether `EditVoxels` scans a brick again.
  pub in_bricks : Box → ℕ → ℕ → ℕ → Bool
  in_bricks b bz by bx =
      in_range (b.z0 / brick_dim) ((b.z1 - 1) / brick_dim + 1) bz
      && (in_range (b.y0 / brick_dim) ((b.y1 - 1) / brick_dim + 1) by
          && in_range (b.x0 / brick_dim) ((b.x1 - 1) / brick_dim + 1) bx)

  module _ (b : Box) (inside : IsInside b) where
    -- A voxel of the box is taken from the region, and any other is left alone.
    pub edit_cells-read :
        (region v : List ℕ) (z y x : ℕ)
        → z < g
        → y < g
        → x < g
        → length v ≡ g * g * g
        → (length (edit_cells g b region v) ≡ g * g * g)
          × (get_or (edit_cells g b region v) (row_index g z y x) 0 ≡ (
              if in_box b z y x
              then get_or region
                  (((z - b.z0) * (b.y1 - b.y0) + (y - b.y0)) * (b.x1 - b.x0) + (x - b.x0))
                  0
              else get_or v (row_index g z y x) 0))
    unfolding edit_cells edit_slab edit_row edit_cell write_box write_slab write_row read_cell
    edit_cells-read region v z y x cz cy cx full =
        let w : ℕ → ℕ → ℕ → ℕ = λ i j k.
          get_or region (((i - b.z0) * (b.y1 - b.y0) + (j - b.y0)) * (b.x1 - b.x0) + (k - b.x0))
            0 in
        let (p, r) =
          write_box-read g b.z0 b.z1 b.y0 b.y1 b.x0 b.x1 w inside.z_bound inside.y_bound
            inside.x_bound z y x cz cy cx v full in
        (p, r ∙ ground arith)

    pub refresh_bricks-read :
        (v occ : List ℕ) (bz by bx : ℕ)
        → bz < brick_grid g
        → by < brick_grid g
        → bx < brick_grid g
        → length occ ≡ brick_count g
        → (length (refresh_bricks g b v occ) ≡ brick_count g)
          × (get_or (refresh_bricks g b v occ) (brick_index g bz by bx) 0 ≡ (
              if in_bricks b bz by bx
              then (if scan_brick g v bz by bx then 1 else 0)
              else get_or occ (brick_index g bz by bx) 0))
    unfolding in_bricks refresh_bricks refresh_slab refresh_row refresh_brick write_box write_slab
        write_row read_cell
    refresh_bricks-read v occ bz by bx cz cy cx full =
        write_box-read (brick_grid g) (b.z0 / brick_dim) _ (b.y0 / brick_dim) _ (b.x0 / brick_dim) _
          (λ i j k. if scan_brick g v i j k then 1 else 0)
          (omega (arith, inside.z_bound, inside.z_order))
          (omega (arith, inside.y_bound, inside.y_order))
          (omega (arith, inside.x_bound, inside.x_order)) bz by bx cz cy cx occ full

    -- The brick of a voxel of the box is scanned again.
    in_box-in_bricks :
        (z y x : ℕ)
        → in_box b z y x ≡ true
        → in_bricks b (z / brick_dim) (y / brick_dim) (x / brick_dim) ≡ true
    unfolding in_bricks
    in_box-in_bricks z y x h = ground arith

    module _ (region v occ : List ℕ) (full : length v ≡ g * g * g)
        (sized : length occ ≡ brick_count g) where
      abbrev v' : List ℕ
      v' = edit_cells g b region v

      untouched :
          (bz by bx : ℕ)
          → in_bricks b bz by bx ≡ false
          → scan_brick g v bz by bx ≡ scan_brick g v' bz by bx
      untouched bz by bx out = scan_brick-same v v' bz by bx λ z y x cz cy cx ez ey ex.
          let (_, r) = edit_cells-read region v z y x cz cy cx full in
          elim (Bool-cases (in_box b z y x)) [
            | inl e ↦
                let again : in_bricks b bz by bx ≡ true =
                  rw (← ez, ← ey, ← ex) (in_box-in_bricks z y x e) in
                absurd (ground arith)
            | inr e ↦ rw (r, e) refl
          ]

      -- After an edit each brick is marked as the voxels now say.
      pub edited :
          (bz by bx : ℕ)
          → bz < brick_grid g
          → by < brick_grid g
          → bx < brick_grid g
          → get_or occ (brick_index g bz by bx) 0 ≡ (if scan_brick g v bz by bx then 1 else 0)
          → get_or (refresh_bricks g b v' occ) (brick_index g bz by bx) 0
            ≡ (if scan_brick g v' bz by bx then 1 else 0)
      edited bz by bx cz cy cx was =
          let (_, r) = refresh_bricks-read v' occ bz by bx cz cy cx sized in
          elim (Bool-cases (in_bricks b bz by bx)) [
            | inl e ↦ r ∙ rw e refl
            | inr e ↦ r ∙ rw (e, ← untouched bz by bx e) was
          ]
