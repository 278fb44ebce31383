-- ===== src/Render/Edit.antt =====
-- engine/render/Renderer.cpp, `Renderer::EditVoxels`.
use voxhammer.Base.Int.{pos, max_ℤ, min_ℤ, pos_part, ℤ}
use voxhammer.Base.{
  ◌==◌, ltb, none, ◌*◌, get_or, not, ◌+◌, ◌||◌, some, Option, leb, set, ◌&&◌, ◌-◌, ◌/◌, Bool, List,
  if◌then◌else◌, ℕ,
}
use voxhammer.Render.{Renderer, brick_dim, row_index, brick_index, load_palette, restart}
use voxhammer.Base.Ranges.{for_range, any_from}

-- The box of an edit, after it is clamped to the grid.
pub record Box : Type 0 where
  pub x0 : ℕ
  pub y0 : ℕ
  pub z0 : ℕ
  pub x1 : ℕ
  pub y1 : ℕ
  pub z1 : ℕ

module _ (g : ℕ) where
  module _ (b : Box) (region : List ℕ) where
    unfoldable pub edit_cell : ℕ → ℕ → ℕ → List ℕ → List ℕ
    edit_cell z y x v =
        let dx = b.x1 - b.x0 in
        let dy = b.y1 - b.y0 in
        set v (row_index g z y x)
          (get_or region (((z - b.z0) * dy + (y - b.y0)) * dx + (x - b.x0)) 0)

    unfoldable pub edit_row : ℕ → ℕ → List ℕ → List ℕ
    edit_row z y v = for_range b.x0 b.x1 (edit_cell z y) v

    unfoldable pub edit_slab : ℕ → List ℕ → List ℕ
    edit_slab z v = for_range b.y0 b.y1 (edit_row z) v

    unfoldable pub edit_cells : List ℕ → List ℕ
    edit_cells v = for_range b.z0 b.z1 edit_slab v

  -- The cells of a brick from its first on, on one axis.
  abbrev pub brick_cells : ℕ → ℕ
  brick_cells first = (if ltb (first + brick_dim) g then first + brick_dim else g) - first

  -- Whether a brick has a solid voxel.
  unfoldable pub scan_brick : List ℕ → ℕ → ℕ → ℕ → Bool
  scan_brick v bz by bx =
      let z0 = bz * brick_dim in
      let y0 = by * brick_dim in
      let x0 = bx * brick_dim in
      any_from z0 (brick_cells z0) λ z.
        any_from y0 (brick_cells y0)
          λ y. any_from x0 (brick_cells x0) λ x. not (get_or v (row_index g z y x) 0 == 0)

  unfoldable pub refresh_brick : List ℕ → ℕ → ℕ → ℕ → List ℕ → List ℕ
  refresh_brick v bz by bx occ =
      set occ (brick_index g bz by bx) (if scan_brick v bz by bx then 1 else 0)

  module _ (b : Box) (v : List ℕ) where
    unfoldable pub refresh_row : ℕ → ℕ → List ℕ → List ℕ
    refresh_row bz by occ =
        for_range (b.x0 / brick_dim) ((b.x1 - 1) / brick_dim + 1) (refresh_brick v bz by) occ

    unfoldable pub refresh_slab : ℕ → List ℕ → List ℕ
    refresh_slab bz occ =
        for_range (b.y0 / brick_dim) ((b.y1 - 1) / brick_dim + 1) (refresh_row bz) occ

    unfoldable pub refresh_bricks : List ℕ → List ℕ
    refresh_bricks occ = for_range (b.z0 / brick_dim) ((b.z1 - 1) / brick_dim + 1) refresh_slab occ

  unfoldable pub write_voxels : Box → List ℕ → Renderer → Renderer
  write_voxels b region d =
      if d.voxel_mapped then record d { voxel_ptr = edit_cells b region d.voxel_ptr } else d

  unfoldable pub write_bricks : Box → Renderer → Renderer
  write_bricks b d =
      if d.brick_mapped && d.voxel_mapped
      then record d { brick_ptr = refresh_bricks b d.voxel_ptr d.brick_ptr }
      else d

  -- The part of `EditVoxels` behind its checks.
  unfoldable pub edit_box : Box → List ℕ → Option (List ℕ) → Renderer → Renderer
  unfolding write_voxels write_bricks
  edit_box b region palette d =
      restart (write_bricks b (load_palette palette (write_voxels b region d)))

  unfoldable pub is_empty_box : Box → Bool
  is_empty_box b = leb b.x1 b.x0 || leb b.y1 b.y0 || leb b.z1 b.z0

  -- `max(0, ·)` and `min(G, ·)`; a bound below 0 leaves an empty box.
  unfoldable pub clamp_box : (x0 y0 z0 x1 y1 z1 : ℤ) → Box
  clamp_box x0 y0 z0 x1 y1 z1 = record {
    x0 = pos_part (max_ℤ (pos 0) x0);
    y0 = pos_part (max_ℤ (pos 0) y0);
    z0 = pos_part (max_ℤ (pos 0) z0);
    x1 = pos_part (min_ℤ (pos g) x1);
    y1 = pos_part (min_ℤ (pos g) y1);
    z1 = pos_part (min_ℤ (pos g) z1);
  }

  -- `EditVoxels`
  unfoldable pub edit_voxels :
      (x0 y0 z0 x1 y1 z1 : ℤ) → Option (List ℕ) → Option (List ℕ) → Renderer → Renderer
  edit_voxels x0 y0 z0 x1 y1 z1 none palette d = d
  edit_voxels x0 y0 z0 x1 y1 z1 (some region) palette d =
      let b = clamp_box x0 y0 z0 x1 y1 z1 in
      if not d.valid then d else if is_empty_box b then d else edit_box b region palette d
