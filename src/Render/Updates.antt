-- ===== src/Render/Updates.antt =====
-- engine/render/Renderer.cpp: the renderer as the game runs it.
use voxhammer.Base.Int.{ℤ}
use voxhammer.Base.Loops.{loop}
use voxhammer.Base.{
  true, ◌/◌, false, arith, [], refl, sym, zero, ◌∙◌, ◌∷◌, ap, none, ◌*◌, inr, inl, suc, Bool-cases,
  replicate, ◌≡◌, some, Option, length, List, ℕ,
}
use voxhammer.Render.{
  Renderer, brick_count, mark_bricks, fit, set_voxels, load_voxels, load_bricks, load_palette,
}
use voxhammer.Render.Edit.{
  Box, edit_cells, refresh_bricks, edit_box, edit_voxels, clamp_box, is_empty_box, write_voxels,
  write_bricks,
}
use voxhammer.Render.Marking.{build_brick_occupancy-scan_brick, mark_bricks-scan_brick}
use voxhammer.Render.Current.{
  refresh_bricks-read, Matches, IsCurrent, IsInside, edited, edit_cells-read,
}

pub length-fit : (n : ℕ) (grid : List ℕ) → length (fit n grid) ≡ n
unfolding fit
length-fit zero grid = refl
length-fit (suc n) [] = ap suc (length-fit n [])
length-fit (suc n) (x ∷ grid) = ap suc (length-fit n grid)

mark-length :
    (g : ℕ) (v : List ℕ) → length (mark_bricks g v (replicate (brick_count g) 0)) ≡ brick_count g
unfolding mark_bricks replicate loop
mark-length zero v = refl
mark-length (suc n) v =
    (mark_bricks-scan_brick (suc n) v 0 0 0 (omega arith) (omega arith) (omega arith)).0

module _ (g : ℕ) where
  pub built-Matches :
      (v : List ℕ)
      → length v ≡ g * g * g
      → Matches g v (mark_bricks g v (replicate (brick_count g) 0))
  built-Matches v full = record {
    voxel_length = full;
    brick_length = mark-length g v;
    bricks = λ bz by bx hz hy hx.
        (mark_bricks-scan_brick g v bz by bx hz hy hx).1
        ∙ sym (build_brick_occupancy-scan_brick g v bz by bx hz hy hx full);
  }

  edited-Matches :
      (b : Box) (region v occ : List ℕ)
      → IsInside g b
      → Matches g v occ
      → Matches g (edit_cells g b region v) (refresh_bricks g b (edit_cells g b region v) occ)
  edited-Matches b region v occ inside m =
      let v' = edit_cells g b region v in
      let full : length v' ≡ g * g * g =
        (edit_cells-read g b inside region v b.z0 b.y0 b.x0 (omega (arith, inside))
          (omega (arith, inside)) (omega (arith, inside)) m.voxel_length).0 in
      record {
        voxel_length = full;
        brick_length =
            (refresh_bricks-read g b inside v' occ (b.z0 / 8) (b.y0 / 8) (b.x0 / 8)
              (omega (arith, inside)) (omega (arith, inside)) (omega (arith, inside))
              m.brick_length).0;
        bricks = λ bz by bx hz hy hx.
            edited g b inside region v occ m.voxel_length m.brick_length bz by bx hz hy hx (
              m.bricks bz by bx hz hy hx
              ∙ build_brick_occupancy-scan_brick g v bz by bx hz hy hx m.voxel_length)
            ∙ sym (build_brick_occupancy-scan_brick g v' bz by bx hz hy hx full);
      }

  pub edit_box-IsCurrent :
      (b : Box) (region : List ℕ) (palette : Option (List ℕ)) (d : Renderer)
      → IsInside g b
      → IsCurrent g d
      → IsCurrent g (edit_box g b region palette d)
  unfolding edit_box load_palette write_voxels write_bricks
  edit_box-IsCurrent b region none d inside (e, f, m) =
      rw (write_voxels, e, f) (refl, refl, edited-Matches b region _ _ inside m)
  edit_box-IsCurrent b region (some p) d inside (e, f, m) = elim (Bool-cases d.palette_mapped) [
    | inl q ↦ rw (write_voxels, e, f, q) (refl, refl, edited-Matches b region _ _ inside m)
    | inr q ↦ rw (write_voxels, e, f, q) (refl, refl, edited-Matches b region _ _ inside m)
  ]

  pub clamp_box-IsInside :
      (x0 y0 z0 x1 y1 z1 : ℤ)
      → is_empty_box g (clamp_box g x0 y0 z0 x1 y1 z1) ≡ false
      → IsInside g (clamp_box g x0 y0 z0 x1 y1 z1)
  unfolding is_empty_box clamp_box
  clamp_box-IsInside x0 y0 z0 x1 y1 z1 h = record {
    x_order = ground arith;
    y_order = ground arith;
    z_order = ground arith;
    x_bound = ground arith;
    y_bound = ground arith;
    z_bound = ground arith;
  }

  pub edit_voxels-IsCurrent :
      (x0 y0 z0 x1 y1 z1 : ℤ) (region palette : Option (List ℕ)) (d : Renderer)
      → IsCurrent g d
      → IsCurrent g (edit_voxels g x0 y0 z0 x1 y1 z1 region palette d)
  unfolding edit_voxels
  edit_voxels-IsCurrent x0 y0 z0 x1 y1 z1 none palette d h = h
  edit_voxels-IsCurrent x0 y0 z0 x1 y1 z1 (some region) palette d h =
      let b = clamp_box g x0 y0 z0 x1 y1 z1 in
      elim (Bool-cases d.valid) [
        | inr v ↦ rw (edit_voxels, v) h
        | inl v ↦ elim (Bool-cases (is_empty_box g b)) [
          | inl e ↦ rw (edit_voxels, v, e) h
          | inr e ↦
              rw (edit_voxels, v, e)
                (edit_box-IsCurrent b region palette (record d { valid = true })
                  (clamp_box-IsInside x0 y0 z0 x1 y1 z1 e) h)
        ]
      ]

  loaded-Matches :
      (grid : List ℕ)
      → Matches g
          (fit (g * g * g) grid)
          (mark_bricks g (fit (g * g * g) grid) (replicate (brick_count g) 0))
  loaded-Matches grid = built-Matches (fit (g * g * g) grid) (length-fit (g * g * g) grid)

  pub set_voxels-IsCurrent :
      (grid : List ℕ) (palette : Option (List ℕ)) (d : Renderer)
      → IsCurrent g d
      → IsCurrent g (set_voxels g grid palette d)
  unfolding set_voxels load_voxels load_bricks load_palette
  set_voxels-IsCurrent grid none d (e, f, m) = elim (Bool-cases d.valid) [
    | inr v ↦ rw (set_voxels, v) (e, f, m)
    | inl v ↦ rw (set_voxels, v, load_voxels, e, f) (refl, refl, loaded-Matches grid)
  ]
  set_voxels-IsCurrent grid (some p) d (e, f, m) = elim (Bool-cases d.valid) [
    | inr v ↦ rw (set_voxels, v) (e, f, m)
    | inl v ↦ elim (Bool-cases d.palette_mapped) [
      | inl q ↦ rw (set_voxels, v, load_voxels, e, q, f) (refl, refl, loaded-Matches grid)
      | inr q ↦ rw (set_voxels, v, load_voxels, e, q, f) (refl, refl, loaded-Matches grid)
    ]
  ]
