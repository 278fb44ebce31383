-- ===== src/Voxel/Stamp/Laws.antt =====
-- engine/voxel/VoxelWorld.cpp, `StampVox`: laws of the world that is written.
use voxhammer.Base.Loops.{loop_ℤ_inv}
use voxhammer.Voxel.Coords.{same_pos-cases}
use voxhammer.Voxel.World.Access.{get_voxel-set_voxel, set_voxel-IsValid}
use voxhammer.Voxel.Palette.Adding.{add_palette_color_lem}
use voxhammer.Base.{
  get_or, ◌==◌, refl, Bool-cases, List, inl, inr, ◌∙◌, arith, false, true, ◌≡◌, ◌<◌, ℕ, ◌≤◌,
}
use voxhammer.Base.Int.{◌+ℤ◌, ℤ}
use voxhammer.Voxel.Bounds.{bounds, Bounds}
use voxhammer.Voxel.Palette.{add_palette_color, color_at, Palette, IsValid}
use voxhammer.Voxel.World.Map
use voxhammer.Voxel.World.{get_voxel, ChunkMap}
use voxhammer.Voxel.Stamp.{
  stamp_row, stamp_slab, stamp_body, stamp_box, stamp_vox, clipped, put_color, Stamped,
}

module _ (m : ChunkMap) (p : Palette) where
  -- A world and a palette that grew out of `m` and `p`: both are valid, every colour in use is where
  -- it was, and every voxel outside the grid is unchanged.
  pub record Grown (s : Stamped) : Type 0 where
    pub map_valid : Map.IsValid s.0
    pub palette_valid : IsValid s.1
    pub grows : p.used ≤ s.1.used
    pub same_color : (j : ℕ) → j < p.used → color_at s.1 j ≡ color_at p j
    pub same_outside : (x y z : ℤ) → clipped x y z ≡ true → get_voxel s.0 x y z ≡ get_voxel m x y z

  put_color-Grown :
      (dx dy dz : ℤ) (rgba : ℕ) (s : Stamped)
      → clipped dx dy dz ≡ false
      → Grown s
      → Grown (put_color dx dy dz rgba s)
  unfolding put_color
  put_color-Grown dx dy dz rgba (n, q) h g =
      let ((w, more, same, _, _), _) = add_palette_color_lem q rgba g.palette_valid in
      let idx = (add_palette_color q rgba).1 in
      record {
        map_valid = set_voxel-IsValid n dx dy dz idx g.map_valid;
        palette_valid = w;
        grows = omega (arith, g.grows, more);
        same_color = λ j k. same j (omega (arith, g.grows)) ∙ g.same_color j k;
        same_outside = λ x y z k.
            get_voxel-set_voxel n dx dy dz idx x y z g.map_valid
            ∙ (elim (same_pos-cases dx dy dz x y z) [
              | inl (e, ex, ey, ez) ↦ absurd (ground (arith, ex, ey, ez))
              | inr e ↦ rw e (g.same_outside x y z k)
            ]);
      }

  stamp_body-Grown :
      (src : ChunkMap) (src_palette : List ℕ) (ox oy oz z y x : ℤ) (s : Stamped)
      → Grown s
      → Grown (stamp_body src src_palette ox oy oz z y x s)
  unfolding stamp_body
  stamp_body-Grown src src_palette ox oy oz z y x s g =
      elim (Bool-cases (get_voxel src x y z == 0)) [
        | inl e ↦ rw e g
        | inr e ↦ elim (Bool-cases (clipped (ox +ℤ x) (oy +ℤ y) (oz +ℤ z))) [
          | inl h ↦ rw (e, h) g
          | inr h ↦
              rw (e, h)
                (put_color-Grown (ox +ℤ x) (oy +ℤ y) (oz +ℤ z)
                  (get_or src_palette (get_voxel src x y z) 0) s h g)
        ]
      ]

  stamp_box-Grown :
      (src : ChunkMap) (src_palette : List ℕ) (ox oy oz : ℤ) (b : Bounds) (s : Stamped)
      → Grown s
      → Grown (stamp_box src src_palette ox oy oz b s)
  unfolding stamp_box stamp_slab stamp_row
  stamp_box-Grown src src_palette ox oy oz b s g =
      loop_ℤ_inv Grown b.zmin b.zmax _ s
        (λ z t z0 z1 h.
          loop_ℤ_inv Grown b.ymin b.ymax _ t
            (λ y u y0 y1 k.
              loop_ℤ_inv Grown b.xmin b.xmax _ u
                (λ x v x0 x1 l. stamp_body-Grown src src_palette ox oy oz z y x v l) k)
            h)
        g

  -- Whatever model is stamped, and wherever, a valid chunk map and a valid palette stay valid,
  -- every colour in use keeps its index, and no voxel outside the grid changes.
  pub stamp_vox-Grown :
      (src : ChunkMap) (src_palette : List ℕ) (ox oy oz : ℤ)
      → Map.IsValid m
      → IsValid p
      → Grown (stamp_vox (m, p) src src_palette ox oy oz)
  unfolding stamp_vox
  stamp_vox-Grown src src_palette ox oy oz v w =
      stamp_box-Grown src src_palette _ _ _ (bounds src) (m, p)
        (record {
          map_valid = v;
          palette_valid = w;
          grows = omega arith;
          same_color = λ j k. refl;
          same_outside = λ x y z k. refl;
        })
