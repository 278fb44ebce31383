-- ===== src/Game/Shown.antt =====
-- What the renderer shows is the world.
use voxhammer.Base.Pushes.{push_box-get_or, push_box}
use voxhammer.Render.Edit.{
  edit_cells, is_empty_box, clamp_box, write_bricks, write_voxels, Box, edit_box, edit_voxels,
}
use voxhammer.Base.Int.{ℤ, pos}
use voxhammer.Voxel.World.{get_voxel, ChunkMap}
use voxhammer.Base.{
  sym, ◌+◌, false, ◌-◌, [], refl, none, zero, ◌∙◌, inr, inl, suc, Bool-cases, ap, arith, some,
  get_or, true, ◌*◌, ◌∷◌, Option, length, ◌<◌, ◌≡◌, List, ℕ,
}
use voxhammer.Render.{Renderer, row_index, fit, set_voxels, load_voxels, load_bricks, load_palette}
use voxhammer.Render.Current.{edit_cells-read, IsInside, in_box, IsCurrent}
use voxhammer.Render.Updates.{clamp_box-IsInside, edit_box-IsCurrent, set_voxels-IsCurrent}
use voxhammer.Voxel.World.Bake.{bake_flat_grid, flat_index}
use voxhammer.Voxel.World.Bake.Grid.{bake_flat_grid-get_voxel}
use voxhammer.Voxel.World.Map.{IsValid}

fit_full : (n : ℕ) (grid : List ℕ) → length grid ≡ n → fit n grid ≡ grid
unfolding fit
fit_full zero [] h = refl
fit_full zero (v ∷ grid) h = absurd (omega arith)
fit_full (suc n) [] h = absurd (omega arith)
fit_full (suc n) (v ∷ grid) h = ap (λ t. v ∷ t) (fit_full n grid (omega arith))

-- A renderer that works, whose bricks follow its voxels, and whose voxels are those of a world.
pub record Shows (g : ℕ) (m : ChunkMap) (d : Renderer) : Type 0 where
  pub valid : d.valid ≡ true
  pub current : IsCurrent g d
  pub cells :
      (z y x : ℕ)
      → z < g
      → y < g
      → x < g
      → get_or d.voxel_ptr (row_index g z y x) 0 ≡ get_voxel m (pos x) (pos y) (pos z)

module _ (g : ℕ) where
  pub baked-cells :
      (m : ChunkMap) (z y x : ℕ)
      → IsValid m
      → z < g
      → y < g
      → x < g
      → get_or (bake_flat_grid m g) (row_index g z y x) 0 ≡ get_voxel m (pos x) (pos y) (pos z)
  baked-cells m z y x v hz hy hx =
      let (_, r) = bake_flat_grid-get_voxel m g x y z v hx hy hz in
      let same : row_index g z y x ≡ flat_index g z y x = omega arith in
      ap (λ i. get_or (bake_flat_grid m g) i 0) same ∙ r

  set_voxels-fit :
      (grid : List ℕ) (palette : Option (List ℕ)) (d : Renderer)
      → d.valid ≡ true
      → d.voxel_mapped ≡ true
      → d.brick_mapped ≡ true
      → ((set_voxels g grid palette d).valid ≡ true)
        × ((set_voxels g grid palette d).voxel_ptr ≡ fit (g * g * g) grid)
  unfolding set_voxels load_voxels load_bricks load_palette
  set_voxels-fit grid none d v e f = rw (set_voxels, v, load_voxels, e, f) (refl, refl)
  set_voxels-fit grid (some p) d v e f = elim (Bool-cases d.palette_mapped) [
    | inl q ↦ rw (set_voxels, v, load_voxels, e, q, f) (refl, refl)
    | inr q ↦ rw (set_voxels, v, load_voxels, e, q, f) (refl, refl)
  ]

  -- A swapped grid shows the world that was baked.
  pub set_voxels-Shows :
      (m m' : ChunkMap) (palette : Option (List ℕ)) (d : Renderer)
      → IsValid m'
      → length (bake_flat_grid m' g) ≡ g * g * g
      → Shows g m d
      → Shows g m' (set_voxels g (bake_flat_grid m' g) palette d)
  set_voxels-Shows m m' palette d v full s =
      let (e, f, _) = s.current in
      let (on, at) = set_voxels-fit (bake_flat_grid m' g) palette d s.valid e f in
      record {
        valid = on;
        current = set_voxels-IsCurrent g (bake_flat_grid m' g) palette d s.current;
        cells = λ z y x hz hy hx.
            ap (λ l. get_or l (row_index g z y x) 0) (at ∙ fit_full (g * g * g) _ full)
            ∙ baked-cells m' z y x v hz hy hx;
      }

  -- The materials of a box, in the order of `EditVoxels`.
  abbrev pub box_region : ChunkMap → Box → List ℕ
  box_region m b =
      push_box b.z0 b.z1 b.y0 b.y1 b.x0 b.x1 (λ z y x. get_voxel m (pos x) (pos y) (pos z)) []

  box_region-get_or :
      (m : ChunkMap) (b : Box) (z y x : ℕ)
      → in_box g b z y x ≡ true
      → get_or
          (box_region m b)
          (((z - b.z0) * (b.y1 - b.y0) + (y - b.y0)) * (b.x1 - b.x0) + (x - b.x0))
          0
        ≡ get_voxel m (pos x) (pos y) (pos z)
  box_region-get_or m b z y x h =
      push_box-get_or b.z0 b.z1 b.y0 b.y1 b.x0 b.x1 (λ z y x. get_voxel m (pos x) (pos y) (pos z)) z
        y x (ground arith) (ground arith) (ground arith) (ground arith) (ground arith)
        (ground arith)

  edit_box-cells :
      (b : Box) (region : List ℕ) (d : Renderer)
      → d.voxel_mapped ≡ true
      → d.brick_mapped ≡ true
      → ((edit_box g b region none d).valid ≡ d.valid)
        × ((edit_box g b region none d).voxel_ptr ≡ edit_cells g b region d.voxel_ptr)
  unfolding edit_box write_voxels write_bricks load_palette
  edit_box-cells b region d e f = rw (edit_box, write_voxels, e, f) (refl, refl)

  module _ (m m' : ChunkMap) (b : Box) (d : Renderer) (s : Shows g m d)
      (same : (z y x : ℕ)
        → in_box g b z y x ≡ false
        → get_voxel m' (pos x) (pos y) (pos z) ≡ get_voxel m (pos x) (pos y) (pos z)) where
    edit_box-Shows : IsInside g b → Shows g m' (edit_box g b (box_region m' b) none d)
    edit_box-Shows inside =
        let (e, f, t) = s.current in
        let (on, at) = edit_box-cells b (box_region m' b) d e f in
        record {
          valid = on ∙ s.valid;
          current = edit_box-IsCurrent g b (box_region m' b) none d inside s.current;
          cells = λ z y x hz hy hx.
              let (_, r) =
                edit_cells-read g b inside (box_region m' b) d.voxel_ptr z y x hz hy hx
                  t.voxel_length in
              ap (λ l. get_or l (row_index g z y x) 0) at
              ∙ r
              ∙ (elim (Bool-cases (in_box g b z y x)) [
                | inl q ↦ rw q (box_region-get_or m' b z y x q)
                | inr q ↦ rw q (s.cells z y x hz hy hx ∙ sym (same z y x q))
              ]);
        }

    empty-Shows : is_empty_box g b ≡ true → Shows g m' d
    unfolding is_empty_box
    empty-Shows q = record {
      valid = s.valid;
      current = s.current;
      cells = λ z y x hz hy hx. s.cells z y x hz hy hx ∙ sym (same z y x (ground (arith, q)));
    }

  -- An edit by the materials of the new world shows it, if the worlds agree outside the box.
  pub edit_voxels-Shows :
      (m m' : ChunkMap) (x0 y0 z0 x1 y1 z1 : ℤ) (d : Renderer)
      → Shows g m d
      → ((z y x : ℕ)
          → in_box g (clamp_box g x0 y0 z0 x1 y1 z1) z y x ≡ false
          → get_voxel m' (pos x) (pos y) (pos z) ≡ get_voxel m (pos x) (pos y) (pos z))
      → Shows g m' (
          edit_voxels g x0 y0 z0 x1 y1 z1
            (some (box_region m' (clamp_box g x0 y0 z0 x1 y1 z1)))
            none
            d)
  unfolding edit_voxels
  edit_voxels-Shows m m' x0 y0 z0 x1 y1 z1 d s same =
      let b = clamp_box g x0 y0 z0 x1 y1 z1 in
      elim (Bool-cases (is_empty_box g b)) [
        | inl e ↦ simp (edit_voxels, s.valid, e) (empty-Shows m m' b d s same e)
        | inr e ↦
            simp (edit_voxels, s.valid, e)
              (edit_box-Shows m m' b d s same (clamp_box-IsInside g x0 y0 z0 x1 y1 z1 e))
      ]
