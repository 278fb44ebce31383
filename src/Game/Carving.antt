-- ===== src/Game/Carving.antt =====
-- game/main.cpp, `voxel.break` and `voxel.explode`: what is pushed to the renderer covers what is carved.
use voxhammer.Base.Pushes.{push_box}
use voxhammer.Base.{
  inl, inr, not, Bool-cases, [], ltb, leb, ◌∙◌, true, arith, false, ◌&&◌, refl, ◌<◌, ℕ, ◌≡◌,
}
use voxhammer.Base.Int.{ltb_ℤ, ◌*ℤ◌, is_neg, pos, leb_ℤ, max_ℤ, min_ℤ, pos_part, ◌+ℤ◌, ℤ, ◌-ℤ◌}
use voxhammer.Game.{Game, carve_at, region_of, region_lo, region_hi}
use voxhammer.Game.Shown.{Shows, edit_voxels-Shows, box_region}
use voxhammer.Voxel.Coords.{world_dim}
use voxhammer.Voxel.World.{get_voxel, ChunkMap}
use voxhammer.Voxel.World.Map.{IsValid}
use voxhammer.Voxel.World.Carve.{in_grid, carve_sphere, box_lo, box_hi, in_ball}
use voxhammer.Voxel.World.Carve.Ball.{ball_box}
use voxhammer.Voxel.World.Carve.Clears.{carve_sphere-get_voxel}
use voxhammer.Render.Edit.{Box, clamp_box}
use voxhammer.Render.Current.{in_box}

-- The box that is pushed holds the box that is carved.
axis_box :
    (c r : ℤ) (x : ℕ)
    → (leb_ℤ (box_lo c r) (pos x) && ltb_ℤ (pos x) (box_hi c r +ℤ pos 1)) ≡ true
    → (leb (pos_part (max_ℤ (pos 0) (region_lo c r))) x
        && ltb x (pos_part (min_ℤ (pos world_dim) (region_hi c r))))
      ≡ true
unfolding ◌-ℤ◌ ◌+ℤ◌
axis_box c r x h = ground arith

lo_again : (c r : ℤ) → pos_part (region_lo c r) ≡ pos_part (max_ℤ (pos 0) (region_lo c r))
lo_again c r = ground arith

hi_again : (c r : ℤ) → pos_part (region_hi c r) ≡ pos_part (min_ℤ (pos world_dim) (region_hi c r))
hi_again c r = ground arith

push_box-cong :
    (item : ℕ → ℕ → ℕ → ℕ) {z0 z0' z1 z1' y0 y0' y1 y1' x0 x0' x1 x1' : ℕ}
    → z0 ≡ z0'
    → z1 ≡ z1'
    → y0 ≡ y0'
    → y1 ≡ y1'
    → x0 ≡ x0'
    → x1 ≡ x1'
    → push_box z0 z1 y0 y1 x0 x1 item [] ≡ push_box z0' z1' y0' y1' x0' x1' item []
push_box-cong item a b c d e f = rw (a, b, c, d, e, f) refl

module _ (hx hy hz r : ℤ) where
  abbrev carve_clamp : Box
  carve_clamp =
      clamp_box world_dim (region_lo hx r) (region_lo hy r) (region_lo hz r) (region_hi hx r)
        (region_hi hy r) (region_hi hz r)

  region_of-box_region :
      (m : ChunkMap)
      → region_of m
          (region_lo hx r)
          (region_lo hy r)
          (region_lo hz r)
          (region_hi hx r)
          (region_hi hy r)
          (region_hi hz r)
        ≡ box_region world_dim m carve_clamp
  unfolding region_of clamp_box
  region_of-box_region m =
      push_box-cong _ (lo_again hz r) (hi_again hz r) (lo_again hy r) (hi_again hy r)
        (lo_again hx r) (hi_again hx r)

  ball-in_box :
      (z y x : ℕ)
      → z < world_dim
      → y < world_dim
      → x < world_dim
      → is_neg r ≡ false
      → in_ball hx hy hz (r *ℤ r) (pos x) (pos y) (pos z) ≡ true
      → in_box world_dim carve_clamp z y x ≡ true
  unfolding clamp_box
  ball-in_box z y x cz cy cx n h =
      let (bx, by, bz) = ball_box hx hy hz r (pos x) (pos y) (pos z) (ground (arith, n)) h in
      let ax = axis_box hx r x (bx ∙ ground arith) in
      let ay = axis_box hy r y (by ∙ ground arith) in
      let az = axis_box hz r z (bz ∙ ground arith) in rw (ax, ay, az) refl

  -- Carving leaves the voxels out of the box as they are.
  carve_sphere-outside :
      (m : ChunkMap) (z y x : ℕ)
      → IsValid m
      → in_box world_dim carve_clamp z y x ≡ false
      → get_voxel (carve_sphere m hx hy hz r).0 (pos x) (pos y) (pos z)
        ≡ get_voxel m (pos x) (pos y) (pos z)
  carve_sphere-outside m z y x v out =
      let inside = in_grid (pos x) (pos y) (pos z) in
      let ball = in_ball hx hy hz (r *ℤ r) (pos x) (pos y) (pos z) in
      let (_, e) = carve_sphere-get_voxel m hx hy hz r (pos x) (pos y) (pos z) v in
      e ∙ (elim (Bool-cases (not (is_neg r) && (inside && ball))) [
        | inr q ↦ rw q refl
        | inl q ↦
            let within : in_box world_dim carve_clamp z y x ≡ true =
              ball-in_box z y x (ground arith) (ground arith) (ground arith) (ground arith)
                (ground arith) in
            absurd (ground arith)
      ])

  pub carve_at-Shows :
      (s : Game)
      → IsValid s.world.0
      → Shows world_dim s.world.0 s.renderer
      → IsValid (carve_at hx hy hz r s).0.world.0
        × Shows world_dim (carve_at hx hy hz r s).0.world.0 (carve_at hx hy hz r s).0.renderer
  unfolding carve_at
  carve_at-Shows s v h =
      let m = s.world.0 in
      let m' = (carve_sphere m hx hy hz r).0 in
      (
        (carve_sphere-get_voxel m hx hy hz r (pos 0) (pos 0) (pos 0) v).0,
        rw (region_of-box_region m') (
            edit_voxels-Shows world_dim m m' (region_lo hx r) (region_lo hy r) (region_lo hz r)
              (region_hi hx r) (region_hi hy r) (region_hi hz r) s.renderer h
              (λ z y x out. carve_sphere-outside m z y x v out)),
      )
