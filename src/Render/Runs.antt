-- ===== src/Render/Runs.antt =====
-- engine/render/Renderer.cpp: the calls of the game in any order.
use voxhammer.Render.Occupancy.{scan_brick-solid, in_brick}
use voxhammer.Base.Int.{ℤ}
use voxhammer.Base.{
  ==_iff, true, if◌then◌else◌, ◌∙◌, refl, none, inr, arith, inl, Bool-cases, ltb, ◌/◌, some, false,
  ◌*◌, Bool, ◌==◌, ◌≡◌, get_or, length, List, Option, ◌<◌, ℕ,
}
use voxhammer.Render.{
  Renderer, brick_dim, brick_index, row_index, build_brick_occupancy, set_voxels, init_buffers,
  set_gi_denoise, set_empty_space_skip, set_gi_debug, set_gi_reproject, shutdown_renderer,
}
use voxhammer.Render.Edit.{edit_voxels}
use voxhammer.Render.Marking.{build_brick_occupancy-scan_brick}
use voxhammer.Render.Current.{Matches, IsCurrent}
use voxhammer.Render.Updates.{built-Matches, set_voxels-IsCurrent, edit_voxels-IsCurrent}

module _ (g : ℕ) where
  pub data Step : Renderer → Renderer → Type 0 where
    swap_grid :
        (grid : List ℕ) (palette : Option (List ℕ)) {d : Renderer}
        → Step d (set_voxels g grid palette d)
    edit_region :
        (x0 y0 z0 x1 y1 z1 : ℤ) (region palette : Option (List ℕ)) {d : Renderer}
        → Step d (edit_voxels g x0 y0 z0 x1 y1 z1 region palette d)
    switch_denoise : (enabled : Bool) {d : Renderer} → Step d (set_gi_denoise enabled d)
    switch_skip : (enabled : Bool) {d : Renderer} → Step d (set_empty_space_skip enabled d)
    switch_debug : (enabled : Bool) {d : Renderer} → Step d (set_gi_debug enabled d)
    switch_reproject : (enabled : Bool) {d : Renderer} → Step d (set_gi_reproject enabled d)
    shut_down : {d : Renderer} → Step d (shutdown_renderer d)

  -- The scene that `Init` falls back to has the size of the grid.
  pub data Reachable : Renderer → Type 0 where
    initialised :
        (voxels : Option (List ℕ)) (scene palette : List ℕ) (d : Renderer)
        → length scene ≡ g * g * g
        → Reachable (init_buffers g voxels scene palette d)
    stepped : {d d' : Renderer} → Reachable d → Step d d' → Reachable d'

  built-IsCurrent : (v : List ℕ) → length v ≡ g * g * g → Matches g v (build_brick_occupancy g v)
  unfolding build_brick_occupancy
  built-IsCurrent v full =
      let enough : ltb (length v) (g * g * g) ≡ false = ground (arith, full) in
      rw enough (built-Matches g v full)

  init_buffers-IsCurrent :
      (voxels : Option (List ℕ)) (scene palette : List ℕ) (d : Renderer)
      → length scene ≡ g * g * g
      → IsCurrent g (init_buffers g voxels scene palette d)
  unfolding init_buffers
  init_buffers-IsCurrent none scene palette d h = (refl, refl, built-IsCurrent scene h)
  init_buffers-IsCurrent (some v) scene palette d h = elim (Bool-cases (length v == g * g * g)) [
    | inl e ↦ rw (init_buffers, e) (refl, refl, built-IsCurrent v (ground arith))
    | inr e ↦ rw (init_buffers, e) (refl, refl, built-IsCurrent scene h)
  ]

  -- A grid of the right size is used.
  pub init_buffers-picks :
      (v scene palette : List ℕ) (d : Renderer)
      → length v ≡ g * g * g
      → IsCurrent g (init_buffers g (some v) scene palette d)
        × ((init_buffers g (some v) scene palette d).voxel_ptr ≡ v)
        × ((init_buffers g (some v) scene palette d).valid ≡ true)
  unfolding init_buffers
  init_buffers-picks v scene palette d h =
      let e : (length v == g * g * g) ≡ true = (==_iff _ _).1 h in
      rw (init_buffers, e) ((refl, refl, built-IsCurrent v h), refl, refl)

  -- A switch restarts the accumulation or does nothing.
  switch-IsCurrent :
      (same : Bool) (d d' : Renderer)
      → IsCurrent g d
      → IsCurrent g d'
      → IsCurrent g (if same then d else d')
  switch-IsCurrent true d d' h h' = h
  switch-IsCurrent false d d' h h' = h'

  Step-IsCurrent : {d d' : Renderer} → Step d d' → IsCurrent g d → IsCurrent g d'
  unfolding set_gi_denoise set_empty_space_skip set_gi_debug set_gi_reproject shutdown_renderer
  Step-IsCurrent (swap_grid grid palette {d}) h = set_voxels-IsCurrent g grid palette d h
  Step-IsCurrent (edit_region x0 y0 z0 x1 y1 z1 region palette {d}) h =
      edit_voxels-IsCurrent g x0 y0 z0 x1 y1 z1 region palette d h
  Step-IsCurrent (switch_denoise enabled {d}) h = switch-IsCurrent _ d _ h h
  Step-IsCurrent (switch_skip enabled {d}) h = switch-IsCurrent _ d _ h h
  Step-IsCurrent (switch_debug enabled {d}) h = switch-IsCurrent _ d _ h h
  Step-IsCurrent (switch_reproject enabled {d}) h = switch-IsCurrent _ d _ h h
  Step-IsCurrent (shut_down {d}) h = h

  -- However `SetVoxels`, `EditVoxels` and the switches follow on `Init`, the marks of the bricks are those
  -- that `BuildBrickOccupancy` computes from the voxels that the shader reads, if the fallback scene
  -- has the size of the grid.
  pub Reachable-IsCurrent : (d : Renderer) → Reachable d → IsCurrent g d
  Reachable-IsCurrent d (initialised voxels scene palette d' h) =
      init_buffers-IsCurrent voxels scene palette d' h
  Reachable-IsCurrent d (stepped r s) = Step-IsCurrent s (Reachable-IsCurrent _ r)

  -- A ray that skips the bricks marked 0 passes no solid voxel: after any calls, the brick of a solid
  -- voxel of the grid is marked 1.
  pub Reachable-marked :
      (d : Renderer) (z y x : ℕ)
      → Reachable d
      → z < g
      → y < g
      → x < g
      → (get_or d.voxel_ptr (row_index g z y x) 0 == 0) ≡ false
      → get_or d.brick_ptr (brick_index g (z / brick_dim) (y / brick_dim) (x / brick_dim)) 0 ≡ 1
  Reachable-marked d z y x r hz hy hx s =
      let (_, _, m) = Reachable-IsCurrent d r in
      let (_, _, bz) = in_brick g z hz in
      let (_, _, by) = in_brick g y hy in
      let (_, _, bx) = in_brick g x hx in
      m.bricks _ _ _ bz by bx
      ∙ build_brick_occupancy-scan_brick g d.voxel_ptr _ _ _ bz by bx m.voxel_length
      ∙ rw (scan_brick-solid g d.voxel_ptr z y x hz hy hx (ground arith)) refl
