-- ===== src/Physics/Simulation.antt =====
-- engine/physics/PhysicsWorld.cpp: `Init`, `Shutdown`, `Step`, `ActiveIslands` and `AddGroundPlane`.
use voxhammer.Base.{
  true, ◌&&◌, ◌+◌, ◌||◌, [], none, not, zero, ◌∷◌, suc, some, Bool, List, Option, false,
  if◌then◌else◌, ℕ,
}
use voxhammer.Physics.{
  is_some, is_ready, Px, Body, Impl, World, Part, foundation, physics, dispatcher, scene, material,
}

module _ (px : Px) where
  open px use {State}

  unfoldable pub new_impl : Impl px
  new_impl = record {
    has_foundation = false;
    has_physics = false;
    has_dispatcher = false;
    has_scene = false;
    has_material = false;
    dynamics = [];
    free_list = [];
    accumulator = px.zero_real;
  }

  -- The loop of `Shutdown` over the bodies.
  unfoldable pub release_parked : List (Body px) → State → State
  release_parked [] s = s
  release_parked (b ∷ bodies) s = release_parked bodies (release_one b b.actor s)
    where
      release_one : Body px → Option px.Actor → State → State
      release_one b none s = s
      release_one b (some a) s = if b.pooled && not b.in_scene then px.release_actor a s else s

  unfoldable pub release_if : Bool → Part → State → State
  release_if has part s = if has then px.release_part part s else s

  -- `Shutdown`
  unfoldable pub shutdown : World px → World px
  unfolding release_parked release_if
  shutdown w = shut w.impl w.state
    where
      shut : Option (Impl px) → State → World px
      shut none s = record { impl = none; state = s }
      shut (some im) s = record {
        impl = none;
        state = release_if im.has_foundation foundation (
            release_if im.has_physics physics (
              release_if im.has_material material (
                release_if im.has_dispatcher dispatcher
                  (release_if im.has_scene scene (release_parked im.dynamics s)))));
      }

  -- `Init`, from the creation of the scene on.
  unfoldable pub init_scene : Impl px → State → World px
  unfolding shutdown
  init_scene im s =
      let (dispatched, with_dispatcher) = px.make dispatcher s in
      let (made, with_scene) = px.make scene with_dispatcher in
      if not made
      then shutdown
          (record { impl = some (record im { has_dispatcher = dispatched }); state = with_scene })
      else let (has, with_material) = px.make material with_scene in
        record {
          impl =
              some
                (record im { has_dispatcher = dispatched; has_scene = true; has_material = has });
          state = with_material;
        }

  -- `Init`
  unfoldable pub init : World px → World px
  unfolding new_impl shutdown init_scene
  init w =
      if is_some w.impl
      then w
      else let (founded, with_foundation) = px.make foundation w.state in
        if not founded
        then record { impl = none; state = with_foundation }
        else let im = record new_impl { has_foundation = true } in
          let (made, with_physics) = px.make physics with_foundation in
          if not made
          then shutdown (record { impl = some im; state = with_physics })
          else init_scene (record im { has_physics = true }) with_physics

  -- The loop of `Step`, which ends after `left` rounds.
  unfoldable pub substeps : ℕ → Impl px → State → Impl px × State
  substeps zero im s = (im, s)
  substeps (suc left) im s =
      let after =
        substeps left (record im { accumulator = px.sub im.accumulator px.fixed_step })
          (px.simulate s) in
      if px.le px.fixed_step im.accumulator then after else (im, s)

  -- `Step`
  unfoldable pub step : px.Real → World px → World px
  unfolding substeps
  step dt w = go w.impl
    where
      go : Option (Impl px) → World px
      go none = w
      go (some im) =
          if not im.has_scene || px.le dt px.zero_real
          then w
          else let (im', s) =
              substeps 8 (record im { accumulator = px.add im.accumulator dt }) w.state in
            record { impl = some im'; state = s }

  unfoldable pub count_awake : State → List px.Actor → ℕ
  count_awake s [] = 0
  count_awake s (a ∷ actors) =
      if px.is_sleeping a s then count_awake s actors else count_awake s actors + 1

  -- `ActiveIslands`
  unfoldable pub active_islands : World px → ℕ
  unfolding count_awake
  active_islands w = go w.impl
    where
      go : Option (Impl px) → ℕ
      go none = 0
      go (some im) = if im.has_scene then count_awake w.state (px.scene_actors w.state) else 0

  -- `AddGroundPlane`
  unfoldable pub add_ground_plane : World px → World px
  unfolding is_ready
  add_ground_plane w = go w.impl
    where
      go : Option (Impl px) → World px
      go none = w
      go (some im) =
          if not (is_ready im)
          then w
          else let (made, s) = px.create_plane w.state in
            record w { state = if made then px.add_plane s else s }
