-- ===== src/Physics/Pooling.antt =====
-- engine/physics/PhysicsWorld.cpp: the pool of actors, `AcquireBox` and `ReleaseBox`, and what removes
-- bodies.
use voxhammer.Base.Int.{pos, pos_part, ℤ}
use voxhammer.Base.{
  true, is_nil, suc, ◌&&◌, false, none, not, ◌∷◌, [], if◌then◌else◌, set, ℕ, some, Bool, List,
  Option,
}
use voxhammer.Physics.{Px, Body, Impl, World, get_elem?, slot, is_ready, no_id}
use voxhammer.Physics.Boxes.{create_pooled_actor, or_default, Made}

module _ (px : Px) where
  open px use {State, Real, Actor}

  -- What `AcquireBox` is asked for.
  pub record Request : Type 0 where
    pub x : Real
    pub y : Real
    pub z : Real
    pub hx : Real
    pub hy : Real
    pub hz : Real
    pub vx : Real
    pub vy : Real
    pub vz : Real
    pub wx : Real
    pub wy : Real
    pub wz : Real

  -- The actor of a slot is reset and enters the scene.
  unfoldable pub launch : Request → Actor → State → State
  launch r a s =
      let sized =
        px.set_geometry a (or_default px r.hx) (or_default px r.hy) (or_default px r.hz) s in
      let posed = px.set_position a r.x r.y r.z (px.update_mass a sized) in
      let moving = px.set_linear_velocity a r.vx r.vy r.vz posed in
      px.wake_up a (px.add_actor a (px.set_angular_velocity a r.wx r.wy r.wz moving))

  -- From the slot that was popped on.
  unfoldable pub acquire_slot : Request → ℕ → Impl px → State → Option (Body px) → Made px
  acquire_slot r i im s none = (no_id, record { impl = some im; state = s })
  acquire_slot r i im s (some b) = take b.actor
    where
      take : Option Actor → Made px
      take none = (no_id, record { impl = some im; state = s })
      take (some a) =
          let half =
            px.max (or_default px r.hx) (px.max (or_default px r.hy) (or_default px r.hz)) in
          let b' = record b { half = half; in_scene = true } in
          (
            pos i,
            record {
              impl = some (record im { dynamics = set im.dynamics i b' });
              state = launch r a s;
            },
          )

  -- The pop, where there is a free slot.
  unfoldable pub acquire_from : Request → Impl px → State → List ℕ → Made px
  unfolding acquire_slot
  acquire_from r im s [] = (no_id, record { impl = some im; state = s })
  acquire_from r im s (i ∷ rest) =
      acquire_slot r i (record im { free_list = rest }) s (get_elem? im.dynamics i)

  -- `AcquireBox`
  unfoldable pub acquire_box : Request → World px → Made px
  unfolding acquire_from
  acquire_box r w = go w.impl
    where
      grown : Bool × Impl px × State → Made px
      grown (made, im, s) =
          if made
          then acquire_from r im s im.free_list
          else (no_id, record { impl = some im; state = s })

      go : Option (Impl px) → Made px
      go none = (no_id, w)
      go (some im) =
          if not (is_ready im)
          then (no_id, w)
          else if is_nil im.free_list
          then grown (create_pooled_actor px (im, w.state))
          else acquire_from r im w.state im.free_list

  unfoldable pub remove_if : Bool → Actor → State → State
  remove_if has a s = if has then px.remove_actor a s else s

  -- The actor is stopped and moved far below the world.
  park : Actor → State → State
  park a s =
      let zero_real = px.zero_real in
      let stopped = px.set_linear_velocity a zero_real zero_real zero_real s in
      px.set_position a zero_real px.parked_y zero_real
        (px.set_angular_velocity a zero_real zero_real zero_real stopped)

  -- `ReleaseBox`
  unfoldable pub release_box : ℤ → World px → World px
  unfolding remove_if park slot
  release_box id w = go w.impl
    where
      release_slot : Impl px → Body px → Option Actor → World px
      release_slot im b none = w
      release_slot im b (some a) =
          if not (b.pooled && b.in_scene)
          then w
          else let i = pos_part id in
            record {
              impl = some (record im {
                dynamics = set im.dynamics i (record b { in_scene = false });
                free_list = i ∷ im.free_list;
              });
              state = park a (remove_if im.has_scene a w.state);
            }

      at : Impl px → Option (Body px) → World px
      at im none = w
      at im (some b) = release_slot im b b.actor

      go : Option (Impl px) → World px
      go none = w
      go (some im) = at im (slot im id)

  -- `RemoveBody`
  unfoldable pub remove_body : ℤ → World px → World px
  unfolding remove_if slot
  remove_body id w = go w.impl
    where
      remove_slot : Impl px → Body px → Option Actor → World px
      remove_slot im b none = w
      remove_slot im b (some a) = record {
        impl =
            some
              (record im { dynamics = set im.dynamics (pos_part id) (record b { actor = none }) });
        state = px.release_actor a (remove_if im.has_scene a w.state);
      }

      at : Impl px → Option (Body px) → World px
      at im none = w
      at im (some b) = remove_slot im b b.actor

      go : Option (Impl px) → World px
      go none = w
      go (some im) = at im (slot im id)

  -- A body, the slots parked so far and PhysX after the round of `ClearDynamics` at slot `i`.
  unfoldable pub clear_body :
      Bool → ℕ → Body px → Option Actor → List ℕ → State → Body px × List ℕ × State
  unfolding remove_if park
  clear_body has i b none free s = (b, free, s)
  clear_body has i b (some a) free s =
      if b.pooled
      then (if b.in_scene
          then (record b { in_scene = false }, i ∷ free, park a (remove_if has a s))
          else (b, i ∷ free, s))
      else (record b { actor = none }, free, px.release_actor a (remove_if has a s))

  -- The loop of `ClearDynamics` from slot `i` on.
  unfoldable pub clear_bodies :
      Bool → ℕ → List (Body px) → List ℕ → State → List (Body px) × List ℕ × State
  unfolding clear_body
  clear_bodies has i [] free s = ([], free, s)
  clear_bodies has i (b ∷ bodies) free s =
      let (b', free', s') = clear_body has i b b.actor free s in
      let (bodies', free'', s'') = clear_bodies has (suc i) bodies free' s' in
      (b' ∷ bodies', free'', s'')

  -- `ClearDynamics`
  unfoldable pub clear_dynamics : World px → World px
  unfolding clear_bodies
  clear_dynamics w = go w.impl
    where
      go : Option (Impl px) → World px
      go none = w
      go (some im) =
          let (bodies, free, s) = clear_bodies im.has_scene 0 im.dynamics [] w.state in
          record { impl = some (record im { dynamics = bodies; free_list = free }); state = s }
