-- ===== src/Physics/Boxes.antt =====
-- engine/physics/PhysicsWorld.cpp: the bodies, with the pool of actors that are used again.
use voxhammer.Base.Int.{pos_part, leb_ℤ, pos, ℤ}
use voxhammer.Base.{
  ◌-◌, zero, ◌+◌, suc, List, ℕ, length, [], none, true, false, not, ◌∷◌, Bool, Option,
  if◌then◌else◌, some, ◌++◌,
}
use voxhammer.Physics.{Px, Body, Impl, World, is_ready, no_id}

module _ (px : Px) where
  open px use {State, Real, Actor}

  -- A new body: the actor with its box and its mass.
  unfoldable pub make_box : Actor → Real → State → State
  make_box a half s = px.update_mass a (px.attach_box a half s)

  pub or_default : Real → Real
  or_default half = if px.le half px.zero_real then px.box_half_extent else half

  unfoldable pub push_body : Body px → Impl px → Impl px
  push_body b im = record im { dynamics = im.dynamics ++ b ∷ [] }

  -- The result of an operation on a ready world: the id and what is left.
  abbrev pub Made : Type 0
  Made = ℤ × World px

  -- The guard, and the creation of an actor, of `AddDynamicBox` and `AddBox`.
  unfoldable pub with_actor : World px → (x y z : Real) → (Impl px → Actor → State → Made) → Made
  with_actor w x y z use_it = go w.impl
    where
      created : Impl px → Option Actor × State → Made
      created im (none, s) = (no_id, record w { state = s })
      created im (some a, s) = use_it im a s

      go : Option (Impl px) → Made
      go none = (no_id, w)
      go (some im) =
          if not (is_ready im)
          then (no_id, w)
          else created im (px.create_rigid_dynamic x y z w.state)

  -- `AddDynamicBox`
  unfoldable pub add_dynamic_box : (x y z : Real) → World px → Made
  unfolding with_actor
  add_dynamic_box x y z w = with_actor w x y z λ im a s.
      let b : Body px = record {
        actor = some a;
        half = px.box_half_extent;
        pooled = false;
        in_scene = false;
      } in
      (
        pos (length im.dynamics),
        record {
          impl = some (push_body b im);
          state = px.add_actor a (make_box a px.box_half_extent s);
        },
      )

  -- `AddBox`
  unfoldable pub add_box : (x y z half vx vy vz : Real) → World px → Made
  unfolding with_actor or_default
  add_box x y z half vx vy vz w =
      let half' = or_default half in
      with_actor w x y z λ im a s.
        let b : Body px = record {
          actor = some a;
          half = half';
          pooled = false;
          in_scene = true;
        } in
        let moving = px.set_linear_velocity a vx vy vz (make_box a half' s) in
        let spinning =
          px.set_angular_velocity a (px.half_of vy) (px.half_of vx) (px.half_of vz) moving in
        (
          pos (length im.dynamics),
          record { impl = some (push_body b im); state = px.add_actor a spinning },
        )

  -- `CreatePooledActor`, with whether it succeeded.
  unfoldable pub create_pooled_actor : Impl px × State → Bool × Impl px × State
  create_pooled_actor (im, s) =
      if not (is_ready im)
      then (false, im, s)
      else created (px.create_rigid_dynamic px.zero_real px.parked_y px.zero_real s)
    where
      created : Option Actor × State → Bool × Impl px × State
      created (none, s') = (false, im, s')
      created (some a, s') =
          let b : Body px = record {
            actor = some a;
            half = px.box_half_extent;
            pooled = true;
            in_scene = false;
          } in
          (
            true,
            record im {
              dynamics = im.dynamics ++ b ∷ [];
              free_list = length im.dynamics ∷ im.free_list;
            },
            make_box a px.box_half_extent s',
          )

  unfoldable pub count_pooled : List (Body px) → ℕ
  count_pooled [] = 0
  count_pooled (b ∷ bodies) = if b.pooled then count_pooled bodies + 1 else count_pooled bodies

  -- The loop of `ReservePool`, with the rounds that are left.
  unfoldable pub grow_pool : ℕ → Impl px × State → Impl px × State
  grow_pool zero st = st
  grow_pool (suc left) st =
      let (made, im', s') = create_pooled_actor st in
      let rest = grow_pool left (im', s') in if made then rest else (im', s')

  unfoldable pub put : World px → Impl px × State → World px
  put w (im, s) = record w { impl = some im; state = s }

  -- `ReservePool`
  unfoldable pub reserve_pool : ℤ → World px → World px
  unfolding put
  reserve_pool count w = go w.impl
    where
      go : Option (Impl px) → World px
      go none = w
      go (some im) =
          if leb_ℤ count (pos 0)
          then w
          else put w (grow_pool (pos_part count - count_pooled im.dynamics) (im, w.state))
