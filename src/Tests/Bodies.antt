-- ===== src/Tests/Bodies.antt =====
-- engine/physics: a PhysX that numbers its actors, in a world with one of them acquired.
use voxhammer.Base.Int.{negsuc, pos}
use voxhammer.Base.{
  ltb, if◌then◌else◌, ◌/◌, ◌-◌, ◌+◌, refl, [], false, leb, length, some, none, true, ℕ, ◌≡◌,
}
use voxhammer.Physics.{Px, Impl, World, is_ready, get_elem?}
use voxhammer.Physics.Boxes.{create_pooled_actor}
use voxhammer.Physics.Pooling.{Request, acquire_box, release_box, remove_body}
use voxhammer.Physics.Simulation.{init, new_impl, init_scene, step}
use voxhammer.Physics.Pool.{IsSound}
use voxhammer.Physics.Runs.{Reachable-IsSound, constructed, stepped, init_world, acquire, release}
use voxhammer.Physics.Reuse.{acquire_box-has_state, has_state}
use voxhammer.Physics.Reading.{find_state-enumerate_bodies}
use voxhammer.Physics.Queries.{find_state, enumerate_bodies, get_body_state, body_count}
use voxhammer.Physics.Stepping.{step_lem, Advances, rounds, with_impl, with_accumulator}

-- A real is a number of 60ths of a second, and the state counts the actors and the steps.
abbrev numbered : Px
numbered = record {
  Real = ℕ;
  zero_real = 0;
  nan = 0;
  fixed_step = 1;
  box_half_extent = 1;
  parked_y = 0;
  le = leb;
  add = λ a b. a + b;
  sub = λ a b. a - b;
  half_of = λ a. a / 2;
  max = λ a b. if ltb a b then b else a;
  State = ℕ × ℕ;
  Actor = ℕ;
  make = λ part s. (true, s);
  release_part = λ part s. s;
  create_plane = λ s. (true, s);
  add_plane = λ s. s;
  create_rigid_dynamic = λ x y z s. (some s.0, (s.0 + 1, s.1));
  attach_box = λ a half s. s;
  set_geometry = λ a hx hy hz s. s;
  update_mass = λ a s. s;
  set_linear_velocity = λ a x y z s. s;
  set_angular_velocity = λ a x y z s. s;
  set_position = λ a x y z s. s;
  wake_up = λ a s. s;
  add_actor = λ a s. s;
  remove_actor = λ a s. s;
  release_actor = λ a s. s;
  simulate = λ s. (s.0, s.1 + 1);
  scene_actors = λ s. [];
  is_sleeping = λ a s. false;
  position = λ a s. (a, s.1, 0);
  rotation = λ a s. (0, 0, 0, 1);
}

abbrev request : Request numbered
request = record {
  x = 1;
  y = 2;
  z = 3;
  hx = 1;
  hy = 2;
  hz = 1;
  vx = 0;
  vy = 1;
  vz = 0;
  wx = 0;
  wy = 0;
  wz = 0;
}

abbrev empty_world : World numbered
empty_world = record { impl = none; state = (0, 0) }

abbrev ready_world : World numbered
ready_world = init numbered empty_world

Reachable-IsSound_example :
    IsSound (release_box numbered (pos 0) (acquire_box numbered request ready_world).1).impl
Reachable-IsSound_example =
    Reachable-IsSound (release_box numbered (pos 0) (acquire_box numbered request ready_world).1) (
      stepped (stepped (stepped (constructed (0, 0)) init_world) (acquire request))
        (release (pos 0)))

acquire_box-has_state_example :
    (has_state ready_world 0 ≡ false)
    × (has_state (acquire_box numbered request ready_world).1 0 ≡ true)
unfolding init init_scene new_impl acquire_box is_ready create_pooled_actor get_elem?
acquire_box-has_state_example =
    acquire_box-has_state request 0 0 ready_world
      (Reachable-IsSound ready_world (stepped (constructed (0, 0)) init_world)) refl

find_state-enumerate_bodies_example :
    let w = (acquire_box numbered request ready_world).1 in
    (find_state numbered (enumerate_bodies numbered w) (pos 0) ≡ get_body_state numbered w (pos 0))
    × (length (enumerate_bodies numbered w) ≡ body_count numbered w)
find_state-enumerate_bodies_example =
    find_state-enumerate_bodies numbered (acquire_box numbered request ready_world).1 (pos 0)

abbrev with_scene : Impl numbered
with_scene = record {
  has_foundation = true;
  has_physics = true;
  has_dispatcher = true;
  has_scene = true;
  has_material = true;
  dynamics = [];
  free_list = [];
  accumulator = 0;
}

step_lem_example :
    (n : ℕ) × Advances numbered 8 n 3 (0, 0)
    × (step numbered 3 (record { impl = some with_scene; state = (0, 0) })
        ≡ with_impl numbered (with_accumulator numbered with_scene (rounds numbered n (3, (0, 0)))))
step_lem_example = step_lem numbered 3 with_scene (0, 0) refl refl

-- A parked body that is removed stays on the free list: the next request pops it and gets no body, though
-- PhysX could make one.
abbrev removed_parked : World numbered
removed_parked =
    remove_body numbered (pos 0)
      (release_box numbered (pos 0) (acquire_box numbered request ready_world).1)

acquire_after_remove : (acquire_box numbered request removed_parked).0 ≡ negsuc 0
unfolding remove_body release_box acquire_box init is_ready create_pooled_actor get_elem?
acquire_after_remove = refl
