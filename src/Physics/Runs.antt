-- ===== src/Physics/Runs.antt =====
-- The physics world as the game runs it: its operations in any order.
use voxhammer.Base.Int.{ℤ}
use voxhammer.Physics.Pool.{IsSound}
use voxhammer.Base.{none}
use voxhammer.Physics.Boxes.{reserve_pool, add_box, add_dynamic_box}
use voxhammer.Physics.{Px, World}
use voxhammer.Physics.Simulation.{init, shutdown, step, add_ground_plane}
use voxhammer.Physics.Pooling.{clear_dynamics, Request, release_box, remove_body, acquire_box}
use voxhammer.Physics.Soundness.{
  clear-IsSound, remove-IsSound, acquire-IsSound, reserve-IsSound, add_box-IsSound,
  add_dynamic_box-IsSound, plane-IsSound, step-IsSound, init-IsSound, shutdown-IsSound,
  release-IsSound,
}

module _ {px : Px} where
  -- What the game calls; queries change nothing.
  pub data Step : World px → World px → Type 0 where
    init_world : {w : World px} → Step w (init px w)
    shut_down : {w : World px} → Step w (shutdown px w)
    advance : (dt : px.Real) {w : World px} → Step w (step px dt w)
    add_plane : {w : World px} → Step w (add_ground_plane px w)
    add_dynamic : (x y z : px.Real) {w : World px} → Step w (add_dynamic_box px x y z w).1
    add_cube :
        (x y z half vx vy vz : px.Real) {w : World px} → Step w (add_box px x y z half vx vy vz w).1
    reserve : (count : ℤ) {w : World px} → Step w (reserve_pool px count w)
    acquire : (r : Request px) {w : World px} → Step w (acquire_box px r w).1
    release : (id : ℤ) {w : World px} → Step w (release_box px id w)
    remove : (id : ℤ) {w : World px} → Step w (remove_body px id w)
    clear : {w : World px} → Step w (clear_dynamics px w)

  pub data Reachable : World px → Type 0 where
    constructed : (s : px.State) → Reachable (record { impl = none; state = s })
    stepped : {v w : World px} → Reachable v → Step v w → Reachable w

  Step-IsSound : {v w : World px} → Step v w → IsSound v.impl → IsSound w.impl
  Step-IsSound (init_world {w}) h = init-IsSound w.impl w.state h
  Step-IsSound (shut_down {w}) h = shutdown-IsSound w.impl w.state
  Step-IsSound (advance dt {w}) h = step-IsSound dt w.impl w.state h
  Step-IsSound (add_plane {w}) h = plane-IsSound w.impl w.state h
  Step-IsSound (add_dynamic x y z {w}) h = add_dynamic_box-IsSound x y z w h
  Step-IsSound (add_cube x y z half vx vy vz {w}) h = add_box-IsSound x y z half vx vy vz w h
  Step-IsSound (reserve count {w}) h = reserve-IsSound count w.impl w.state h
  Step-IsSound (acquire r {w}) h = acquire-IsSound r w.impl w.state h
  Step-IsSound (release id {w}) h = release-IsSound id w.impl w.state h
  Step-IsSound (remove id {w}) h = remove-IsSound id w.impl w.state h
  Step-IsSound (clear {w}) h = clear-IsSound w.impl w.state h

  -- However the operations follow each other, and whatever PhysX does: a slot is on the free list at
  -- most once, only parked bodies are on it, and every parked body that has its actor is on it.
  pub Reachable-IsSound : (w : World px) → Reachable w → IsSound w.impl
  Reachable-IsSound w (constructed s) = tt
  Reachable-IsSound w (stepped r s) = Step-IsSound s (Reachable-IsSound _ r)
