-- ===== src/Physics.antt =====
-- engine/physics/PhysicsWorld.h and PhysicsWorld.cpp, the build with PhysX: the world's own state. PhysX
-- is a parameter, a state that its calls change; so is `float`.
pub mod Boxes
pub mod Slots
pub mod Pool
pub mod Reuse
pub mod Reading
pub mod Stepping
pub mod Soundness
pub mod Clearing
pub mod Runs
pub mod Pooling
pub mod Simulation
pub mod Queries
use voxhammer.Base.{
  zero, ◌||◌, suc, ℕ, List, [], ◌∷◌, Option, none, some, Bool, true, false, not, ◌&&◌,
}
use voxhammer.Base.Int.{ℤ, pos, negsuc}

-- The objects that `Init` makes.
pub data Part : Type 0 where
  foundation physics dispatcher scene material : Part

pub record Px : Type 1 where
  pub Real : Type 0
  pub zero_real : Real
  pub nan : Real
  pub fixed_step : Real
  pub box_half_extent : Real
  pub parked_y : Real
  pub le : Real → Real → Bool
  pub add : Real → Real → Real
  pub sub : Real → Real → Real
  pub half_of : Real → Real
  pub max : Real → Real → Real
  -- What PhysX holds: its actors, their poses and the scene.
  pub State : Type 0
  pub Actor : Type 0
  -- Whether the object was made.
  pub make : Part → State → Bool × State
  pub release_part : Part → State → State
  pub create_plane : State → Bool × State
  pub add_plane : State → State
  pub create_rigid_dynamic : (x y z : Real) → State → Option Actor × State
  -- `createShape`, `attachShape` and the release of the shape.
  pub attach_box : Actor → (half : Real) → State → State
  -- `getShapes` and `setGeometry`, where the actor has a shape.
  pub set_geometry : Actor → (hx hy hz : Real) → State → State
  pub update_mass : Actor → State → State
  pub set_linear_velocity : Actor → (x y z : Real) → State → State
  pub set_angular_velocity : Actor → (x y z : Real) → State → State
  pub set_position : Actor → (x y z : Real) → State → State
  pub wake_up : Actor → State → State
  pub add_actor : Actor → State → State
  pub remove_actor : Actor → State → State
  pub release_actor : Actor → State → State
  -- `simulate` of a fixed step, and `fetchResults`.
  pub simulate : State → State
  pub scene_actors : State → List Actor
  pub is_sleeping : Actor → State → Bool
  pub position : Actor → State → Real × Real × Real
  pub rotation : Actor → State → Real × Real × Real × Real

-- `Impl::Body`
pub record Body (px : Px) : Type 0 where
  pub actor : Option px.Actor
  pub half : px.Real
  pub pooled : Bool
  pub in_scene : Bool

-- `Impl`; the back of the vector `freeList` is the head of `free_list`.
pub record Impl (px : Px) : Type 0 where
  pub has_foundation : Bool
  pub has_physics : Bool
  pub has_dispatcher : Bool
  pub has_scene : Bool
  pub has_material : Bool
  pub dynamics : List (Body px)
  pub free_list : List ℕ
  pub accumulator : px.Real

-- `PhysicsWorld`, with the state of PhysX.
pub record World (px : Px) : Type 0 where
  pub impl : Option (Impl px)
  pub state : px.State

-- `dynamics[i]`
unfoldable pub get_elem? {ℓ} : {A : Type ℓ} → List A → ℕ → Option A
get_elem? [] i = none
get_elem? (x ∷ xs) zero = some x
get_elem? (x ∷ xs) (suc i) = get_elem? xs i

-- The slot of an id that is in range.
unfoldable pub slot : {px : Px} → Impl px → ℤ → Option (Body px)
slot im (pos i) = get_elem? im.dynamics i
slot im (negsuc i) = none

-- Whether a pointer is not null.
abbrev pub is_some {ℓ} : {A : Type ℓ} → Option A → Bool
is_some none = false
is_some (some a) = true

-- `b.actor && (!b.pooled || b.inScene)`: neither removed nor parked.
unfoldable pub is_live : {px : Px} → Body px → Bool
is_live b = is_some b.actor && (not b.pooled || b.in_scene)

-- The check at the head of what makes or moves bodies.
unfoldable pub is_ready : {px : Px} → Impl px → Bool
is_ready im = im.has_scene && im.has_physics && im.has_material

-- The id that says that there is none.
abbrev pub no_id : ℤ
no_id = negsuc 0
