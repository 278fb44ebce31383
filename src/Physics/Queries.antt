-- ===== src/Physics/Queries.antt =====
-- engine/physics/PhysicsWorld.cpp: what is read of the bodies.
use voxhammer.Base.{not, ◌&&◌, ◌+◌, [], if◌then◌else◌, none, suc, some, Option, ◌∷◌, List, ℕ}
use voxhammer.Base.Int.{◌==ℤ◌, pos_part, pos, ℤ}
use voxhammer.Physics.{Px, Body, Impl, World, slot, is_live}

module _ (px : Px) where
  open px use {Real, Actor, State}

  -- `BodyState`
  pub record BodyState : Type 0 where
    pub id : ℤ
    pub pose : Real × Real × Real
    pub turn : Real × Real × Real × Real

  unfoldable pub state_of : ℕ → Actor → State → BodyState
  state_of i a s = record { id = pos i; pose = px.position a s; turn = px.rotation a s }

  -- The pose of a slot that is neither removed nor parked.
  unfoldable pub live_state : ℕ → Body px → State → Option BodyState
  unfolding state_of is_live
  live_state i b s = go b.actor
    where
      go : Option Actor → Option BodyState
      go none = none
      go (some a) = if b.pooled && not b.in_scene then none else some (state_of i a s)

  -- `GetBodyState`
  unfoldable pub get_body_state : World px → ℤ → Option BodyState
  unfolding live_state slot
  get_body_state w id = go w.impl
    where
      at : Option (Body px) → Option BodyState
      at none = none
      at (some b) = live_state (pos_part id) b w.state

      go : Option (Impl px) → Option BodyState
      go none = none
      go (some im) = at (slot im id)

  -- `BodyY`, and `BodyPosY`.
  unfoldable pub body_y : World px → ℤ → Real
  unfolding get_body_state
  body_y w id = go w.impl
    where
      height : Body px → Option Actor → Real
      height b none = px.nan
      height b (some a) = if b.pooled && not b.in_scene then px.nan else (px.position a w.state).1

      at : Option (Body px) → Real
      at none = px.nan
      at (some b) = height b b.actor

      go : Option (Impl px) → Real
      go none = px.nan
      go (some im) = at (slot im id)

  -- The body is left out if it is removed or parked.
  abbrev pub keep : Option BodyState → List BodyState → List BodyState
  keep none rest = rest
  keep (some st) rest = st ∷ rest

  -- The loop of `EnumerateBodies` from slot `i` on.
  unfoldable pub enumerate_from : ℕ → List (Body px) → State → List BodyState
  unfolding live_state
  enumerate_from i [] s = []
  enumerate_from i (b ∷ bodies) s =
      let rest = enumerate_from (suc i) bodies s in keep (live_state i b s) rest

  -- `EnumerateBodies`
  unfoldable pub enumerate_bodies : World px → List BodyState
  unfolding enumerate_from
  enumerate_bodies w = go w.impl
    where
      go : Option (Impl px) → List BodyState
      go none = []
      go (some im) = enumerate_from 0 im.dynamics w.state

  unfoldable pub count_live : List (Body px) → ℕ
  unfolding is_live
  count_live [] = 0
  count_live (b ∷ bodies) = if is_live b then count_live bodies + 1 else count_live bodies

  -- `BodyCount`
  unfoldable pub body_count : World px → ℕ
  unfolding count_live
  body_count w = go w.impl
    where
      go : Option (Impl px) → ℕ
      go none = 0
      go (some im) = count_live im.dynamics

  -- `FindState`, of game/main.cpp.
  unfoldable pub find_state : List BodyState → ℤ → Option BodyState
  find_state [] id = none
  find_state (st ∷ v) id = if st.id ==ℤ id then some st else find_state v id
