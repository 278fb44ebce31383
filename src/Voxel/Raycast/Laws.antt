-- ===== src/Voxel/Raycast/Laws.antt =====
-- engine/voxel/VoxelWorld.cpp, `RaycastSolid`: the march against the plain search along the ray.
use voxhammer.Base.Int.{ℤ, ◌+ℤ◌}
use voxhammer.Voxel.World.{ChunkMap}
use voxhammer.Voxel.Raycast.{
  RayFloats, Cell, Vec3, March, in_bounds, has_passed, has_left, advance_march, is_solid, march,
}
use voxhammer.Base.{
  not, some, refl, false, zero, ◌&&◌, arith, if◌then◌else◌, true, suc, none, ◌≡◌, ℕ, Option,
}

has_passed-+ℤ : (s v : ℤ) → has_passed s v ≡ true → has_passed s (v +ℤ s) ≡ true
unfolding has_passed ◌+ℤ◌
has_passed-+ℤ s v h = ground arith

has_left-in_bounds : (s c : Cell) → has_left s c ≡ true → in_bounds c ≡ false
unfolding has_left has_passed in_bounds
has_left-in_bounds s c h = ground arith

-- What IEEE 754 gives for floats that are at least zero, which are not NaN.
pub record IsOrdered (fl : RayFloats) : Type 0 where
  pub le_trans : (a b c : fl.F) → fl.le a b ≡ true → fl.le b c ≡ true → fl.le a c ≡ true
  pub lt-le_trans : (a b c : fl.F) → fl.lt a b ≡ true → fl.le b c ≡ true → fl.lt a c ≡ true
  pub le_total :
      (a b : fl.F)
      → fl.le fl.zero_f a ≡ true
      → fl.le fl.zero_f b ≡ true
      → fl.le a b ≡ false
      → fl.le b a ≡ true
  pub le_add :
      (a d : fl.F)
      → fl.le fl.zero_f a ≡ true
      → fl.le fl.zero_f d ≡ true
      → fl.le a (fl.add a d) ≡ true

module _ (fl : RayFloats) where
  open fl use {F}

  -- No component is negative.
  abbrev pub IsPositive : Vec3 fl → Type 0
  IsPositive d =
      (fl.le fl.zero_f d.x ≡ true) × (fl.le fl.zero_f d.y ≡ true) × (fl.le fl.zero_f d.z ≡ true)

  -- The next boundaries are not behind the one that was reached.
  abbrev pub IsAhead : March fl → Type 0
  IsAhead m =
      IsPositive m.t_max
      × (fl.le m.t m.t_max.x ≡ true)
      × (fl.le m.t m.t_max.y ≡ true)
      × (fl.le m.t m.t_max.z ≡ true)

  module _ (laws : IsOrdered fl) where
    -- A boundary, and the one after it on its axis.
    next_boundary :
        (a d : F)
        → fl.le fl.zero_f a ≡ true
        → fl.le fl.zero_f d ≡ true
        → (fl.le a (fl.add a d) ≡ true) × (fl.le fl.zero_f (fl.add a d) ≡ true)
    next_boundary a d p q =
        let up = laws.le_add a d p q in (up, laws.le_trans fl.zero_f a (fl.add a d) p up)

    advance_march-IsAhead :
        (step : Cell) (delta : Vec3 fl) (m : March fl)
        → IsPositive delta
        → IsAhead m
        → IsAhead (advance_march fl step delta m)
          × (fl.le m.t (advance_march fl step delta m).t ≡ true)
    unfolding advance_march
    advance_march-IsAhead step delta m (dx, dy, dz) ((px, py, pz), lx, ly, lz) =
        let x = m.t_max.x in
        let y = m.t_max.y in
        let z = m.t_max.z in
        ground (
          arith,
          next_boundary x delta.x px dx,
          next_boundary y delta.y py dy,
          next_boundary z delta.z pz dz,
          laws.le_total x y px py,
          laws.le_total x z px pz,
          laws.le_total y z py pz,
          laws.le_trans y x z,
          laws.le_trans z x y,
          laws.le_trans z y x,
          laws.le_trans x y z,
          laws.le_trans x z y,
          laws.le_trans y z x,
        )

  -- A cell that is past the grid stays past it.
  has_left-advance_march :
      (step : Cell) (delta : Vec3 fl) (m : March fl)
      → has_left step m.cell ≡ true
      → has_left step (advance_march fl step delta m).cell ≡ true
  unfolding has_left advance_march
  has_left-advance_march step delta m h = ground (
    arith,
    has_passed-+ℤ step.x m.cell.x,
    has_passed-+ℤ step.y m.cell.y,
    has_passed-+ℤ step.z m.cell.z,
  )

  module _ (world : ChunkMap) (max_dist : F) (step : Cell) (delta : Vec3 fl) where
    -- The first of some cells along the ray that is in the grid, solid and within the distance.
    unfoldable pub first_solid : ℕ → March fl → Option Cell
    first_solid zero m = none
    first_solid (suc n) m =
        let m' = advance_march fl step delta m in
        let rest = first_solid n m' in
        if not (fl.lt max_dist m'.t) && in_bounds m'.cell && is_solid fl world m'.cell
        then some m'.cell
        else rest

    first_solid-has_left :
        (n : ℕ) (m : March fl) → has_left step m.cell ≡ true → first_solid n m ≡ none
    unfolding first_solid
    first_solid-has_left zero m h = refl
    first_solid-has_left (suc n) m h =
        let m' = advance_march fl step delta m in
        let h' = has_left-advance_march step delta m h in
        let out = has_left-in_bounds step m'.cell h' in
        let rest = first_solid-has_left n m' h' in ground (arith, out, rest)

    module _ (laws : IsOrdered fl) (grows : IsPositive delta) where
      first_solid-far :
          (n : ℕ) (m : March fl) → IsAhead m → fl.lt max_dist m.t ≡ true → first_solid n m ≡ none
      unfolding first_solid
      first_solid-far zero m a h = refl
      first_solid-far (suc n) m a h =
          let m' = advance_march fl step delta m in
          let (a', later) = advance_march-IsAhead laws step delta m grows a in
          let h' = laws.lt-le_trans max_dist m.t m'.t h later in
          let rest = first_solid-far n m' a' h' in ground (arith, h', rest)

      march-first_solid_from :
          (n : ℕ) (m : March fl)
          → IsAhead m
          → march fl world max_dist step delta n m ≡ first_solid n m
      unfolding march first_solid
      march-first_solid_from zero m a = refl
      march-first_solid_from (suc n) m a =
          let m' = advance_march fl step delta m in
          let (a', later) = advance_march-IsAhead laws step delta m grows a in
          ground (
            arith,
            march-first_solid_from n m' a',
            first_solid-has_left n m',
            first_solid-far n m' a',
          )

    -- The march loses nothing by ending early, beyond the distance or past the grid: it gives the
    -- first of the cells of all its rounds that is in the grid, solid and within the distance, where
    -- the first boundaries and the distances between boundaries are not negative, and the floats are
    -- ordered as IEEE 754 orders those that are not negative.
    pub march-first_solid :
        (n : ℕ) (m : March fl)
        → IsOrdered fl
        → IsPositive delta
        → IsAhead m
        → march fl world max_dist step delta n m ≡ first_solid n m
    march-first_solid n m laws grows a = march-first_solid_from laws grows n m a
