-- ===== src/Physics/Stepping.antt =====
-- engine/physics/PhysicsWorld.cpp, `Step`: how far it goes.
use voxhammer.Base.{
  ap, ◌∙◌, refl, inr, Bool-cases, some, false, inl, ◌&&◌, ◌⊎◌, Bool, arith, true, zero, ◌≤◌, suc, ℕ,
  ◌≡◌,
}
use voxhammer.Physics.{Px, Impl, World}
use voxhammer.Physics.Simulation.{substeps, step}

module _ (px : Px) where
  -- The accumulator and PhysX after `n` fixed steps.
  unfoldable pub rounds : ℕ → px.Real × px.State → px.Real × px.State
  rounds zero st = st
  rounds (suc n) (acc, s) = rounds n (px.sub acc px.fixed_step, px.simulate s)

  -- Whether each of `n` fixed steps was due when it was taken.
  unfoldable pub all_due : ℕ → px.Real → Bool
  all_due zero acc = true
  all_due (suc n) acc = px.le px.fixed_step acc && all_due n (px.sub acc px.fixed_step)

  -- `n` fixed steps are taken, each when due, up to the bound or until none is due.
  abbrev pub Advances : (bound n : ℕ) → px.Real → px.State → Type 0
  Advances bound n acc s =
      (n ≤ bound)
      × (all_due n acc ≡ true)
      × ((n ≡ bound) ⊎ (px.le px.fixed_step (rounds n (acc, s)).0 ≡ false))

  abbrev pub with_accumulator : Impl px → px.Real × px.State → Impl px × px.State
  with_accumulator im (acc, s) = (record im { accumulator = acc }, s)

  substeps_lem :
      (left : ℕ) (im : Impl px) (s : px.State)
      → (n : ℕ) × Advances left n im.accumulator s
        × (substeps px left im s ≡ with_accumulator im (rounds n (im.accumulator, s)))
  unfolding substeps rounds all_due
  substeps_lem zero im s = (0, (omega arith, refl, inl refl), refl)
  substeps_lem (suc left) im s = elim (Bool-cases (px.le px.fixed_step im.accumulator)) [
    | inr e ↦ rw (substeps, e) (0, (omega arith, refl, inr e), refl)
    | inl e ↦
        let acc = px.sub im.accumulator px.fixed_step in
        let (n, (b, d, c), q) =
          substeps_lem left (record im { accumulator = acc }) (px.simulate s) in
        rw (substeps, e) (suc n, (omega (arith, b), rw (e, d) refl, ground (arith, c)), q)
  ]

  abbrev pub with_impl : Impl px × px.State → World px
  with_impl (im, s) = record { impl = some im; state = s }

  step-substeps :
      (dt : px.Real) (im : Impl px) (s : px.State)
      → im.has_scene ≡ true
      → px.le dt px.zero_real ≡ false
      → step px dt (record { impl = some im; state = s })
        ≡ with_impl (substeps px 8 (record im { accumulator = px.add im.accumulator dt }) s)
  unfolding step
  step-substeps dt im s h k = rw (step, h, k) refl

  -- A step by a positive time in a world with a scene takes at most 8 fixed steps, each when it is due
  -- and as many as are due up to that bound; nothing but the accumulator and PhysX changes.
  pub step_lem :
      (dt : px.Real) (im : Impl px) (s : px.State)
      → im.has_scene ≡ true
      → px.le dt px.zero_real ≡ false
      → (n : ℕ) × Advances 8 n (px.add im.accumulator dt) s
        × (step px dt (record { impl = some im; state = s })
            ≡ with_impl (with_accumulator im (rounds n (px.add im.accumulator dt, s))))
  step_lem dt im s h k =
      let (n, a, q) = substeps_lem 8 (record im { accumulator = px.add im.accumulator dt }) s in
      (n, a, step-substeps dt im s h k ∙ ap with_impl q)
