-- ===== src/Physics/Soundness.antt =====
-- engine/physics/PhysicsWorld.cpp: each operation against the invariant of the pool.
use voxhammer.Physics.Clearing.{clear_all-ok, clear_all-ok}
use voxhammer.Physics.Simulation.{new_impl, add_ground_plane, init_scene, step, substeps}
use voxhammer.Physics.Boxes.{
  Made, put, add_box, add_dynamic_box, reserve_pool, with_actor, create_pooled_actor,
}
use voxhammer.Physics.Pool.{
  grow_pool-IsPool, push_body-IsPool, create_pooled_actor-IsPool, write-IsPool, acquire_slot-IsPool,
  IsPool, slot_ok, IsSound,
}
use voxhammer.Base.{
  ◌||◌, ◌∙◌, not, sym, zero, suc, ap, none, ◌&&◌, Option, refl, [], is_nil, true, Bool-cases, arith,
  ◌∷◌, inr, inl, List, Option-cases, some, ℕ, ◌≡◌,
}
use voxhammer.Physics.Pooling.{
  clear_dynamics, remove_body, Request, acquire_box, acquire_from, release_box,
}
use voxhammer.Base.Int.{leb_ℤ, negsuc, pos, pos_part, ℤ}
use voxhammer.Physics.Simulation.{
  init, shutdown, init_scene, new_impl, substeps, step, add_ground_plane,
}
use voxhammer.Physics.{
  physics, scene, dispatcher, foundation, Px, Body, Impl, World, get_elem?, slot, is_ready,
}
use voxhammer.Physics.Slots.{occurrences}

new-IsPool :
    (px : Px)
    → IsPool {px = px} (record (new_impl px) { has_foundation = true; has_physics = true })
unfolding IsPool get_elem? new_impl
new-IsPool px i = refl

module _ {px : Px} where
  -- Release and removal act on the slot of an id.
  at_slot :
      (im : Impl px) (id : ℤ) (b : Body px)
      → slot im id ≡ some b
      → get_elem? im.dynamics (pos_part id) ≡ some b
  unfolding slot
  at_slot im (pos i) b e = e
  at_slot im (negsuc i) b e = absurd (ground arith)

  -- What the invariant says of one slot.
  ok_at :
      (im : Impl px) (i : ℕ) (b : Body px)
      → get_elem? im.dynamics i ≡ some b
      → IsPool im
      → slot_ok (some b) (occurrences i im.free_list) ≡ true
  unfolding IsPool
  ok_at im i b e h = ap (λ o. slot_ok o (occurrences i im.free_list)) (sym e) ∙ h i

  acquire_from-IsSound :
      (r : Request px) (im : Impl px) (s : px.State) (free : List ℕ)
      → im.free_list ≡ free
      → IsPool im
      → IsSound (acquire_from px r im s free).1.impl
  unfolding acquire_from
  acquire_from-IsSound r im s [] e h = h
  acquire_from-IsSound r im s (i ∷ rest) e h = acquire_slot-IsPool im i rest e h r s _ refl

  pub acquire-IsSound :
      (r : Request px) (o : Option (Impl px)) (s : px.State)
      → IsSound o
      → IsSound (acquire_box px r (record { impl = o; state = s })).1.impl
  unfolding acquire_box
  acquire-IsSound r none s h = tt
  acquire-IsSound r (some im) s h = elim (Bool-cases (is_ready im)) [
    | inr f ↦ rw (acquire_box, f) h
    | inl f ↦ elim (Bool-cases (is_nil im.free_list)) [
      | inr g ↦ rw (acquire_box, f, g) (acquire_from-IsSound r im s _ refl h)
      | inl g ↦
          let k = create_pooled_actor-IsPool im s h in
          elim (Bool-cases (create_pooled_actor px (im, s)).0) [
            | inr c ↦ rw (acquire_box, f, g, c) k
            | inl c ↦ rw (acquire_box, f, g, c) (acquire_from-IsSound r _ _ _ refl k)
          ]
    ]
  ]

  -- A body that was in the scene enters the free list.
  pub release-IsSound :
      (id : ℤ) (o : Option (Impl px)) (s : px.State)
      → IsSound o
      → IsSound (release_box px id (record { impl = o; state = s })).impl
  unfolding release_box
  release-IsSound id none s h = tt
  release-IsSound id (some im) s h = elim (Option-cases (slot im id)) [
    | inl e ↦ rw (release_box, e) h
    | inr (b, e) ↦ elim (Option-cases b.actor) [
      | inl f ↦ rw (release_box, e, f) h
      | inr (a, f) ↦ elim (Bool-cases (b.pooled && b.in_scene)) [
        | inr g ↦ rw (release_box, e, f, g) h
        | inl g ↦
            let q = at_slot im id b e in
            rw (release_box, e, f, g)
              (write-IsPool im (pos_part id) b _ _ q (λ j n. rw (occurrences, n) refl)
                (ground (arith, ok_at im (pos_part id) b q h, g)) h)
      ]
    ]
  ]

  pub remove-IsSound :
      (id : ℤ) (o : Option (Impl px)) (s : px.State)
      → IsSound o
      → IsSound (remove_body px id (record { impl = o; state = s })).impl
  unfolding remove_body
  remove-IsSound id none s h = tt
  remove-IsSound id (some im) s h = elim (Option-cases (slot im id)) [
    | inl e ↦ rw (remove_body, e) h
    | inr (b, e) ↦ elim (Option-cases b.actor) [
      | inl f ↦ rw (remove_body, e, f) h
      | inr (a, f) ↦
          let q = at_slot im id b e in
          rw (remove_body, e, f)
            (write-IsPool im (pos_part id) b _ _ q (λ j n. refl)
              (ground (arith, ok_at im (pos_part id) b q h)) h)
    ]
  ]

  -- `AddDynamicBox` and `AddBox` push a body that is not of the pool.
  add-IsSound :
      (o : Option (Impl px)) (s : px.State) (x y z : px.Real)
      (use_it : Impl px → px.Actor → px.State → Made px)
      → ((im : Impl px) (a : px.Actor) (s' : px.State)
          → IsPool im
          → IsSound (use_it im a s').1.impl)
      → IsSound o
      → IsSound (with_actor px (record { impl = o; state = s }) x y z use_it).1.impl
  unfolding with_actor
  add-IsSound none s x y z use_it k h = tt
  add-IsSound (some im) s x y z use_it k h = elim (Bool-cases (is_ready im)) [
    | inr f ↦ rw (with_actor, f) h
    | inl f ↦ elim (Option-cases (px.create_rigid_dynamic x y z s).0) [
      | inl c ↦ rw (with_actor, f, c) h
      | inr (a, c) ↦ rw (with_actor, f, c) (k im a _ h)
    ]
  ]

  pub add_dynamic_box-IsSound :
      (x y z : px.Real) (w : World px)
      → IsSound w.impl
      → IsSound (add_dynamic_box px x y z w).1.impl
  unfolding add_dynamic_box
  add_dynamic_box-IsSound x y z w h =
      add-IsSound w.impl w.state x y z _ (λ im a s k. push_body-IsPool _ im refl k) h

  pub add_box-IsSound :
      (x y z half vx vy vz : px.Real) (w : World px)
      → IsSound w.impl
      → IsSound (add_box px x y z half vx vy vz w).1.impl
  unfolding add_box
  add_box-IsSound x y z half vx vy vz w h =
      add-IsSound w.impl w.state x y z _ (λ im a s k. push_body-IsPool _ im refl k) h

  pub reserve-IsSound :
      (count : ℤ) (o : Option (Impl px)) (s : px.State)
      → IsSound o
      → IsSound (reserve_pool px count (record { impl = o; state = s })).impl
  unfolding reserve_pool put
  reserve-IsSound count none s h = tt
  reserve-IsSound count (some im) s h = elim (Bool-cases (leb_ℤ count (pos 0))) [
    | inl e ↦ rw (reserve_pool, e) h
    | inr e ↦ rw (reserve_pool, e) (grow_pool-IsPool _ im s h)
  ]

  pub clear-IsSound :
      (o : Option (Impl px)) (s : px.State)
      → IsSound o
      → IsSound (clear_dynamics px (record { impl = o; state = s })).impl
  unfolding clear_dynamics IsPool
  clear-IsSound none s h = tt
  clear-IsSound (some im) s h = clear_all-ok im.has_scene im.dynamics s

  substeps-IsPool :
      (n : ℕ) (im : Impl px) (s : px.State) → IsPool im → IsPool (substeps px n im s).0
  unfolding substeps IsPool
  substeps-IsPool zero im s h = h
  substeps-IsPool (suc n) im s h = elim (Bool-cases (px.le px.fixed_step im.accumulator)) [
    | inl e ↦
        rw (substeps, e)
          (substeps-IsPool n (record im { accumulator = px.sub im.accumulator px.fixed_step })
            (px.simulate s) h)
    | inr e ↦ rw (substeps, e) h
  ]

  pub step-IsSound :
      (dt : px.Real) (o : Option (Impl px)) (s : px.State)
      → IsSound o
      → IsSound (step px dt (record { impl = o; state = s })).impl
  unfolding step IsPool
  step-IsSound dt none s h = tt
  step-IsSound dt (some im) s h = elim (Bool-cases (not im.has_scene || px.le dt px.zero_real)) [
    | inl e ↦ rw (step, e) h
    | inr e ↦
        rw (step, e) (substeps-IsPool 8 (record im { accumulator = px.add im.accumulator dt }) s h)
  ]

  init_scene-IsSound : (im : Impl px) (s : px.State) → IsPool im → IsSound (init_scene px im s).impl
  unfolding init_scene shutdown IsPool
  init_scene-IsSound im s h =
      let (dispatched, t) = px.make dispatcher s in
      elim (Bool-cases (px.make scene t).0) [
        | inl e ↦ rw (init_scene, e) h
        | inr e ↦ rw (init_scene, e) tt
      ]

  pub init-IsSound :
      (o : Option (Impl px)) (s : px.State)
      → IsSound o
      → IsSound (init px (record { impl = o; state = s })).impl
  unfolding init shutdown new_impl
  init-IsSound (some im) s h = h
  init-IsSound none s h =
      let (founded, t) = px.make foundation s in
      elim (Bool-cases (px.make foundation s).0) [
        | inr e ↦ rw (init, e) tt
        | inl e ↦ elim (Bool-cases (px.make physics t).0) [
          | inr f ↦ rw (init, e, f) tt
          | inl f ↦ rw (init, e, f) (init_scene-IsSound _ _ (new-IsPool px))
        ]
      ]

  pub plane-IsSound :
      (o : Option (Impl px)) (s : px.State)
      → IsSound o
      → IsSound (add_ground_plane px (record { impl = o; state = s })).impl
  unfolding add_ground_plane
  plane-IsSound none s h = tt
  plane-IsSound (some im) s h = elim (Bool-cases (is_ready im)) [
    | inl e ↦ rw (add_ground_plane, e) h
    | inr e ↦ rw (add_ground_plane, e) h
  ]

  pub shutdown-IsSound :
      (o : Option (Impl px)) (s : px.State)
      → IsSound (shutdown px (record { impl = o; state = s })).impl
  unfolding shutdown
  shutdown-IsSound none s = tt
  shutdown-IsSound (some im) s = tt
