-- ===== src/Physics/Clearing.antt =====
-- engine/physics/PhysicsWorld.cpp, `ClearDynamics`: the free list that it builds.
use voxhammer.Physics.Pool.{slot_ok}
use voxhammer.Physics.Slots.{occurrences}
use voxhammer.Physics.Pooling.{clear_bodies, clear_body}
use voxhammer.Base.{
  ap, zero, inr, inl, Option-cases, [], refl, none, true, ◌+◌, ◌∙◌, arith, suc, some, false, ◌∷◌,
  ◌≡◌, ◌<◌, ◌==◌, ◌≤◌, List, Option, ℕ, Bool,
}
use voxhammer.Physics.{Px, Body, get_elem?}

module _ {px : Px} (has : Bool) where
  clear_body-other :
      (i k : ℕ) (b : Body px) (o : Option px.Actor) (free : List ℕ) (s : px.State)
      → (k == i) ≡ false
      → occurrences k (clear_body px has i b o free s).1 ≡ occurrences k free
  unfolding clear_body
  clear_body-other i k b none free s n = refl
  clear_body-other i k b (some a) free s n = ground (arith, n)

  clear_body-ok :
      (i : ℕ) (b : Body px) (free : List ℕ) (s : px.State)
      → occurrences i free ≡ 0
      → slot_ok
          (some (clear_body px has i b b.actor free s).0)
          (occurrences i (clear_body px has i b b.actor free s).1)
        ≡ true
  unfolding clear_body
  clear_body-ok i b free s z = elim (Option-cases b.actor) [
    | inl e ↦ rw e (ground (arith, z, e))
    | inr (a, e) ↦ rw e (ground (arith, z, e))
  ]

  -- The slots before the loop's first are left alone.
  clear_bodies-before :
      (i k : ℕ) (bodies : List (Body px)) (free : List ℕ) (s : px.State)
      → k < i
      → occurrences k (clear_bodies px has i bodies free s).1 ≡ occurrences k free
  unfolding clear_bodies
  clear_bodies-before i k [] free s q = refl
  clear_bodies-before i k (b ∷ bodies) free s q =
      clear_bodies-before (suc i) k bodies _ _ (omega arith)
      ∙ clear_body-other i k b b.actor free s (ground arith)

  clear_bodies-ok :
      (i j : ℕ) (bodies : List (Body px)) (free : List ℕ) (s : px.State)
      → ((k : ℕ) → i ≤ k → occurrences k free ≡ 0)
      → slot_ok
          (get_elem? (clear_bodies px has i bodies free s).0 j)
          (occurrences (i + j) (clear_bodies px has i bodies free s).1)
        ≡ true
  unfolding clear_bodies get_elem?
  clear_bodies-ok i j [] free s z = ground (arith, z (i + j))
  clear_bodies-ok i zero (b ∷ bodies) free s z =
      let at : i + 0 ≡ i = omega arith in
      rw
        (
          at,
          clear_bodies-before (suc i) i bodies (clear_body px has i b b.actor free s).1
              (clear_body px has i b b.actor free s).2 (omega arith),
        )
        (clear_body-ok i b free s (z i (omega arith)))
  clear_bodies-ok i (suc j) (b ∷ bodies) free s z =
      let at : i + suc j ≡ suc i + j = omega arith in
      rw at (
        clear_bodies-ok (suc i) j bodies _ _
          (λ k q. clear_body-other i k b b.actor free s (ground arith) ∙ z k (omega arith)))

  pub clear_all-ok :
      (bodies : List (Body px)) (s : px.State) (j : ℕ)
      → slot_ok
          (get_elem? (clear_bodies px has 0 bodies [] s).0 j)
          (occurrences j (clear_bodies px has 0 bodies [] s).1)
        ≡ true
  clear_all-ok bodies s j =
      let at : j ≡ 0 + j = omega arith in
      let (bodies', free, s') = clear_bodies px has 0 bodies [] s in
      ap (λ n. slot_ok (get_elem? bodies' j) (occurrences n free)) at
      ∙ clear_bodies-ok 0 j bodies [] s (λ k q. refl)
