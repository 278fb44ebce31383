-- ===== src/Physics/Pool.antt =====
-- The pool of actors: which slots are parked, and which of them are on the free list.
use voxhammer.Physics.Pooling.{Request, acquire_slot}
use voxhammer.Base.{
  ◌∙◌, sym, ap, refl, Option-cases, zero, inr, inl, Bool-cases, set, suc, List, length, [], ◌∷◌,
  arith, ◌++◌, leb, not, ◌&&◌, if◌then◌else◌, ◌==◌, Bool, false, none, true, some, Option, ℕ, ◌≡◌,
}
use voxhammer.Physics.{is_ready, Px, Body, Impl, get_elem?, is_some}
use voxhammer.Physics.Slots.{get_elem?-set, get_elem?-append, get_elem?-length, occurrences}
use voxhammer.Physics.Boxes.{create_pooled_actor, grow_pool, push_body}

-- A slot against the number of times that it is on the free list: a parked body is there once, or at
-- most once where it was removed; any other slot is not there.
abbrev pub slot_ok : {px : Px} → Option (Body px) → ℕ → Bool
slot_ok none k = k == 0
slot_ok (some b) k =
    if b.pooled && not b.in_scene then (if is_some b.actor then k == 1 else leb k 1) else k == 0

module _ {px : Px} where
  unfoldable pub IsPool : Impl px → Type 0
  IsPool im = (i : ℕ) → slot_ok (get_elem? im.dynamics i) (occurrences i im.free_list) ≡ true

  -- A world that is not set up has no bodies.
  abbrev pub IsSound : Option (Impl px) → Type 0
  IsSound none = Unit
  IsSound (some im) = IsPool im

  pub push_body-IsPool :
      (b : Body px) (im : Impl px) → b.pooled ≡ false → IsPool im → IsPool (push_body px b im)
  unfolding IsPool push_body
  push_body-IsPool b im e h i =
      rw get_elem?-append (ground (arith, h i, get_elem?-length im.dynamics))

  -- A new parked slot.
  parked-IsPool :
      (b : Body px) (im : Impl px)
      → b.pooled ≡ true
      → b.in_scene ≡ false
      → is_some b.actor ≡ true
      → IsPool im
      → IsPool (record im {
        dynamics = im.dynamics ++ b ∷ [];
        free_list = length im.dynamics ∷ im.free_list;
      })
  unfolding IsPool
  parked-IsPool b im e f g h i =
      rw get_elem?-append (ground (arith, h i, get_elem?-length im.dynamics))

  pub create_pooled_actor-IsPool :
      (im : Impl px) (s : px.State) → IsPool im → IsPool (create_pooled_actor px (im, s)).1
  unfolding create_pooled_actor
  create_pooled_actor-IsPool im s h = elim (Bool-cases (is_ready im)) [
    | inr e ↦ rw (create_pooled_actor, e) h
    | inl e ↦
        elim (Option-cases (px.create_rigid_dynamic px.zero_real px.parked_y px.zero_real s).0) [
          | inl c ↦ rw (create_pooled_actor, e, c) h
          | inr (a, c) ↦ rw (create_pooled_actor, e, c) (parked-IsPool _ im refl refl refl h)
        ]
  ]

  pub grow_pool-IsPool :
      (n : ℕ) (im : Impl px) (s : px.State) → IsPool im → IsPool (grow_pool px n (im, s)).0
  unfolding grow_pool
  grow_pool-IsPool zero im s h = h
  grow_pool-IsPool (suc n) im s h =
      let k = create_pooled_actor-IsPool im s h in
      elim (Bool-cases (create_pooled_actor px (im, s)).0) [
        | inl e ↦ rw (grow_pool, e) (grow_pool-IsPool n _ _ k)
        | inr e ↦ rw (grow_pool, e) k
      ]

  -- A slot is written and the free list changes for this slot only.
  pub write-IsPool :
      (im : Impl px) (i : ℕ) (b b' : Body px) (free : List ℕ)
      → get_elem? im.dynamics i ≡ some b
      → ((j : ℕ) → (j == i) ≡ false → occurrences j free ≡ occurrences j im.free_list)
      → slot_ok (some b') (occurrences i free) ≡ true
      → IsPool im
      → IsPool (record im { dynamics = set im.dynamics i b'; free_list = free })
  unfolding IsPool
  write-IsPool im i b b' free e other same h j =
      rw (get_elem?-set im.dynamics i j b' b e) (elim (Bool-cases (j == i)) [
        | inl q ↦ let r : j ≡ i = ground arith in rw q (rw r same)
        | inr q ↦ rw (q, other j q) (h j)
      ])

  module _ (im : Impl px) (i : ℕ) (rest : List ℕ) (e : im.free_list ≡ i ∷ rest)
      (h : IsPool im) where
    before_pop : (j : ℕ) → slot_ok (get_elem? im.dynamics j) (occurrences j (i ∷ rest)) ≡ true
    unfolding IsPool
    before_pop j = ap (λ l. slot_ok (get_elem? im.dynamics j) (occurrences j l)) (sym e) ∙ h j

    -- The popped slot is parked, and is off the list now.
    pub popped :
        (b : Body px)
        → get_elem? im.dynamics i ≡ some b
        → (b.pooled ≡ true) × (b.in_scene ≡ false) × (occurrences i rest ≡ 0)
    popped b f =
        let k : slot_ok (some b) (occurrences i (i ∷ rest)) ≡ true =
          ap (λ o. slot_ok o (occurrences i (i ∷ rest))) (sym f) ∙ before_pop i in
        ground (arith, k)

    pop-IsPool :
        (b : Body px)
        → get_elem? im.dynamics i ≡ some b
        → is_some b.actor ≡ false
        → IsPool (record im { free_list = rest })
    unfolding IsPool
    pop-IsPool b f n j = elim (Bool-cases (j == i)) [
      | inl q ↦ let r : j ≡ i = ground arith in rw (r, f) (ground (arith, popped b f, n))
      | inr q ↦ ground (arith, before_pop j)
    ]

    pub acquire_slot-IsPool :
        (r : Request px) (s : px.State) (o : Option (Body px))
        → get_elem? im.dynamics i ≡ o
        → IsSound (acquire_slot px r i (record im { free_list = rest }) s o).1.impl
    unfolding acquire_slot
    acquire_slot-IsPool r s none f =
        let k : slot_ok {px = px} none (occurrences i (i ∷ rest)) ≡ true =
          ap (λ o. slot_ok o (occurrences i (i ∷ rest))) (sym f) ∙ before_pop i in
        absurd (ground (arith, k))
    acquire_slot-IsPool r s (some b) f = elim (Option-cases b.actor) [
      | inl q ↦ rw (acquire_slot, q) (pop-IsPool b f (rw q refl))
      | inr (a, q) ↦
          rw (acquire_slot, q)
            (write-IsPool im i b _ rest f (λ j n. ground (arith, ap (occurrences j) e))
              (ground (arith, popped b f)) h)
    ]
