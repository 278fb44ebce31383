-- ===== src/Physics/Reuse.antt =====
-- Who gets which slot of the pool.
use voxhammer.Physics.Slots.{get_elem?-length, get_elem?-append, get_elem?-set}
use voxhammer.Physics.Boxes.{create_pooled_actor}
use voxhammer.Physics.Pool.{IsSound, create_pooled_actor-IsPool, popped, IsPool}
use voxhammer.Base.Int.{pos}
use voxhammer.Physics.Pooling.{acquire_box, Request, acquire_slot, acquire_from}
use voxhammer.Physics.Queries.{live_state, get_body_state}
use voxhammer.Base.{
  ◌∙◌, sym, is_nil, Bool-cases, [], none, true, ◌||◌, ◌∷◌, not, ◌==◌, refl, List, arith,
  if◌then◌else◌, ◌&&◌, inr, inl, Option-cases, false, Bool, ◌≡◌, some, Option, ℕ,
}
use voxhammer.Physics.{is_ready, Px, Body, Impl, World, slot, is_some, get_elem?}

module _ {px : Px} where
  -- Whether a slot has a body that is neither removed nor parked.
  abbrev pub live_slot : Option (Body px) → Bool
  live_slot none = false
  live_slot (some b) = is_some b.actor && (not b.pooled || b.in_scene)

  -- Whether `GetBodyState` answers.
  abbrev pub has_state : World px → ℕ → Bool
  has_state w i = is_some (get_body_state px w (pos i))

  has_state-live_slot :
      (im : Impl px) (s : px.State) (i : ℕ)
      → has_state (record { impl = some im; state = s }) i ≡ live_slot (get_elem? im.dynamics i)
  unfolding get_body_state live_state slot
  has_state-live_slot im s i = elim (Option-cases (get_elem? im.dynamics i)) [
    | inl e ↦ rw e refl
    | inr (b, e) ↦
        rw e (elim (Option-cases b.actor) [ inl f ↦ rw f refl | inr (a, f) ↦ rw f (ground arith) ])
  ]

  -- The slots of two worlds differ at `i` only, which was not live.
  abbrev Takes : Impl px → Option (Impl px) → ℕ → ℕ → Type 0
  Takes im none i j = ⊥
  Takes im (some im') i j =
      (live_slot (get_elem? im.dynamics i) ≡ false)
      × (live_slot (get_elem? im'.dynamics j)
          ≡ (if j == i then true else live_slot (get_elem? im.dynamics j)))

  module _ (r : Request px) (i j : ℕ) where
    acquire_slot-Takes :
        (im : Impl px) (k : ℕ) (rest : List ℕ) (s : px.State) (o : Option (Body px))
        → im.free_list ≡ k ∷ rest
        → IsPool im
        → get_elem? im.dynamics k ≡ o
        → (acquire_slot px r k (record im { free_list = rest }) s o).0 ≡ pos i
        → Takes im (acquire_slot px r k (record im { free_list = rest }) s o).1.impl i j
    unfolding acquire_slot
    acquire_slot-Takes im k rest s none e h f = λ q. absurd (ground arith)
    acquire_slot-Takes im k rest s (some b) e h f = elim (Option-cases b.actor) [
      | inl g ↦ rw (acquire_slot, g) (λ q. absurd (ground arith))
      | inr (a, g) ↦
          rw (acquire_slot, g)
            λ q.
              let same : k ≡ i = ground arith in
              rw (← same) (
                rw f (ground (arith, popped im k rest e h b f)),
                rw (get_elem?-set im.dynamics k j _ b f) (elim (Bool-cases (j == k)) [
                  | inl t ↦ rw t (ground arith)
                  | inr t ↦ rw t refl
                ]),
              )
    ]

    acquire_from-Takes :
        (im : Impl px) (s : px.State) (free : List ℕ)
        → im.free_list ≡ free
        → IsPool im
        → (acquire_from px r im s free).0 ≡ pos i
        → Takes im (acquire_from px r im s free).1.impl i j
    unfolding acquire_from
    acquire_from-Takes im s [] e h q = absurd (ground arith)
    acquire_from-Takes im s (k ∷ rest) e h q = acquire_slot-Takes im k rest s _ e h refl q

    -- A new parked slot is not live, and the other slots are as they were.
    create-live_slot :
        (im : Impl px) (s : px.State) (n : ℕ)
        → live_slot (get_elem? (create_pooled_actor px (im, s)).1.dynamics n)
          ≡ live_slot (get_elem? im.dynamics n)
    unfolding create_pooled_actor
    create-live_slot im s n = elim (Bool-cases (is_ready im)) [
      | inr e ↦ rw (create_pooled_actor, e) refl
      | inl e ↦
          elim (Option-cases (px.create_rigid_dynamic px.zero_real px.parked_y px.zero_real s).0) [
            | inl c ↦ rw (create_pooled_actor, e, c) refl
            | inr (a, c) ↦
                rw (create_pooled_actor, e, c, get_elem?-append)
                  (ground (arith, get_elem?-length im.dynamics))
          ]
    ]

    Takes-from :
        (im im' : Impl px) (o : Option (Impl px))
        → live_slot (get_elem? im'.dynamics i) ≡ live_slot (get_elem? im.dynamics i)
        → live_slot (get_elem? im'.dynamics j) ≡ live_slot (get_elem? im.dynamics j)
        → Takes im' o i j
        → Takes im o i j
    Takes-from im im' none a b t = t
    Takes-from im im' (some new) a b (was, is) = (sym a ∙ was, is ∙ rw b refl)

    acquire-Takes :
        (im : Impl px) (s : px.State)
        → IsPool im
        → (acquire_box px r (record { impl = some im; state = s })).0 ≡ pos i
        → Takes im (acquire_box px r (record { impl = some im; state = s })).1.impl i j
    unfolding acquire_box
    acquire-Takes im s h = elim (Bool-cases (is_ready im)) [
      | inr f ↦ rw (acquire_box, f) (λ q. absurd (ground arith))
      | inl f ↦ elim (Bool-cases (is_nil im.free_list)) [
        | inr g ↦ rw (acquire_box, f, g) (acquire_from-Takes im s _ refl h)
        | inl g ↦
            let k = create_pooled_actor-IsPool im s h in
            let (made, im', s') = create_pooled_actor px (im, s) in
            elim (Bool-cases (create_pooled_actor px (im, s)).0) [
              | inr c ↦ rw (acquire_box, f, g, c) (λ q. absurd (ground arith))
              | inl c ↦
                  rw (acquire_box, f, g, c)
                    λ q.
                      Takes-from im im' _ (create-live_slot im s i) (create-live_slot im s j)
                        (acquire_from-Takes im' s' im'.free_list refl k q)
            ]
      ]
    ]

    Takes-has_state :
        (im : Impl px) (s s' : px.State) (o : Option (Impl px))
        → Takes im o i j
        → (has_state (record { impl = some im; state = s }) i ≡ false)
          × (has_state (record { impl = o; state = s' }) j
              ≡ (if j == i then true else has_state (record { impl = some im; state = s }) j))
    Takes-has_state im s s' none t = absurd t
    Takes-has_state im s s' (some im') (was, is) =
        let now = has_state-live_slot im' s' j in
        let before = has_state-live_slot im s j in
        (has_state-live_slot im s i ∙ was, now ∙ is ∙ rw before refl)

    acquire-has_state :
        (o : Option (Impl px)) (s : px.State)
        → IsSound o
        → (let w : World px = record { impl = o; state = s } in
            (acquire_box px r w).0 ≡ pos i
            → (has_state w i ≡ false)
              × (has_state (acquire_box px r w).1 j ≡ (if j == i then true else has_state w j)))
    unfolding acquire_box
    acquire-has_state none s h q = absurd (ground arith)
    acquire-has_state (some im) s h q =
        let w' = (acquire_box px r (record { impl = some im; state = s })).1 in
        Takes-has_state im s w'.state w'.impl (acquire-Takes im s h q)

    -- The id that `AcquireBox` returns was not a live body before and is one after, and every other id
    -- is live after exactly if it was before: for every request, in every world that keeps the
    -- invariant of the pool.
    pub acquire_box-has_state :
        (w : World px)
        → IsSound w.impl
        → (acquire_box px r w).0 ≡ pos i
        → (has_state w i ≡ false)
          × (has_state (acquire_box px r w).1 j ≡ (if j == i then true else has_state w j))
    acquire_box-has_state w h q = acquire-has_state w.impl w.state h q
