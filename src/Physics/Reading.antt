-- ===== src/Physics/Reading.antt =====
-- The ways to read the bodies agree.
use voxhammer.Base.Int.{negsuc, pos_part, ltb_ℤ, pos, ℤ}
use voxhammer.Base.{
  sym, ◌∙◌, ap, length, zero, refl, [], not, arith, suc, ◌&&◌, Bool-cases, ◌∷◌, inr, inl,
  Option-cases, true, ◌+◌, ◌⊎◌, List, ◌≡◌, none, some, Option, ℕ,
}
use voxhammer.Physics.{World, Impl, is_live, slot, get_elem?, Px, Body}
use voxhammer.Physics.Queries.{
  body_count, get_body_state, count_live, enumerate_bodies, state_of, live_state, find_state,
  enumerate_from, BodyState,
}

module _ (px : Px) where
  -- The state of slot `i`, if it has a live body.
  abbrev live_at : ℕ → Option (Body px) → px.State → Option (BodyState px)
  live_at i none s = none
  live_at i (some b) s = live_state px i b s

  -- A state has the id of its slot.
  live_state-id :
      (i : ℕ) (b : Body px) (s : px.State)
      → (live_state px i b s ≡ none)
        ⊎ ((st : BodyState px) × (live_state px i b s ≡ some st) × (st.id ≡ pos i))
  unfolding live_state state_of
  live_state-id i b s = elim (Option-cases b.actor) [
    | inl e ↦ rw (live_state, e) (inl refl)
    | inr (a, e) ↦ elim (Bool-cases (b.pooled && not b.in_scene)) [
      | inl f ↦ rw (live_state, e, f) (inl refl)
      | inr f ↦ rw (live_state, e, f) (inr (_, refl, refl))
    ]
  ]

  find_state-below :
      (i : ℕ) (id : ℤ) (bodies : List (Body px)) (s : px.State)
      → ltb_ℤ id (pos i) ≡ true
      → find_state px (enumerate_from px i bodies s) id ≡ none
  unfolding enumerate_from find_state
  find_state-below i id [] s h = refl
  find_state-below i id (b ∷ bodies) s h =
      let rest = find_state-below (suc i) id bodies s (ground arith) in
      elim (live_state-id i b s) [
        | inl e ↦ rw (enumerate_from, e) rest
        | inr (st, e, f) ↦ rw (enumerate_from, e) (ground (arith, f, rest, h))
      ]

  find_state-enumerate_from :
      (i j : ℕ) (bodies : List (Body px)) (s : px.State)
      → find_state px (enumerate_from px i bodies s) (pos (i + j))
        ≡ live_at (i + j) (get_elem? bodies j) s
  unfolding enumerate_from find_state get_elem?
  find_state-enumerate_from i j [] s = refl
  find_state-enumerate_from i zero (b ∷ bodies) s =
      let at : i + 0 ≡ i = omega arith in
      rw at (elim (live_state-id i b s) [
        | inl e ↦ rw (enumerate_from, e) (find_state-below (suc i) (pos i) bodies s (ground arith))
        | inr (st, e, f) ↦ rw (enumerate_from, e, f) (ground arith)
      ])
  find_state-enumerate_from i (suc j) (b ∷ bodies) s =
      let at : i + suc j ≡ suc i + j = omega arith in
      let rest = find_state-enumerate_from (suc i) j bodies s in
      rw at (elim (live_state-id i b s) [
        | inl e ↦ rw (enumerate_from, e) rest
        | inr (st, e, f) ↦ rw (enumerate_from, e, f) (ground (arith, rest))
      ])

  slot_cases :
      (im : Impl px) (id : ℤ) (s : px.State)
      → find_state px (enumerate_from px 0 im.dynamics s) id ≡ live_at (pos_part id) (slot im id) s
  unfolding slot
  slot_cases im (pos j) s =
      let at : j ≡ 0 + j = omega arith in
      ap (λ n. find_state px (enumerate_from px 0 im.dynamics s) (pos n)) at
      ∙ find_state-enumerate_from 0 j im.dynamics s
      ∙ ap (λ n. live_at n (get_elem? im.dynamics j) s) (sym at)
  slot_cases im (negsuc j) s = find_state-below 0 (negsuc j) im.dynamics s (ground arith)

  length-enumerate_from :
      (i : ℕ) (bodies : List (Body px)) (s : px.State)
      → length (enumerate_from px i bodies s) ≡ count_live px bodies
  unfolding enumerate_from count_live is_live live_state
  length-enumerate_from i [] s = refl
  length-enumerate_from i (b ∷ bodies) s =
      let rest = length-enumerate_from (suc i) bodies s in
      elim (Option-cases b.actor) [
        | inl e ↦ rw (enumerate_from, e) (ground (arith, rest, e))
        | inr (a, e) ↦ rw (enumerate_from, e) (ground (arith, rest, e))
      ]

  -- What `FindState` finds among the bodies that `EnumerateBodies` lists is what `GetBodyState` answers,
  -- for every id, and the list is as long as `BodyCount` says.
  pub find_state-enumerate_bodies :
      (w : World px) (id : ℤ)
      → (find_state px (enumerate_bodies px w) id ≡ get_body_state px w id)
        × (length (enumerate_bodies px w) ≡ body_count px w)
  unfolding enumerate_bodies get_body_state body_count find_state
  find_state-enumerate_bodies w id = elim (Option-cases w.impl) [
    | inl e ↦ rw e (refl, refl)
    | inr (im, e) ↦ rw e (elim (Option-cases (slot im id)) [
      | inl f ↦ (slot_cases im id w.state ∙ rw f refl, length-enumerate_from 0 im.dynamics w.state)
      | inr (b, f) ↦
          (slot_cases im id w.state ∙ rw f refl, length-enumerate_from 0 im.dynamics w.state)
    ])
  ]
