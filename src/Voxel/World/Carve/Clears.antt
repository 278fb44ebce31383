-- ===== src/Voxel/World/Carve/Clears.antt =====
-- What `carve_sphere` does to one voxel.
use voxhammer.Base.{
  ==_iff, inr, inl, ℕ, ◌≡◌, refl, ap, ◌∙◌, ◌≢◌, Bool, true, false, not, ◌&&◌, arith, ◌==◌,
  if◌then◌else◌, Bool-cases,
}
use voxhammer.Base.Int.{==ℤ_iff, ℤ, pos, negsuc, ◌+ℤ◌, ◌-ℤ◌, ◌*ℤ◌, ◌==ℤ◌, ltb_ℤ, leb_ℤ, is_neg}
use voxhammer.Base.Loops.{loop_ℤ, loop_ℤ_hit}
use voxhammer.Voxel.Coords.{same_pos-cases, same_pos}
use voxhammer.Voxel.World.{ChunkMap, get_voxel}
use voxhammer.Voxel.World.Map.{IsValid}
use voxhammer.Voxel.World.Access.{get_voxel-set_voxel, set_voxel-IsValid}
use voxhammer.Voxel.World.Carve.{
  Carved, dist2, carve_body, carve_row, carve_slab, carve_box, box_lo, box_hi, carve_sphere,
  in_grid, in_ball,
}
use voxhammer.Voxel.World.Carve.Ball.{ball_box}

abbrev clear_if : Bool → ℕ → ℕ
clear_if b v = if b then 0 else v

and_left_comm : (a b c : Bool) → a && (b && c) ≡ b && (a && c)
and_left_comm a b c = ground arith

and_third : (a b c d : Bool) → a && (b && (c && d)) ≡ c && (a && (b && d))
and_third a b c d = ground arith

regroup : (a b c d : Bool) → (a && b && c) && d ≡ a && (b && (c && d))
regroup a b c d = ground arith

bounds_and : (a b c d : Bool) → a && (b && (c && d)) ≡ (c && b && a) && d
bounds_and a b c d = ground arith

==ℤ_ne : (a b : ℤ) → a ≢ b → (a ==ℤ b) ≡ false
==ℤ_ne a b n = elim (Bool-cases (a ==ℤ b)) [ inl e ↦ absurd (n ((==ℤ_iff a b).0 e)) | inr e ↦ e ]

if-clear_if : (a b : Bool) (v : ℕ) → (if a then clear_if b v else v) ≡ clear_if (a && b) v
if-clear_if a b v = ground arith

module _ (x' y' z' : ℤ) where
  read : Carved → ℕ
  read s = get_voxel s.0 x' y' z'

  -- A step that keeps the map valid, and clears the voxel observed under a test.
  abbrev Clears : Bool → (Carved → Carved) → Type 0
  Clears b f = (s : Carved) → IsValid s.0 → IsValid (f s).0 × (read (f s) ≡ clear_if b (read s))

  -- A loop clears it if the round for its coordinate does.
  loop-Clears :
      (lo hi k : ℤ) (b : Bool) (f : ℤ → Carved → Carved)
      → ((i : ℤ) → Clears (i ==ℤ k && b) (f i))
      → Clears ((leb_ℤ lo k && ltb_ℤ k hi) && b) (loop_ℤ lo hi f)
  loop-Clears lo hi k b f step s v =
      let (p, r) =
        loop_ℤ_hit (λ t. IsValid t.0) lo hi f s read k (clear_if b)
          (λ i t _ _ n q.
            let (w, e) = step i t q in (w, e ∙ ap (λ c. clear_if (c && b) (read t)) (==ℤ_ne i k n)))
          (λ i t _ _ c q.
            let (w, e) = step i t q in
            (w, e ∙ ap (λ d. clear_if (d && b) (read t)) ((==ℤ_iff i k).1 c)))
          v in
      (p, r ∙ if-clear_if (leb_ℤ lo k && ltb_ℤ k hi) b (read s))

  cast : {a b : Bool} (f : Carved → Carved) → a ≡ b → Clears a f → Clears b f
  cast f e h s v = let (w, r) = h s v in (w, r ∙ ap (λ c. clear_if c (read s)) e)

  module _ (cx cy cz r2 : ℤ) where
    body_in :
        (z y x : ℤ) (m : ChunkMap) (n : ℕ)
        → ltb_ℤ r2 (dist2 (x -ℤ cx) (y -ℤ cy) (z -ℤ cz)) ≡ false
        → IsValid m
        → IsValid (carve_body cx cy cz r2 z y x (m, n)).0
          × (read (carve_body cx cy cz r2 z y x (m, n))
              ≡ clear_if (same_pos x y z x' y' z') (read (m, n)))
    unfolding carve_body read
    body_in z y x m n e v = elim (Bool-cases (get_voxel m x y z == 0)) [
      | inl o ↦
          rw (e, o)
            (
              v,
              elim (same_pos-cases x y z x' y' z') [
                | inl (s, ex, ey, ez) ↦ rw s (rw (← ex, ← ey, ← ez) ((==_iff _ 0).0 o))
                | inr s ↦ rw s refl
              ],
            )
      | inr o ↦ rw (e, o) (set_voxel-IsValid m x y z 0 v, get_voxel-set_voxel m x y z 0 x' y' z' v)
    ]

    carve_body-Clears :
        (z y x : ℤ)
        → Clears
            (same_pos x y z x' y' z' && in_ball cx cy cz r2 x' y' z')
            (carve_body cx cy cz r2 z y x)
    unfolding carve_body read
    carve_body-Clears z y x (m, n) v =
        elim (Bool-cases (ltb_ℤ r2 (dist2 (x -ℤ cx) (y -ℤ cy) (z -ℤ cz)))) [
          | inl e ↦ rw e (
            v,
            elim (same_pos-cases x y z x' y' z') [
              | inl (s, ex, ey, ez) ↦ rw s (rw (← ex, ← ey, ← ez) (rw e refl))
              | inr s ↦ rw s refl
            ],
          )
          | inr e ↦
              let (w, r) = body_in z y x m n e v in
              (
                w,
                elim (same_pos-cases x y z x' y' z') [
                  | inl (s, ex, ey, ez) ↦ r ∙ rw s (rw (← ex, ← ey, ← ez) (rw e refl))
                  | inr s ↦ r ∙ rw s refl
                ],
              )
        ]

    carve_box-Clears :
        (x0 x1 y0 y1 z0 z1 : ℤ)
        → Clears
            ((leb_ℤ z0 z' && ltb_ℤ z' (z1 +ℤ pos 1))
              && ((leb_ℤ y0 y' && ltb_ℤ y' (y1 +ℤ pos 1))
                  && ((leb_ℤ x0 x' && ltb_ℤ x' (x1 +ℤ pos 1)) && in_ball cx cy cz r2 x' y' z')))
            (carve_box cx cy cz r2 x0 x1 y0 y1 z0 z1)
    unfolding carve_box carve_slab carve_row
    carve_box-Clears x0 x1 y0 y1 z0 z1 =
        let ball = in_ball cx cy cz r2 x' y' z' in
        let inx = leb_ℤ x0 x' && ltb_ℤ x' (x1 +ℤ pos 1) in
        let iny = leb_ℤ y0 y' && ltb_ℤ y' (y1 +ℤ pos 1) in
        loop-Clears z0 (z1 +ℤ pos 1) z' (iny && (inx && ball)) _ λ z.
          cast _ (and_third iny inx (z ==ℤ z') ball) (
            loop-Clears y0 (y1 +ℤ pos 1) y' _ _ λ y.
              cast _ (and_left_comm inx (y ==ℤ y') (z ==ℤ z' && ball)) (
                loop-Clears x0 (x1 +ℤ pos 1) x' _ _ λ x.
                  cast _ (regroup (x ==ℤ x') (y ==ℤ y') (z ==ℤ z') ball) (carve_body-Clears z y x)))

tests_agree :
    (b a1 a2 a3 g1 g2 g3 : Bool)
    → (b ≡ true → (a1 ≡ g1) × (a2 ≡ g2) × (a3 ≡ g3))
    → a3 && (a2 && (a1 && b)) ≡ (g1 && g2 && g3) && b
tests_agree true a1 a2 a3 g1 g2 g3 h = let (e1, e2, e3) = h refl in rw (e1, e2, e3) (ground arith)
tests_agree false a1 a2 a3 g1 g2 g3 h = ground arith

-- On a well-formed map, carving a sphere empties exactly the voxels of the grid within `radius` of
-- the centre, leaves every other voxel as it was and keeps the map well formed; a negative radius
-- changes nothing.
pub carve_sphere-get_voxel :
    (m : ChunkMap) (cx cy cz radius x y z : ℤ)
    → IsValid m
    → IsValid (carve_sphere m cx cy cz radius).0
      × (get_voxel (carve_sphere m cx cy cz radius).0 x y z ≡ (
          if not (is_neg radius) && (in_grid x y z && in_ball cx cy cz (radius *ℤ radius) x y z)
          then 0
          else get_voxel m x y z))
unfolding carve_sphere read
carve_sphere-get_voxel m cx cy cz (negsuc r) x y z v = (v, refl)
carve_sphere-get_voxel m cx cy cz (pos r) x y z v =
    let radius = pos r in
    let f : Carved → Carved =
      carve_box cx cy cz (radius *ℤ radius) (box_lo cx radius) (box_hi cx radius) (box_lo cy radius)
        (box_hi cy radius) (box_lo cz radius) (box_hi cz radius) in
    cast x y z f
      (tests_agree (in_ball cx cy cz (radius *ℤ radius) x y z) _ _ _ _ _ _
        (ball_box cx cy cz radius x y z (omega arith)))
      (carve_box-Clears x y z cx cy cz (radius *ℤ radius) (box_lo cx radius) (box_hi cx radius)
        (box_lo cy radius) (box_hi cy radius) (box_lo cz radius) (box_hi cz radius))
      (m, 0) v
