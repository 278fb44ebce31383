-- ===== src/Voxel/Palette/Nearest.antt =====
-- The search for the nearest colour.
use native.Mathlib.Decide.{ℕ_discrete}
use voxhammer.Base.Int.{square, pos_part, magnitude, pos, ℤ, ◌*ℤ◌, ◌-ℤ◌, ◌+ℤ◌}
use voxhammer.Base.{
  ◌^◌, zero, ◌/◌, inr, ltb, Bool-cases, ◌%◌, refl, inl, suc, ◌+◌, get_or, arith, ◌⊎◌, ◌*◌, ◌≡◌, ◌<◌,
  ◌≤◌, List, ℕ,
}
use voxhammer.Voxel.Palette.{b8, g8, r8, color_dist, nearest, uint_max}

byte_square : (a : ℕ) → a < 256 → a * a < 65536
byte_square a h = grind arith

byte_diff : (a b : ℕ) → magnitude (pos (a % 256) -ℤ pos (b % 256)) < 256
unfolding ◌-ℤ◌
byte_diff a b = ground arith

square_sum :
    (a b c : ℤ)
    → magnitude a < 256
    → magnitude b < 256
    → magnitude c < 256
    → pos_part (a *ℤ a +ℤ b *ℤ b +ℤ c *ℤ c) < uint_max
unfolding ◌+ℤ◌
square_sum a b c ha hb hc =
    rw (square a, square b, square c)
      (ground (
        arith,
        byte_square (magnitude a) ha,
        byte_square (magnitude b) hb,
        byte_square (magnitude c) hc,
      ))

-- The square of a distance fits well below `UINT_MAX`.
color_dist-lt : (c rgba : ℕ) → color_dist c rgba < uint_max
unfolding color_dist
color_dist-lt c rgba =
    square_sum (pos (r8 c) -ℤ pos (r8 rgba)) (pos (g8 c) -ℤ pos (g8 rgba))
      (pos (b8 c) -ℤ pos (b8 rgba)) (byte_diff c rgba) (byte_diff (c / 2 ^ 8) (rgba / 2 ^ 8))
      (byte_diff (c / 2 ^ 16) (rgba / 2 ^ 16))

module _ (colors : List ℕ) (rgba : ℕ) where
  abbrev dist : ℕ → ℕ
  dist j = color_dist (get_or colors j 0) rgba

  -- `d` is at most the distance of every index below `i`.
  abbrev Least : ℕ → ℕ → Type 0
  Least d i = (j : ℕ) → 1 ≤ j → j < i → d ≤ dist j

  Least-step : (d e i : ℕ) → Least e i → d ≤ e → d ≤ dist i → Least d (i + 1)
  Least-step d e i h le here j p q = elim (ℕ_discrete j i) [
    | yes same ↦ rw same here
    | no other ↦ omega (arith, h j p (omega arith))
  ]

  -- The best so far: none yet, or an index that has been seen.
  abbrev Best : ℕ → ℕ → ℕ → Type 0
  Best i best_dist best_idx =
      ((i ≡ 1) × (best_dist ≡ uint_max)) ⊎ ((best_idx < i) × (best_dist ≡ dist best_idx))

  nearest-Best :
      (rounds i best_dist best_idx : ℕ)
      → 1 ≤ i
      → 1 ≤ best_idx
      → 1 < i + rounds
      → Best i best_dist best_idx
      → Least best_dist i
      → let b = nearest colors rgba rounds i best_dist best_idx in
        (1 ≤ b) × (b < i + rounds) × Least (dist b) (i + rounds)
  unfolding nearest
  nearest-Best zero i best_dist best_idx pi pb some_round best h =
      let seen : (best_idx < i) × (best_dist ≡ dist best_idx) = ground arith in
      (pb, omega arith, λ j p q. rw (← seen.1) (h j p (omega arith)))
  nearest-Best (suc rounds) i best_dist best_idx pi pb some_round best h =
      let d = dist i in
      elim (Bool-cases (ltb d best_dist)) [
        | inl e ↦
            let (a, b, c) =
              nearest-Best rounds (i + 1) d i (omega arith) pi (omega arith)
                (inr (omega arith, refl))
                (Least-step d best_dist i h (ground arith) (omega arith)) in
            rw e (a, omega (arith, b), λ j p q. c j p (omega arith))
        | inr e ↦
            let seen : (best_idx < i + 1) × (best_dist ≡ dist best_idx) =
              ground (arith, color_dist-lt (get_or colors i 0) rgba) in
            let (a, b, c) =
              nearest-Best rounds (i + 1) best_dist best_idx (omega arith) pb (omega arith)
                (inr seen) (Least-step best_dist best_dist i h (omega arith) (ground arith)) in
            rw e (a, omega (arith, b), λ j p q. c j p (omega arith))
      ]

  -- With the palette full the index taken is one of 1 to 255, and no colour is nearer.
  pub nearest_lem :
      let b = nearest colors rgba 255 1 uint_max 1 in
      (1 ≤ b) × (b < 256) × ((j : ℕ) → 1 ≤ j → j < 256 → dist b ≤ dist j)
  nearest_lem =
      nearest-Best 255 1 uint_max 1 (omega arith) (omega arith) (omega arith) (inl (refl, refl))
        (λ j p q. absurd (omega arith))
