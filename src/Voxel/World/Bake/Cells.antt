-- ===== src/Voxel/World/Bake/Cells.antt =====
-- engine/voxel/VoxelWorld.cpp, `BakeFlatGrid`: the grid cell by cell.
use voxhammer.Base.Loops.{loop_miss, loop_hit, loop}
use mathlib.Core.Bool.{xor}
use voxhammer.Base.Int.{==ℤ_iff, ◌==ℤ◌, pos, ℤ, ◌-ℤ◌, ◌/ℤ◌, ◌*ℤ◌, ◌+ℤ◌, ◌%ℤ◌}
use voxhammer.Voxel.Coords.{floor_div-local_mod, local_mod-lt, local_mod, floor_div}
use voxhammer.Base.{
  refl, ◌∙◌, Bool-cases, sym, ap, Bool-eq, inr, inl, length, ◌&&◌, ◌==◌, Bool, List, if◌then◌else◌,
  ◌≤◌, ◌⊎◌, arith, ◌+◌, ◌*◌, ◌≡◌, ◌<◌, ℕ, get_or,
}
use voxhammer.Voxel.World.Bake.{flat_index}

rows_apart : (d a b : ℕ) → a < b → a * d + d ≤ b * d
rows_apart d a b h = grind arith

-- Two cells of one index are one cell.
digit_injective : (d a b x y : ℕ) → x < d → y < d → a * d + x ≡ b * d + y → (a ≡ b) × (x ≡ y)
digit_injective d a b x y p q e = elim (compare_cases a b) [
  | inl lt ↦ absurd (omega (arith, rows_apart d a b lt))
  | inr (inl gt) ↦ absurd (omega (arith, rows_apart d b a gt))
  | inr (inr eq) ↦ (eq, omega (arith, ap (λ (t : ℕ). t * d) eq))
]
  where
    compare_cases : (m n : ℕ) → (m < n) ⊎ ((n < m) ⊎ (m ≡ n))
    compare_cases m n = grind arith

pub flat_injective :
    (d z y x z' y' x' : ℕ)
    → x < d
    → y < d
    → x' < d
    → y' < d
    → flat_index d z y x ≡ flat_index d z' y' x'
    → (z ≡ z') × (y ≡ y') × (x ≡ x')
flat_injective d z y x z' y' x' hx hy hx' hy' e =
    let (zy, ex) = digit_injective d (z * d + y) (z' * d + y') x x' hx hx' (omega (arith, e)) in
    let (ez, ey) = digit_injective d z z' y y' hy hy' zy in (ez, ey, ex)

pub flat_index-lt : (d z y x : ℕ) → z < d → y < d → x < d → flat_index d z y x < d * d * d
flat_index-lt d z y x hz hy hx =
    omega (arith, rows_apart d (z * d + y) (d * d) (omega (arith, rows_apart d z d hz)))

floor_unique :
    (q : ℤ) (i : ℕ)
    → i < 32
    → (floor_div (q *ℤ pos 32 +ℤ pos i) (pos 32) ≡ q)
      × (local_mod (q *ℤ pos 32 +ℤ pos i) (pos 32) ≡ i)
unfolding floor_div local_mod ◌%ℤ◌ ◌+ℤ◌ ◌*ℤ◌ ◌/ℤ◌ ◌-ℤ◌ xor
floor_unique q i h = ground arith

-- One coordinate of a chunk is `x` exactly where the chunk and the place are those of `x`.
axis_test :
    (q x : ℤ) (i : ℕ)
    → i < 32
    → (q *ℤ pos 32 +ℤ pos i ==ℤ x) ≡ (i == local_mod x (pos 32) && q ==ℤ floor_div x (pos 32))
axis_test q x i h =
    Bool-eq
      (λ e.
        let (a, b) = floor_unique q i h in
        let at : q *ℤ pos 32 +ℤ pos i ≡ x = (==ℤ_iff _ x).0 e in
        let fd : floor_div x (pos 32) ≡ q = sym (ap (λ t. floor_div t (pos 32)) at) ∙ a in
        let lm : local_mod x (pos 32) ≡ i = sym (ap (λ t. local_mod t (pos 32)) at) ∙ b in
        rw (fd, lm) (ground (arith, ==ℤ_iff q q)))
      (λ e.
        let lm : i ≡ local_mod x (pos 32) = ground arith in
        let fd : q ≡ floor_div x (pos 32) = ground (arith, ==ℤ_iff q (floor_div x (pos 32))) in
        rw (fd, lm) ((==ℤ_iff _ x).1 (floor_div-local_mod x)))

-- What a chunk's material does to a cell that holds `old`.
abbrev pub over : ℕ → ℕ → ℕ
over v old = if v == 0 then old else v

module _ (dim x y z : ℕ) (hx : x < dim) (hy : y < dim) (hz : z < dim) where
  unfoldable pub read : List ℕ → ℕ
  read g = get_or g (flat_index dim z y x) 0

  abbrev pub Full : List ℕ → Type 0
  Full g = length g ≡ dim * dim * dim

  -- A step that keeps the size, and puts `v` over the cell observed under a test.
  abbrev pub Puts : Bool → ℕ → (List ℕ → List ℕ) → Type 0
  Puts b v f =
      (g : List ℕ) → Full g → Full (f g) × (read (f g) ≡ (if b then over v (read g) else read g))

  pub loop-Puts :
      (q : ℤ) (w : ℕ) (b : Bool) (v : ℕ → ℕ) (f : ℕ → List ℕ → List ℕ)
      → ((i : ℕ) → i < 32 → Puts ((q *ℤ pos 32 +ℤ pos i ==ℤ pos w) && b) (v i) (f i))
      → Puts (q ==ℤ floor_div (pos w) (pos 32) && b) (v (local_mod (pos w) (pos 32))) (loop 32 f)
  loop-Puts q w b v f step g full =
      let k = local_mod (pos w) (pos 32) in
      let fd = floor_div (pos w) (pos 32) in
      elim (Bool-cases (q ==ℤ fd)) [
        | inl e ↦
            let (p, r) =
              loop_hit Full read k (λ old. if b then over (v k) old else old) 32 f g
                (λ i t l n h.
                  let (p, r) = step i l t h in (p, r ∙ rw (axis_test q (pos w) i l) (ground arith)))
                (λ i t l c h.
                  let (p, r) = step i l t h in
                  (p, r ∙ rw (axis_test q (pos w) i l, e, c) (ground arith)))
                full in
            (p, r ∙ rw e (ground (arith, local_mod-lt (pos w))))
        | inr e ↦
            let (p, r) =
              loop_miss Full read 32 f g
                (λ i t l h.
                  let (p, r) = step i l t h in
                  (p, r ∙ rw (axis_test q (pos w) i l, e) (ground arith)))
                full in
            (p, r ∙ rw e refl)
      ]
