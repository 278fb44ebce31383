-- ===== src/Base/Pushes.antt =====
-- A list that three nested loops push, read at the place of one of its elements.
use native.Mathlib.Decide.{ℕ_discrete}
use voxhammer.Base.{
  refl, ap, zero, ◌==◌, suc, arith, if◌then◌else◌, ◌-◌, ◌∙◌, [], ◌*◌, ◌+◌, ◌∷◌, ◌++◌, ◌<◌, ◌≡◌, ◌≤◌,
  List, ℕ,
}
use voxhammer.Base.Lists.{length, get_or, length-append}
use voxhammer.Base.Loops.{loop}
use voxhammer.Base.Ranges.{for_range}

rows_below : (m i n : ℕ) → i < n → i * m + m ≤ n * m
rows_below m i n h = grind arith

get_or-append :
    (v : List ℕ) (a k : ℕ) → get_or (v ++ a ∷ []) k 0 ≡ (if k == length v then a else get_or v k 0)
get_or-append [] a zero = refl
get_or-append [] a (suc k) = ground arith
get_or-append (b ∷ v) a zero = ground arith
get_or-append (b ∷ v) a (suc k) = ground (arith, get_or-append v a k)

-- `n` elements are pushed, the one at `k` with `R k`.
Pushes : ℕ → (ℕ → ℕ → Type 0) → (List ℕ → List ℕ) → Type 0
Pushes n R f =
    (v : List ℕ)
    → (length (f v) ≡ length v + n)
      × ((k : ℕ) → k < n → R k (get_or (f v) (length v + k) 0))
      × ((k : ℕ) → k < length v → get_or (f v) k 0 ≡ get_or v k 0)

push-Pushes : (a : ℕ) → Pushes 1 (λ k n. n ≡ a) (λ v. v ++ a ∷ [])
unfolding Pushes
push-Pushes a v = (
  length-append v (a ∷ []),
  (λ k h. get_or-append v a (length v + k) ∙ ground arith),
  (λ k h. get_or-append v a k ∙ ground arith),
)

-- What holds of the element `k` of the row `i` holds of its place in the list of rows.
abbrev Split : (n m : ℕ) → (ℕ → ℕ → ℕ → Type 0) → ℕ → ℕ → Type 0
Split n m R j a = (i k : ℕ) → i < n → k < m → j ≡ i * m + k → R i k a

loop-Pushes :
    (n m : ℕ) (R : ℕ → ℕ → ℕ → Type 0) (f : ℕ → List ℕ → List ℕ)
    → ((i : ℕ) → i < n → Pushes m (R i) (f i))
    → Pushes (n * m) (λ j a. (i k : ℕ) → i < n → k < m → j ≡ i * m + k → R i k a) (loop n f)
unfolding Pushes loop
loop-Pushes zero m R f h v = (omega arith, (λ k q. absurd (omega arith)), λ k q. refl)
loop-Pushes (suc n) m R f h v =
    let u = loop n f v in
    let (size, items, kept) = loop-Pushes n m R f (λ i q. h i (omega arith)) v in
    let (size', items', kept') = h n (omega arith) u in
    (
      omega (arith, size, size'),
      (λ j q i k hi hk e. elim (ℕ_discrete i n) [
        | yes p ↦
            let at : length v + j ≡ length u + k = omega (arith, size, ap (λ (t : ℕ). t * m) p) in
            rw (at, p) (items' k hk)
        | no p ↦
            let lt : j < n * m = omega (arith, rows_below m i n (omega arith)) in
            rw (kept' (length v + j) (omega (arith, size))) (items j lt i k (omega arith) hk e)
      ]),
      (λ k q. kept' k (omega (arith, size)) ∙ kept k q),
    )

-- Loops from 0 on.
loops-get_or :
    (dz dy dx : ℕ) (item : ℕ → ℕ → ℕ → ℕ) (i j k : ℕ)
    → i < dz
    → j < dy
    → k < dx
    → get_or
        (loop dz (λ i. loop dy (λ j. loop dx (λ k v. v ++ item i j k ∷ []))) [])
        ((i * dy + j) * dx + k)
        0
      ≡ item i j k
unfolding Pushes
loops-get_or dz dy dx item i j k hi hj hk =
    let row = λ (i j : ℕ).
      loop-Pushes dx 1 (λ k _ n. n ≡ item i j k) (λ k v. v ++ item i j k ∷ [])
        (λ k _. push-Pushes (item i j k)) in
    let slab = λ (i : ℕ).
      loop-Pushes dy (dx * 1) (λ j. Split dx 1 (λ k _ n. n ≡ item i j k))
        (λ j. loop dx (λ k v. v ++ item i j k ∷ [])) (λ j _. row i j) in
    let box =
      loop-Pushes dz (dy * (dx * 1))
        (λ i. Split dy (dx * 1) (λ j. Split dx 1 (λ k _ n. n ≡ item i j k)))
        (λ i. loop dy (λ j. loop dx (λ k v. v ++ item i j k ∷ []))) (λ i _. slab i) in
    let (_, items, _) = box [] in
    let below : j * dx + k < dy * (dx * 1) = omega (arith, rows_below dx j dy hj) in
    let at : (i * dy + j) * dx + k ≡ 0 + ((i * dy + j) * dx + k) = omega arith in
    ap (λ n. get_or (loop dz (λ i. loop dy (λ j. loop dx (λ k v. v ++ item i j k ∷ []))) []) n 0) at
    ∙ items ((i * dy + j) * dx + k) (omega (arith, rows_below (dy * dx) i dz hi, below)) i
        (j * dx + k) hi below (omega arith) j k hj (omega arith) (omega arith) k 0 hk (omega arith)
        (omega arith)

module _ (z0 z1 y0 y1 x0 x1 : ℕ) (item : ℕ → ℕ → ℕ → ℕ) where
  -- The cells of a box in the order z, y, x.
  unfoldable pub push_box : List ℕ → List ℕ
  push_box v =
      for_range z0 z1 (λ z. for_range y0 y1 (λ y. for_range x0 x1 (λ x v. v ++ item z y x ∷ []))) v

  pub push_box-get_or :
      (z y x : ℕ)
      → z0 ≤ z
      → z < z1
      → y0 ≤ y
      → y < y1
      → x0 ≤ x
      → x < x1
      → get_or (push_box []) (((z - z0) * (y1 - y0) + (y - y0)) * (x1 - x0) + (x - x0)) 0
        ≡ item z y x
  unfolding push_box for_range
  push_box-get_or z y x a b c d e f =
      let ez : z0 + (z - z0) ≡ z = omega (arith, a) in
      let ey : y0 + (y - y0) ≡ y = omega (arith, c) in
      let ex : x0 + (x - x0) ≡ x = omega (arith, e) in
      loops-get_or (z1 - z0) (y1 - y0) (x1 - x0) (λ i j k. item (z0 + i) (y0 + j) (x0 + k)) (z - z0)
        (y - y0) (x - x0) (omega (arith, b)) (omega (arith, d)) (omega (arith, f))
      ∙ rw (ez, ey, ex) refl
