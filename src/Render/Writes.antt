-- ===== src/Render/Writes.antt =====
-- Three nested loops that write a box of a cubic grid.
use voxhammer.Base.{
  Bool-eq, refl, inr, ==_iff, inl, Bool-cases, arith, ◌∙◌, get_or-set, length-set, if◌then◌else◌,
  ltb, ◌*◌, get_or, length, ◌&&◌, ◌==◌, ◌≡◌, leb, set, ◌<◌, Bool, List, ◌≤◌, ℕ,
}
use voxhammer.Render.{row_index}
use voxhammer.Render.Occupancy.{row_index-lt, row_injective}
use voxhammer.Base.Ranges.{for_range, for_range_hit}

abbrev pub in_range : ℕ → ℕ → ℕ → Bool
in_range lo hi k = leb lo k && ltb k hi

if_and :
    (a b : Bool) (m n : ℕ) → (if a then (if b then m else n) else n) ≡ (if a && b then m else n)
if_and a b m n = ground arith

module _ (d z0 z1 y0 y1 x0 x1 : ℕ) (w : ℕ → ℕ → ℕ → ℕ) where
  unfoldable pub write_row : ℕ → ℕ → List ℕ → List ℕ
  write_row z y v = for_range x0 x1 (λ x t. set t (row_index d z y x) (w z y x)) v

  unfoldable pub write_slab : ℕ → List ℕ → List ℕ
  write_slab z v = for_range y0 y1 (write_row z) v

  unfoldable pub write_box : List ℕ → List ℕ
  write_box v = for_range z0 z1 write_slab v

  module _ (hz : z1 ≤ d) (hy : y1 ≤ d) (hx : x1 ≤ d) (z y x : ℕ) (cz : z < d) (cy : y < d)
      (cx : x < d) where
    unfoldable pub read_cell : List ℕ → ℕ
    read_cell v = get_or v (row_index d z y x) 0

    abbrev IsFull : List ℕ → Type 0
    IsFull v = length v ≡ d * d * d

    same_cell :
        (i j k : ℕ)
        → j < d
        → k < d
        → (row_index d i j k == row_index d z y x) ≡ (i == z && (j == y && k == x))
    same_cell i j k cj ck =
        Bool-eq
          (λ e.
            let (a, b, c) = row_injective d i j k z y x ck cj cx cy ((==_iff _ _).0 e) in
            ground arith)
          (λ e.
            let a : i ≡ z = ground arith in
            let b : j ≡ y = ground arith in
            let c : k ≡ x = ground arith in rw (a, b, c) (ground arith))

    cell-read :
        (i j k : ℕ) (t : List ℕ)
        → i < d
        → j < d
        → k < d
        → IsFull t
        → IsFull (set t (row_index d i j k) (w i j k))
          × (read_cell (set t (row_index d i j k) (w i j k))
              ≡ (if i == z && (j == y && k == x) then w z y x else read_cell t))
    unfolding read_cell
    cell-read i j k t ci cj ck full = (
      length-set t (row_index d i j k) (w i j k) ∙ full,
      get_or-set t (row_index d i j k) (row_index d z y x) (w i j k) 0
            (omega (arith, full, row_index-lt d i j k ci cj ck))
          ∙ rw (same_cell i j k cj ck) (elim (Bool-cases (i == z && (j == y && k == x))) [
            | inl e ↦
                let a : i ≡ z = ground arith in
                let b : j ≡ y = ground arith in
                let c : k ≡ x = ground arith in rw e (rw (a, b, c) refl)
            | inr e ↦ rw e refl
          ]),
    )

    row-read :
        (i j : ℕ) (t : List ℕ)
        → i < d
        → j < d
        → IsFull t
        → IsFull (write_row i j t)
          × (read_cell (write_row i j t) ≡ (
              if in_range x0 x1 x
              then (if i == z && j == y then w z y x else read_cell t)
              else read_cell t))
    unfolding write_row
    row-read i j t ci cj full =
        for_range_hit IsFull x0 x1 _ t read_cell x
          (λ old. if i == z && j == y then w z y x else old)
          (λ k u a b n f.
            let (p, r) = cell-read i j k u ci cj (omega arith) f in (p, r ∙ ground (arith, n)))
          (λ k u a b e f.
            let (p, r) = cell-read i j k u ci cj (omega arith) f in (p, r ∙ ground (arith, e)))
          full

    slab-read :
        (i : ℕ) (t : List ℕ)
        → i < d
        → IsFull t
        → IsFull (write_slab i t)
          × (read_cell (write_slab i t) ≡ (
              if in_range y0 y1 y
              then (if i == z && in_range x0 x1 x then w z y x else read_cell t)
              else read_cell t))
    unfolding write_slab
    slab-read i t ci full =
        for_range_hit IsFull y0 y1 _ t read_cell y
          (λ old. if i == z && in_range x0 x1 x then w z y x else old)
          (λ j u a b n f.
            let (p, r) = row-read i j u ci (omega arith) f in (p, r ∙ ground (arith, n)))
          (λ j u a b e f.
            let (p, r) = row-read i j u ci (omega arith) f in (p, r ∙ ground (arith, e)))
          full

    -- A cell of the box holds the written value, and any other cell what it held.
    pub write_box-read :
        (t : List ℕ)
        → IsFull t
        → IsFull (write_box t)
          × (read_cell (write_box t) ≡ (
              if in_range z0 z1 z && (in_range y0 y1 y && in_range x0 x1 x)
              then w z y x
              else read_cell t))
    unfolding write_box
    write_box-read t full =
        let (p, r) =
          for_range_hit IsFull z0 z1 _ t read_cell z
            (λ old. if in_range y0 y1 y && in_range x0 x1 x then w z y x else old)
            (λ i u a b n f.
              let (p, r) = slab-read i u (omega arith) f in (p, r ∙ ground (arith, n)))
            (λ i u a b e f.
              let (p, r) = slab-read i u (omega arith) f in (p, r ∙ ground (arith, e)))
            full in
        (
          p,
          r
              ∙ if_and (in_range z0 z1 z) (in_range y0 y1 y && in_range x0 x1 x) (w z y x)
                  (read_cell t),
        )
