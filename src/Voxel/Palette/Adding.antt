-- ===== src/Voxel/Palette/Adding.antt =====
-- What `add_palette_color` and `set_palette_color` do to the palette.
use native.Mathlib.Decide.{ℕ_discrete}
use voxhammer.Base.{
  ==_iff, ap, [], ◌∙◌, get_or-set, if◌then◌else◌, length-set, ◌∷◌, zero, refl, arith, ltb, ◌==◌,
  Bool-cases, get_or, inr, suc, ◌≢◌, inl, none, some, ◌+◌, ◌⊎◌, Option-cases, ◌-◌, ◌<◌, ◌≡◌, ◌≤◌,
  List, ℕ,
}
use voxhammer.Voxel.Palette.{
  color_dist, Palette, IsValid, color_at, find_color, allocate, add_palette_color,
  set_palette_color,
}
use voxhammer.Voxel.Palette.Nearest.{nearest_lem}

module _ (colors : List ℕ) (rgba : ℕ) where
  -- The first index of the range that holds the colour, or none.
  abbrev FoundAt : ℕ → ℕ → ℕ → Type 0
  FoundAt i rounds k = (i ≤ k) × (k < i + rounds) × (get_or colors k 0 ≡ rgba)

  find_color-some : (rounds i k : ℕ) → find_color colors rgba rounds i ≡ some k → FoundAt i rounds k
  unfolding find_color
  find_color-some zero i k e = cc
  find_color-some (suc rounds) i k e = elim (Bool-cases (get_or colors i 0 == rgba)) [
    | inl h ↦ ground arith
    | inr h ↦
        let (a, b, c) = find_color-some rounds (i + 1) k (ground arith) in
        (omega arith, omega arith, c)
  ]

  find_color-first :
      (rounds i k j : ℕ)
      → find_color colors rgba rounds i ≡ some k
      → i ≤ j
      → j < k
      → get_or colors j 0 ≢ rgba
  unfolding find_color
  find_color-first zero i k j e p q = absurd (ground (arith, e))
  find_color-first (suc rounds) i k j e p q = elim (Bool-cases (get_or colors i 0 == rgba)) [
    | inl h ↦ absurd (ground (arith, e))
    | inr h ↦ elim (ℕ_discrete j i) [
      | yes same ↦ rw same (ground arith)
      | no other ↦ find_color-first rounds (i + 1) k j (ground arith) (omega arith) q
    ]
  ]

  find_color-none :
      (rounds i j : ℕ)
      → find_color colors rgba rounds i ≡ none
      → i ≤ j
      → j < i + rounds
      → get_or colors j 0 ≢ rgba
  unfolding find_color
  find_color-none zero i j e p q = absurd (omega arith)
  find_color-none (suc rounds) i j e p q = elim (Bool-cases (get_or colors i 0 == rgba)) [
    | inl h ↦ absurd (ground arith)
    | inr h ↦ elim (ℕ_discrete j i) [
      | yes same ↦ rw same (ground arith)
      | no other ↦ find_color-none rounds (i + 1) j (ground arith) (omega arith) (omega arith)
    ]
  ]

-- An entry in use has the colour.
abbrev pub IsListed : Palette → ℕ → ℕ → Type 0
IsListed p rgba k = (1 ≤ k) × (k < p.used) × (color_at p k ≡ rgba)

-- A colour in use gives the first index that has it, and changes nothing. Another takes the first
-- free slot; and where no slot is free, it gives the index of a nearest colour and changes nothing.
abbrev pub Registers : Palette → ℕ → Palette × ℕ → Type 0
Registers p rgba (p', idx) =
    (IsListed p rgba idx × (p' ≡ p) × ((j : ℕ) → j < idx → ¬ IsListed p rgba j))
    ⊎ (((j : ℕ) → ¬ IsListed p rgba j)
        × (p.used < 256)
        × (idx ≡ p.used)
        × (p'.used ≡ p.used + 1)
        × (color_at p' idx ≡ rgba))
    ⊎ (((j : ℕ) → ¬ IsListed p rgba j)
        × (p.used ≡ 256)
        × (p' ≡ p)
        × ((j : ℕ)
            → 1 ≤ j
            → j < 256
            → color_dist (color_at p idx) rgba ≤ color_dist (color_at p j) rgba))

-- The palette stays valid, no entry in use changes or is given up, and the index is one of 1 to 255.
abbrev pub Keeps : Palette → Palette × ℕ → Type 0
Keeps p (p', idx) =
    IsValid p'
    × (p.used ≤ p'.used)
    × ((j : ℕ) → j < p.used → color_at p' j ≡ color_at p j)
    × (1 ≤ idx)
    × (idx < 256)

not-IsListed :
    (p : Palette) (rgba : ℕ)
    → find_color p.colors rgba (p.used - 1) 1 ≡ none
    → (j : ℕ) → ¬ IsListed p rgba j
not-IsListed p rgba e j (a, b, c) =
    find_color-none p.colors rgba (p.used - 1) 1 j e a (omega arith) c

allocate_lem :
    (p : Palette) (rgba : ℕ)
    → IsValid p
    → find_color p.colors rgba (p.used - 1) 1 ≡ none
    → Keeps p (allocate p rgba) × Registers p rgba (allocate p rgba)
unfolding allocate
allocate_lem p rgba v e = elim (Bool-cases (ltb p.used 256)) [
  | inl h ↦
      let written = λ (j : ℕ). get_or-set p.colors p.used j rgba 0 (ground arith) in
      rw h (
        (
          record {
            sized = length-set p.colors p.used rgba ∙ v.sized;
            reserved = omega arith;
            bounded = ground arith;
          },
          omega arith,
          (λ j q. written j ∙ ground arith),
          v.reserved,
          ground arith,
        ),
        inr (inl (not-IsListed p rgba e, ground arith, refl, refl, written p.used ∙ ground arith)),
      )
  | inr h ↦
      let full : p.used ≡ 256 = ground arith in
      let (a, b, c) = nearest_lem p.colors rgba in
      rw h ((v, omega arith, (λ j q. refl), a, b), inr (inr (not-IsListed p rgba e, full, refl, c)))
]

-- Adding a colour to a valid palette keeps it valid and every entry in use, and returns an index from
-- 1 to 255. A colour that is in use gives its first index and changes nothing; another is written to
-- the first free slot; and where all 255 are taken, the palette is unchanged and the index is that of
-- a colour at the least distance.
pub add_palette_color_lem :
    (p : Palette) (rgba : ℕ)
    → IsValid p
    → Keeps p (add_palette_color p rgba) × Registers p rgba (add_palette_color p rgba)
unfolding add_palette_color
add_palette_color_lem p rgba v = elim (Option-cases (find_color p.colors rgba (p.used - 1) 1)) [
  | inl e ↦ rw (e, add_palette_color) (allocate_lem p rgba v e)
  | inr (i, e) ↦
      let (a, b, c) = find_color-some p.colors rgba (p.used - 1) 1 i e in
      rw (e, add_palette_color)
        (
          (v, omega arith, (λ j h. refl), a, omega arith),
          inl (
            (a, omega arith, c),
            refl,
            (λ j h (q, _, k). find_color-first p.colors rgba (p.used - 1) 1 i j e q h k),
          ),
        )
]

-- Adding a list of colours, one after the other.
pub add_all : Palette → List ℕ → Palette
add_all p [] = p
add_all p (c ∷ cs) = add_all (add_palette_color p c).0 cs

add_all-Keeps :
    (p : Palette) (cs : List ℕ) (j : ℕ)
    → IsValid p
    → j < p.used
    → color_at (add_all p cs) j ≡ color_at p j
unfolding add_all
add_all-Keeps p [] j v h = refl
add_all-Keeps p (c ∷ cs) j v h =
    let ((w, grows, same, _, _), _) = add_palette_color_lem p c v in
    add_all-Keeps (add_palette_color p c).0 cs j w (omega arith) ∙ same j h

set_palette_color-IsValid :
    (p : Palette) (idx rgba : ℕ) → IsValid p → idx < 256 → IsValid (set_palette_color p idx rgba)
unfolding set_palette_color
set_palette_color-IsValid p idx rgba v h =
    let sized = length-set p.colors idx rgba in ground (arith, sized)

-- A colour written to a slot below 256 of a valid palette stays there, whatever colours are added
-- afterwards, and slot 0 keeps its colour.
set_palette_color-pinned :
    (p : Palette) (idx rgba : ℕ) (cs : List ℕ)
    → IsValid p
    → idx < 256
    → color_at (add_all (set_palette_color p idx rgba) cs) idx
      ≡ (if idx == 0 then color_at p 0 else rgba)
unfolding set_palette_color
set_palette_color-pinned p idx rgba cs v h =
    add_all-Keeps (set_palette_color p idx rgba) cs idx (set_palette_color-IsValid p idx rgba v h)
      (ground (arith, v.reserved))
    ∙ (elim (Bool-cases (idx == 0)) [
      | inl e ↦ rw e (ap (λ j. color_at p j) ((==_iff idx 0).0 e))
      | inr e ↦ rw e (get_or-set p.colors idx idx rgba 0 (omega (arith, v.sized)) ∙ ground arith)
    ])
