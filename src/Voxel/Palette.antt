-- ===== src/Voxel/Palette.antt =====
-- engine/voxel/VoxelWorld.h and VoxelWorld.cpp: the merged palette (`palette_`, `paletteUsed_`) with
-- `AddPaletteColor` and `SetPaletteColor`. A colour is a 32-bit word, R in its lowest byte.
pub mod Nearest
pub mod Adding
use voxhammer.Base.Int.{◌*ℤ◌, ◌-ℤ◌, pos, ◌+ℤ◌, pos_part, ℤ}
use voxhammer.Base.{
  arith, length-replicate, leb, zero, none, set, ◌+◌, ◌≤◌, Option, ltb, some, suc, ◌==◌, ◌≡◌, List,
  get_or, if◌then◌else◌, length, replicate, ◌%◌, ◌-◌, ◌/◌, ◌^◌, ℕ,
}

pub record Palette : Type 0 where
  pub colors : List ℕ
  pub used : ℕ

-- `palette_ = {}; paletteUsed_ = 1;` of `Clear`.
pub clear_palette : Palette
unfolding replicate
clear_palette = record { colors = replicate 256 0; used = 1 }

abbrev pub color_at : Palette → ℕ → ℕ
color_at p i = get_or p.colors i 0

-- `for (i = i; rounds > 0; ++i) if (palette_[i] == rgba) return i;`
unfoldable pub find_color : List ℕ → ℕ → ℕ → ℕ → Option ℕ
find_color colors rgba zero i = none
find_color colors rgba (suc rounds) i =
    let rest = find_color colors rgba rounds (i + 1) in
    if get_or colors i 0 == rgba then some i else rest

-- The lambdas `r8`, `g8` and `b8`.
abbrev pub r8 : ℕ → ℕ
r8 c = c % 256

abbrev pub g8 : ℕ → ℕ
g8 c = c / 2 ^ 8 % 256

abbrev pub b8 : ℕ → ℕ
b8 c = c / 2 ^ 16 % 256

abbrev square_diff : ℕ → ℕ → ℤ
square_diff a b = let d = pos a -ℤ pos b in d *ℤ d

-- `dr * dr + dg * dg + db * db`, cast to `unsigned`.
unfoldable pub color_dist : ℕ → ℕ → ℕ
color_dist c rgba =
    pos_part
      (square_diff (r8 c) (r8 rgba) +ℤ square_diff (g8 c) (g8 rgba) +ℤ square_diff (b8 c) (b8 rgba))

abbrev pub uint_max : ℕ
uint_max = 2 ^ 32 - 1

-- The loop from index `i`, with `bestDist` and `bestIdx`; the result is `bestIdx`.
unfoldable pub nearest : List ℕ → ℕ → ℕ → ℕ → ℕ → ℕ → ℕ
nearest colors rgba zero i best_dist best_idx = best_idx
nearest colors rgba (suc rounds) i best_dist best_idx =
    let d = color_dist (get_or colors i 0) rgba in
    let closer = ltb d best_dist in
    nearest colors rgba rounds (i + 1) (if closer then d else best_dist)
      (if closer then i else best_idx)

-- What follows the search for the exact colour.
allocate : Palette → ℕ → Palette × ℕ
allocate p rgba =
    if ltb p.used 256
    then (record { colors = set p.colors p.used rgba; used = p.used + 1 }, p.used)
    else (p, nearest p.colors rgba 255 1 uint_max 1)

-- `AddPaletteColor`
pub add_palette_color : Palette → ℕ → Palette × ℕ
unfolding allocate
add_palette_color p rgba = elim (find_color p.colors rgba (p.used - 1) 1) [
  | some i ↦ (p, i)
  | none ↦ allocate p rgba
]

-- `SetPaletteColor`
pub set_palette_color : Palette → ℕ → ℕ → Palette
set_palette_color p idx rgba = if idx == 0 then p else record {
  colors = set p.colors idx rgba;
  used = if leb p.used idx then idx + 1 else p.used;
}

-- 256 colours, and the first free index among them or just after.
pub record IsValid (p : Palette) : Type 0 where
  pub sized : length p.colors ≡ 256
  pub reserved : 1 ≤ p.used
  pub bounded : p.used ≤ 256

pub clear_palette-IsValid : IsValid clear_palette
unfolding clear_palette
clear_palette-IsValid = record {
  sized = length-replicate {A = ℕ} 256 0;
  reserved = omega arith;
  bounded = omega arith;
}
