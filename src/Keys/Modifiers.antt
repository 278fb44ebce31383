-- ===== src/Keys/Modifiers.antt =====
-- engine/platform/Keybindings.cpp: `ParseMods` and `ModNames`. A mask is a natural number.
use voxhammer.Base.{
  arith, ◌++◌, ◌==◌, [], ◌%◌, ◌+◌, ◌/◌, Bool, if◌then◌else◌, ◌∷◌, ◌≡◌, text_eq, ℕ, List, Text,
  codes,
}

abbrev pub mod_shift : ℕ
mod_shift = 1

abbrev pub mod_ctrl : ℕ
mod_ctrl = 2

abbrev pub mod_alt : ℕ
mod_alt = 4

-- `mods & bit` and `m |= bit`, for a power of two.
abbrev pub has_bit : ℕ → ℕ → Bool
has_bit bit m = m / bit % 2 == 1

abbrev pub or_bit : ℕ → ℕ → ℕ
or_bit bit m = if has_bit bit m then m else m + bit

-- The body of the loop of `ParseMods`.
parse_mod : ℕ → Text → ℕ
parse_mod m n =
    if text_eq n (codes "Shift")
    then or_bit mod_shift m
    else if text_eq n (codes "Ctrl")
    then or_bit mod_ctrl m
    else if text_eq n (codes "Alt")
    then or_bit mod_alt m
    else m

parse_mods_from : ℕ → List Text → ℕ
unfolding parse_mod
parse_mods_from m [] = m
parse_mods_from m (n ∷ names) = parse_mods_from (parse_mod m n) names

-- `ParseMods`
pub parse_mods : List Text → ℕ
parse_mods names = parse_mods_from 0 names

-- `ModNames`
unfoldable pub mod_names : ℕ → List Text
mod_names mods =
    (if has_bit mod_ctrl mods then codes "Ctrl" ∷ [] else [])
    ++ ((if has_bit mod_shift mods then codes "Shift" ∷ [] else [])
        ++ (if has_bit mod_alt mods then codes "Alt" ∷ [] else []))

-- The modifiers of a binding are read back from their names; bits that are no modifier are lost.
pub parse_mods-mod_names : (mods : ℕ) → parse_mods (mod_names mods) ≡ mods % 8
unfolding parse_mods parse_mods_from parse_mod mod_names text_eq
parse_mods-mod_names mods = ground arith
