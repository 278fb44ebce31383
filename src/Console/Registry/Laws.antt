-- ===== src/Console/Registry/Laws.antt =====
-- engine/cvar/Console.cpp: laws of registration and lookup.
use mathlib.Core.Option
use voxhammer.Base.{
  refl, find-try_emplace, try_emplace-IsSorted, [], some, arith, text_eq, ◌∷◌, All, if◌then◌else◌,
  List, ◌≡◌, Text, try_emplace,
}
use voxhammer.Console.Registry.{
  Console, CVar, CVarParams, IsValid, register_cvar, new_cvar, find_cvar,
}

module _ {F : Type 0} where
  try_emplace-named :
      (k : Text) (v : CVar F) (m : List (Text × CVar F))
      → v.name ≡ k
      → All (λ e. e.1.name ≡ e.0) m
      → All (λ e. e.1.name ≡ e.0) (try_emplace k v m)
  unfolding try_emplace
  try_emplace-named k v [] n h = (n, tt)
  try_emplace-named k v ((j, w) ∷ m) n h = ground (arith, try_emplace-named k v m n)

  -- Registering a cvar keeps a valid registry valid, and from then on the name is found: with the
  -- new cvar if the name was free, and else with the one that was registered first. No other name
  -- is affected.
  pub register_cvar-find_cvar :
      (con : Console F) (name default_value description : Text) (p : CVarParams F) (other : Text)
      → IsValid con
      → let con' = register_cvar con name default_value description p in
        IsValid con'
        × (find_cvar con' other ≡ (
            if text_eq name other
            then some
                (Option.get_or (find_cvar con name) (new_cvar name default_value description p))
            else find_cvar con other))
  unfolding register_cvar find_cvar
  register_cvar-find_cvar con name default_value description p other v = (
    record {
      sorted =
          try_emplace-IsSorted name (new_cvar name default_value description p) con.cvars v.sorted;
      commands_sorted = v.commands_sorted;
      named =
          try_emplace-named name (new_cvar name default_value description p) con.cvars refl v.named;
    },
    find-try_emplace name other (new_cvar name default_value description p) con.cvars v.sorted,
  )
