-- ===== src/Console/Registry.antt =====
-- engine/cvar/Console.h and Console.cpp: cvars, commands, their registration and enumeration. A
-- float is a value of an abstract type `F`. A callback is known by whether it is there: that it is
-- called is an entry of `calls`, and what it does besides is no part of the registry.
pub mod Laws
use voxhammer.Base.{
  ◌&&◌, find, ◌==◌, ◌≡◌, All, Option, false, if◌then◌else◌, true, try_emplace, ◌%◌, ◌/◌, ◌∷◌, Bool,
  IsSorted, List, Text, [], ℕ,
}

pub data CVarType : Type 0 where
  int float bool enum vec3 color string : CVarType

pub record CVar (F : Type 0) : Type 0 where
  pub name : Text
  pub value : Text
  pub default_value : Text
  pub description : Text
  pub type : CVarType
  pub flags : ℕ
  pub enum_values : List Text
  pub range_min : F
  pub range_max : F
  pub range_step : F
  pub live_tunable : Bool
  pub on_change : Bool

pub record CVarParams (F : Type 0) : Type 0 where
  pub type : CVarType
  pub flags : ℕ
  pub enum_values : List Text
  pub range_min : F
  pub range_max : F
  pub range_step : F
  pub live_tunable : Bool
  pub on_change : Bool

pub record Command : Type 0 where
  pub name : Text
  pub description : Text

-- A call of a cvar's `on_change`, or of the sink that the server installs.
pub data Call (F : Type 0) : Type 0 where
  changed : CVar F → Call F
  sunk : CVar F → Call F

pub record Console (F : Type 0) : Type 0 where
  pub cvars : List (Text × CVar F)
  pub commands : List (Text × Command)
  pub change_sink : Bool
  pub unknown_cvars : List (Text × Text)
  pub calls : List (Call F)

-- `flags & CVAR_ARCHIVE` and `flags & CVAR_READONLY`.
abbrev pub is_archive : ℕ → Bool
is_archive flags = flags % 2 == 1

abbrev pub is_readonly : ℕ → Bool
is_readonly flags = flags / 2 % 2 == 1

module _ {F : Type 0} where
  unfoldable pub empty_console : Console F
  empty_console = record {
    cvars = [];
    commands = [];
    change_sink = false;
    unknown_cvars = [];
    calls = [];
  }

  unfoldable pub new_cvar : Text → Text → Text → CVarParams F → CVar F
  new_cvar name default_value description p = record {
    name = name;
    value = default_value;
    default_value = default_value;
    description = description;
    type = p.type;
    flags = p.flags;
    enum_values = p.enum_values;
    range_min = p.range_min;
    range_max = p.range_max;
    range_step = p.range_step;
    live_tunable = p.live_tunable;
    on_change = p.on_change;
  }

  -- `RegisterCVar`: the first registration of a name is kept.
  unfoldable pub register_cvar : Console F → Text → Text → Text → CVarParams F → Console F
  unfolding new_cvar
  register_cvar con name default_value description p = record con {
    cvars = try_emplace name (new_cvar name default_value description p) con.cvars;
  }

  -- `RegisterCommand`
  pub register_command : Console F → Text → Text → Console F
  register_command con name description = record con {
    commands = try_emplace name (record { name = name; description = description }) con.commands;
  }

  -- `FindCVar` and `FindCommand`
  unfoldable pub find_cvar : Console F → Text → Option (CVar F)
  find_cvar con name = find name con.cvars

  unfoldable pub find_command : Console F → Text → Option Command
  find_command con name = find name con.commands

-- `name.compare(0, prefix.size(), prefix) == 0`
unfoldable pub has_prefix : Text → Text → Bool
has_prefix [] name = true
has_prefix (a ∷ p) [] = false
has_prefix (a ∷ p) (b ∷ name) = a == b && has_prefix p name

-- The entries that `EnumerateCVars` and `EnumerateCommands` visit, in order.
pub enumerate {ℓ} : {V : Type ℓ} → Text → List (Text × V) → List V
enumerate prefix [] = []
enumerate prefix ((name, v) ∷ m) =
    let rest = enumerate prefix m in if has_prefix prefix name then v ∷ rest else rest

-- The maps are in the order of their keys, and a cvar has its key for a name.
pub record IsValid {F : Type 0} (con : Console F) : Type 0 where
  pub sorted : IsSorted con.cvars
  pub commands_sorted : IsSorted con.commands
  pub named : All (λ e. e.1.name ≡ e.0) con.cvars
