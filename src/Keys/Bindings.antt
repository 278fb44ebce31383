-- ===== src/Keys/Bindings.antt =====
-- engine/platform/Keybindings.cpp: the list of bindings, `Set`, `Remove`, `Dispatch` and the defaults.
pub mod Laws
use voxhammer.Keys.Target.{target_to_console_line}
use voxhammer.Base.{
  ◌==◌, ◌&&◌, ◌||◌, [], false, if◌then◌else◌, text_eq, true, ◌≡◌, Bool, ℕ, ◌∷◌, List, Text, codes,
}

pub record KeyBinding : Type 0 where
  pub key : Text
  pub modifiers : ℕ
  pub target : Text

-- `b.key == key && b.modifiers == modifiers`
abbrev pub matches : Text → ℕ → KeyBinding → Bool
matches key modifiers b = text_eq b.key key && b.modifiers == modifiers

abbrev pub default_binding : Text → Text → KeyBinding
default_binding key target = record { key = key; modifiers = 0; target = target }

-- `DefaultBindings`
unfoldable pub default_bindings : List KeyBinding
default_bindings =
    default_binding (codes "Esc") (codes "command quit")
    ∷ default_binding (codes "F1") (codes "cvar.toggle editor.active")
    ∷ default_binding (codes "F2") (codes "command screenshot")
    ∷ default_binding (codes "F3") (codes "cvar.toggle debug.show_brick_grid")
    ∷ default_binding (codes "F4") (codes "cvar.toggle debug.show_physx_wireframe")
    ∷ default_binding (codes "F5") (codes "cvar.toggle debug.pause_simulation")
    ∷ default_binding (codes "F6") (codes "command physics.dump_islands")
    ∷ default_binding (codes "F7") (codes "command setcursor")
    ∷ default_binding (codes "X") (codes "command voxel.break")
    ∷ default_binding (codes "G") (codes "command voxel.explode")
    ∷ default_binding (codes "F11") (codes "cvar.toggle renderer.hdr.enabled")
    ∷ default_binding (codes "PrintScreen") (codes "command pix_capture_next_frame")
    ∷ []

-- `Set`
pub set_binding : KeyBinding → List KeyBinding → List KeyBinding
set_binding b [] = b ∷ []
set_binding b (e ∷ es) =
    let rest = set_binding b es in
    if matches b.key b.modifiers e then record e { target = b.target } ∷ es else e ∷ rest

-- `std::remove_if` and `erase`: the bindings that do not match.
remove_matching : Text → ℕ → List KeyBinding → List KeyBinding
remove_matching key modifiers [] = []
remove_matching key modifiers (e ∷ es) =
    let rest = remove_matching key modifiers es in
    if matches key modifiers e then rest else e ∷ rest

unfoldable pub any_matches : Text → ℕ → List KeyBinding → Bool
any_matches key modifiers [] = false
any_matches key modifiers (e ∷ es) = matches key modifiers e || any_matches key modifiers es

-- `Remove`; it is false if `remove_if` found nothing to remove.
pub remove_binding : Text → ℕ → List KeyBinding → List KeyBinding × Bool
unfolding remove_matching
remove_binding key modifiers es =
    if any_matches key modifiers es then (remove_matching key modifiers es, true) else (es, false)

-- What the first match does: its console line is executed, if there is one and `exec_line` is set.
pub fire : Bool → Text → Bool × List Text
fire exec target = (
  true,
  elim (target_to_console_line target) [
    | [] ↦ []
    | c ∷ line ↦ if exec then (c ∷ line) ∷ [] else []
  ],
)

-- `Dispatch`: whether a binding fired, and the lines executed.
pub dispatch : Bool → Text → ℕ → List KeyBinding → Bool × List Text
dispatch exec key modifiers [] = (false, [])
dispatch exec key modifiers (b ∷ bs) =
    let rest = dispatch exec key modifiers bs in
    if matches key modifiers b then fire exec b.target else rest

-- No two bindings are for the same key and modifiers.
abbrev pub IsUnique : List KeyBinding → Type 0
IsUnique [] = Unit {0}
IsUnique (b ∷ bs) = (any_matches b.key b.modifiers bs ≡ false) × IsUnique bs
