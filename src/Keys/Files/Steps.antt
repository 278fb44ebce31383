-- ===== src/Keys/Files/Steps.antt =====
-- The bindings as the engine runs: the operations in any order, on a disk that others write too.
use voxhammer.Keys.Files.Laws.{load-IsUnique}
use voxhammer.Base.Int.{pos}
use voxhammer.Keys.Bindings.Laws.{
  default_bindings-IsUnique, remove_binding-IsUnique, set_binding-IsUnique,
}
use voxhammer.Base.{arith, ℕ, [], Text}
use voxhammer.Keys.Files.{
  load, check_hot_reload, load_or_create_defaults, reload, reset_to_defaults, Host, Keybindings,
}
use voxhammer.Keys.Bindings.{remove_binding, IsUnique, set_binding, KeyBinding}

-- A `Keybindings` as it is constructed.
pub new_keybindings : Keybindings
new_keybindings = record { path = []; bindings = []; last_write = pos 0 }

module _ (host : Host) where
  open host use {Disk}

  -- What the engine, the server and the key handler do with it; each load and save is on whatever disk
  -- there is by then.
  pub data Step : Keybindings → Keybindings → Type 0 where
    set_one :
        (b : KeyBinding) {kb : Keybindings}
        → Step kb (record kb { bindings = set_binding b kb.bindings })
    remove_one :
        (key : Text) (modifiers : ℕ) {kb : Keybindings}
        → Step kb (record kb { bindings = (remove_binding key modifiers kb.bindings).0 })
    reset_all : (d : Disk) {kb : Keybindings} → Step kb (reset_to_defaults host d kb).1
    load_file : (d : Disk) (path : Text) {kb : Keybindings} → Step kb (load host d path kb).0
    load_or_create :
        (d : Disk) (path : Text) {kb : Keybindings}
        → Step kb (load_or_create_defaults host d path kb).1
    reload_file : (d : Disk) {kb : Keybindings} → Step kb (reload host d kb)
    hot_reload : (d : Disk) {kb : Keybindings} → Step kb (check_hot_reload host d kb).0

  pub data Reachable : Keybindings → Type 0 where
    started : Reachable new_keybindings
    stepped : {kb kb' : Keybindings} → Reachable kb → Step kb kb' → Reachable kb'

  abbrev Sound : Keybindings → Type 0
  Sound kb = IsUnique kb.bindings

  reload-Sound : (d : Disk) (kb : Keybindings) → Sound kb → Sound (reload host d kb)
  unfolding reload
  reload-Sound d kb u = ground (arith, load-IsUnique host d kb.path kb u)

  check_hot_reload-Sound :
      (d : Disk) (kb : Keybindings) → Sound kb → Sound (check_hot_reload host d kb).0
  unfolding check_hot_reload
  check_hot_reload-Sound d kb u = ground (arith, reload-Sound d kb u)

  reset_to_defaults-Sound : (d : Disk) (kb : Keybindings) → Sound (reset_to_defaults host d kb).1
  unfolding reset_to_defaults
  reset_to_defaults-Sound d kb = default_bindings-IsUnique

  load_or_create-Sound :
      (d : Disk) (path : Text) (kb : Keybindings)
      → Sound kb
      → Sound (load_or_create_defaults host d path kb).1
  unfolding load_or_create_defaults
  load_or_create-Sound d path kb u = ground (
    arith,
    load-IsUnique host d path (record kb { path = path }) u,
    reset_to_defaults-Sound d (record kb { path = path }),
  )

  Step-Sound : {kb kb' : Keybindings} → Step kb kb' → Sound kb → Sound kb'
  Step-Sound (set_one b {kb}) u = set_binding-IsUnique b kb.bindings u
  Step-Sound (remove_one key modifiers {kb}) u = remove_binding-IsUnique key modifiers kb.bindings u
  Step-Sound (reset_all d {kb}) u = reset_to_defaults-Sound d kb
  Step-Sound (load_file d path {kb}) u = load-IsUnique host d path kb u
  Step-Sound (load_or_create d path {kb}) u = load_or_create-Sound d path kb u
  Step-Sound (reload_file d {kb}) u = reload-Sound d kb u
  Step-Sound (hot_reload d {kb}) u = check_hot_reload-Sound d kb u

  -- However the operations follow each other, and whatever the file holds, no two bindings are for
  -- the same key and modifiers.
  pub Reachable-IsUnique : (kb : Keybindings) → Reachable kb → IsUnique kb.bindings
  unfolding new_keybindings
  Reachable-IsUnique kb started = tt
  Reachable-IsUnique kb (stepped r s) = Step-Sound s (Reachable-IsUnique _ r)
