-- ===== src/Keys/Files.antt =====
-- engine/platform/Keybindings.cpp: the bindings file: `Load`, `Save`, `LoadOrCreateDefaults`,
-- `Reload`, `CheckHotReload` and `ResetToDefaults`. toml++ and the file system are parameters; the log
-- is not modelled.
pub mod Laws
pub mod RoundTrip
pub mod Steps
use voxhammer.Keys.Modifiers.{mod_names, parse_mods}
use voxhammer.Base.Int.{pos, ◌==ℤ◌, negsuc, ℤ}
use voxhammer.Keys.Bindings.{any_matches, default_bindings, KeyBinding}
use mathlib.Core.Option
use voxhammer.Base.{
  is_nil, find, length, ◌&&◌, ◌++◌, not, true, ◌||◌, [], false, map, Bool, if◌then◌else◌, ◌∷◌, ◌≡◌,
  Option, none, some, List, Text, codes,
}

-- What the code uses of toml++ and of the file system, as they are documented.
pub record Host : Type 1 where
  pub Node : Type 0
  pub Table : Type 0
  -- The table with the given entries inserted, and the lookup of a key.
  pub make_table : List (Text × Node) → Table
  pub look_up : Table → Text → Option Node
  pub text_node : Text → Node
  pub array_node : List Node → Node
  pub table_node : Table → Node
  pub as_text : Node → Option Text
  pub as_array : Node → Option (List Node)
  pub as_table : Node → Option Table
  pub as_text-text_node : (s : Text) → as_text (text_node s) ≡ some s
  pub as_array-array_node : (ns : List Node) → as_array (array_node ns) ≡ some ns
  pub as_table-table_node : (t : Table) → as_table (table_node t) ≡ some t
  pub look_up-make_table :
      (kvs : List (Text × Node)) (key : Text) → look_up (make_table kvs) key ≡ find key kvs
  pub Disk : Type 0
  -- `toml::parse_file`: the root table, or nothing where it throws.
  pub parse_file : Disk → Text → Option Table
  -- The comment lines and the printed root, written to the path; nothing if it cannot be opened.
  pub write_file : Disk → Text → Table → Option Disk
  pub exists_file : Disk → Text → Bool
  -- `MtimeOf`: the time of the last write, and 0 if there is none.
  pub mtime_of : Disk → Text → ℤ
  -- A table whose strings are UTF-8; its printed document is parsed as the same table.
  pub IsText : Table → Type 0
  pub parse_file-write_file :
      (d d' : Disk) (path : Text) (root : Table)
      → IsText root
      → write_file d path root ≡ some d'
      → parse_file d' path ≡ some root

pub record Keybindings : Type 0 where
  pub path : Text
  pub bindings : List KeyBinding
  pub last_write : ℤ

module _ (host : Host) where
  open host use {
    Node, Table, make_table, look_up, Disk, text_node, array_node, table_node, as_text, as_array,
    as_table, parse_file, write_file, exists_file, mtime_of,
  }

  -- `(*t)[key].value_or(std::string{})`
  text_at : Text → Table → Text
  text_at key t = Option.get_or (Option.bind (look_up t key) as_text) []

  -- `root[key].as_array()`
  pub array_at : Text → Table → List Node
  array_at key t = Option.get_or (Option.bind (look_up t key) as_array) []

  texts_of : List Node → List Text
  texts_of [] = []
  texts_of (n ∷ ns) = let rest = texts_of ns in elim (as_text n) [ some s ↦ s ∷ rest | none ↦ rest ]

  -- The binding that a table of the array describes.
  pub read_binding : Table → KeyBinding
  unfolding text_at array_at texts_of
  read_binding t = record {
    key = text_at (codes "key") t;
    modifiers = parse_mods (texts_of (array_at (codes "mods") t));
    target = text_at (codes "target") t;
  }

  -- The tests of the loop: what `loaded` is after a table.
  pub keep_binding : List KeyBinding → KeyBinding → List KeyBinding
  keep_binding loaded b =
      if is_nil b.key || is_nil b.target
      then loaded
      else if any_matches b.key b.modifiers loaded
      then loaded
      else loaded ++ b ∷ []

  pub read_node : List KeyBinding → Node → List KeyBinding
  unfolding read_binding keep_binding
  read_node loaded n = elim (as_table n) [
    | none ↦ loaded
    | some t ↦ keep_binding loaded (read_binding t)
  ]

  pub read_nodes : List KeyBinding → List Node → List KeyBinding
  unfolding read_node
  read_nodes loaded [] = loaded
  read_nodes loaded (n ∷ ns) = read_nodes (read_node loaded n) ns

  -- `Load`
  pub load : Disk → Text → Keybindings → Keybindings × Bool
  unfolding read_nodes array_at
  load d path kb = elim (parse_file d path) [
    | none ↦ (record kb { path = path }, false)
    | some root ↦ (
      record {
        path = path;
        bindings = read_nodes [] (array_at (codes "bind") root);
        last_write = mtime_of d path;
      },
      true,
    )
  ]

  binding_table : KeyBinding → Table
  binding_table b = make_table (
      (codes "key", text_node b.key)
      ∷ (codes "mods", array_node (map text_node (mod_names b.modifiers)))
      ∷ (codes "target", text_node b.target)
      ∷ [])

  binding_node : KeyBinding → Node
  unfolding binding_table
  binding_node b = table_node (binding_table b)

  -- The root that `Save` prints.
  pub root_table : List KeyBinding → Table
  unfolding binding_node
  root_table bs = make_table ((codes "bind", array_node (map binding_node bs)) ∷ [])

  -- `Save`: the disk, and the number of bindings written or -1.
  unfoldable pub save : Disk → Keybindings → Disk × ℤ
  unfolding root_table
  save d kb = elim (write_file d kb.path (root_table kb.bindings)) [
    | none ↦ (d, negsuc 0)
    | some d' ↦ (d', pos (length kb.bindings))
  ]

  -- `ResetToDefaults`
  pub reset_to_defaults : Disk → Keybindings → Disk × Keybindings
  reset_to_defaults d kb =
      let kb' = record kb { bindings = default_bindings } in ((save d kb').0, kb')

  -- `LoadOrCreateDefaults`
  pub load_or_create_defaults : Disk → Text → Keybindings → Disk × Keybindings
  load_or_create_defaults d path kb =
      let kb' = record kb { path = path } in
      if exists_file d path then (d, (load d path kb').0) else reset_to_defaults d kb'

  -- `Reload`
  pub reload : Disk → Keybindings → Keybindings
  reload d kb = if is_nil kb.path then kb else (load d kb.path kb).0

  -- `CheckHotReload`
  pub check_hot_reload : Disk → Keybindings → Keybindings × Bool
  check_hot_reload d kb =
      let m = mtime_of d kb.path in
      if is_nil kb.path
      then (kb, false)
      else if not (m ==ℤ pos 0) && not (m ==ℤ kb.last_write)
      then (reload d kb, true)
      else (kb, false)
