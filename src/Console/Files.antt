-- ===== src/Console/Files.antt =====
-- engine/cvar/Console.cpp, "TOML persistence": `LoadCvarsToml` and `SaveCvarsToml`. The TOML library
-- and the disk are a record with what they document; the log is not modelled.
pub mod Entries
pub mod Loading
pub mod Printing
pub mod RoundTrip
use mathlib.Core.Option
use voxhammer.Base.Int.{ℤ, pos}
use voxhammer.Console.Floats.{Floats}
use voxhammer.Console.Registry.{CVar, Console, find_cvar, is_archive}
use voxhammer.Console.Setting.{set_cvar_override}
use voxhammer.Base.{
  false, IsSorted, text_ltb, true, find, length, not, suc, text_eq, [], codes, if◌then◌else◌, map,
  try_emplace, ◌&&◌, ◌+◌, ◌≡◌, none, some, ◌∷◌, Text, List, Option, Bool, ℕ,
}

pub record CvarHost : Type 1 where
  pub Node : Type 0
  pub Table : Type 0
  -- The table with the given entries inserted, its entries in the order of the keys, and the lookup.
  pub make_table : List (Text × Node) → Table
  pub entries : Table → List (Text × Node)
  pub look_up : Table → Text → Option Node
  pub text_node : Text → Node
  pub int_node : ℤ → Node
  pub table_node : Table → Node
  pub as_text : Node → Option Text
  pub as_int : Node → Option ℤ
  pub as_table : Node → Option Table
  pub as_text-text_node : (s : Text) → as_text (text_node s) ≡ some s
  pub as_table-table_node : (t : Table) → as_table (table_node t) ≡ some t
  pub look_up-make_table :
      (kvs : List (Text × Node)) (key : Text) → look_up (make_table kvs) key ≡ find key kvs
  pub entries-make_table :
      (kvs : List (Text × Node)) → IsSorted kvs → entries (make_table kvs) ≡ kvs
  pub Disk : Type 0
  -- `toml::parse_file`: the root table, or nothing where it throws.
  pub parse_file : Disk → Text → Option Table
  -- The comment line and the printed root, written to the path; nothing if it cannot be opened.
  pub write_file : Disk → Text → Table → Option Disk
  pub exists_file : Disk → Text → Bool
  -- A table whose strings are UTF-8; its printed document is parsed as the same table.
  pub IsUtf8 : Table → Type 0
  pub parse_file-write_file :
      (d d' : Disk) (path : Text) (t : Table)
      → IsUtf8 t
      → write_file d path t ≡ some d'
      → (exists_file d' path ≡ true) × (parse_file d' path ≡ some t)

abbrev pub schema_version : ℤ
schema_version = pos 1

-- `toml::table::insert_or_assign`, on the entries in order.
unfoldable pub insert_or_assign {ℓ} : {V : Type ℓ} → Text → V → List (Text × V) → List (Text × V)
insert_or_assign k v [] = (k, v) ∷ []
insert_or_assign k v ((j, w) ∷ m) =
    let rest = insert_or_assign k v m in
    if text_eq j k then (j, v) ∷ m else if text_ltb k j then (k, v) ∷ (j, w) ∷ m else (j, w) ∷ rest

-- `ApplyMigrations`: version 1 is the first, so nothing is done yet.
unfoldable pub apply_migrations : ℤ → List (Text × Text) → List (Text × Text)
apply_migrations from_version kv = kv

module _ {F : Type 0} where
  -- `(cv.flags & CVAR_ARCHIVE) && cv.value != cv.default_value`
  unfoldable pub is_saved : CVar F → Bool
  is_saved cv = is_archive cv.flags && not (text_eq cv.value cv.default_value)

  -- The first loop of `SaveCvarsToml`.
  unfoldable pub save_archived : List (Text × CVar F) → List (Text × Text) → List (Text × Text)
  save_archived [] out = out
  save_archived ((name, cv) ∷ cvars) out =
      save_archived cvars (if is_saved cv then insert_or_assign name cv.value out else out)

-- The second loop.
unfoldable pub save_unknown : List (Text × Text) → List (Text × Text) → List (Text × Text)
save_unknown [] out = out
save_unknown ((key, v) ∷ m) out = save_unknown m (insert_or_assign key v out)

-- The entries of the table `cvars` that is saved.
unfoldable pub saved_entries : {F : Type 0} → Console F → List (Text × Text)
saved_entries con = save_unknown con.unknown_cvars (save_archived con.cvars [])

-- `count`
unfoldable pub count_saved : {F : Type 0} → List (Text × CVar F) → ℕ
count_saved [] = 0
count_saved ((name, cv) ∷ cvars) =
    let rest = count_saved cvars in if is_saved cv then suc rest else rest

unfoldable pub saved_count : {F : Type 0} → Console F → ℕ
saved_count con = count_saved con.cvars + length con.unknown_cvars

module _ (host : CvarHost) where
  open host use {Node, Table, Disk}

  texts : List (Text × Text) → List (Text × Node)
  texts kvs = map (λ e. (e.0, host.text_node e.1)) kvs

  pub root_of : {F : Type 0} → Console F → Table
  unfolding texts
  root_of con = host.make_table (
      (codes "cvars", host.table_node (host.make_table (texts (saved_entries con))))
      ∷ (
        codes "meta",
        host.table_node (
            host.make_table (
              (codes "engine", host.text_node (codes "voxhammer"))
              ∷ (codes "schema_version", host.int_node schema_version)
              ∷ [])),
      )
      ∷ [])

  -- `SaveCvarsToml`: the disk and the count, where `none` is -1.
  unfoldable pub save_cvars_toml : {F : Type 0} → Disk → Text → Console F → Option (Disk × ℕ)
  unfolding root_of
  save_cvars_toml d path con = elim (host.write_file d path (root_of con)) [
    | none ↦ none
    | some d' ↦ some (d', saved_count con)
  ]

  -- The strings of the table, by key.
  read_entry : Text → Option Text → List (Text × Text) → List (Text × Text)
  read_entry k none kv = kv
  read_entry k (some s) kv = try_emplace k s kv

  read_entries : List (Text × Node) → List (Text × Text) → List (Text × Text)
  unfolding read_entry
  read_entries [] kv = kv
  read_entries ((k, n) ∷ ns) kv = read_entries ns (read_entry k (host.as_text n) kv)

  -- `root[key].as_table()`
  table_at : Text → Table → Option Table
  table_at key root = Option.bind (host.look_up root key) host.as_table

  read_table : Option Table → List (Text × Text)
  unfolding read_entries
  read_table none = []
  read_table (some t) = read_entries (host.entries t) []

  file_version : Table → ℤ
  unfolding table_at
  file_version root =
      Option.get_or
        (Option.bind (table_at (codes "meta") root)
          (λ t. Option.bind (host.look_up t (codes "schema_version")) host.as_int))
        (pos 0)

  pub read_cvars : Table → List (Text × Text)
  unfolding read_table table_at
  read_cvars root = read_table (table_at (codes "cvars") root)

  module _ (fl : Floats) where
    open fl use {F}

    -- A round of the last loop of `LoadCvarsToml`.
    pub load_entry : Text → Text → Console F → Console F
    load_entry key v con = elim (find_cvar con key) [
      | some cv ↦ (set_cvar_override fl con key v).0
      | none ↦ record con { unknown_cvars = try_emplace key v con.unknown_cvars }
    ]

    pub load_entries : List (Text × Text) → Console F → Console F
    load_entries [] con = con
    load_entries ((key, v) ∷ kv) con = load_entries kv (load_entry key v con)

    -- `LoadCvarsToml`
    pub load_cvars_toml : Disk → Text → Console F → Console F × Bool
    unfolding file_version read_cvars
    load_cvars_toml d path con =
        if not (host.exists_file d path) then (con, true) else elim (host.parse_file d path) [
          | none ↦ (con, false)
          | some root ↦
              let kv = apply_migrations (file_version root) (read_cvars root) in
              (load_entries kv (record con { unknown_cvars = [] }), true)
        ]
