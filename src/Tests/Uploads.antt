-- ===== src/Tests/Uploads.antt =====
-- engine/cvar/Console.cpp and engine/console/ConsoleServer.cpp: saved cvars and queued messages of a
-- small registry.
use voxhammer.Tests.Consoles.{small_floats, small, params, version, quiet}
use voxhammer.Tests.Bindings.{
  Tree, leaf, tree_table, leaf_text, tree_entries, leaf_text-leaf, tree_entries-tree_table, written,
}
use voxhammer.Console.Registry.{
  string, is_archive, CVar, empty_console, new_cvar, register_cvar, Console, find_cvar,
}
use mathlib.Core.Option
use voxhammer.Console.Setting.{check_value, stored}
use voxhammer.Console.Files.{
  saved_count, count_saved, is_saved, root_of, CvarHost, save_cvars_toml, load_cvars_toml,
}
use voxhammer.Console.Files.RoundTrip.{to_default, load_cvars_toml-save_cvars_toml}
use voxhammer.Server.Messages.{Json}
use voxhammer.Server.Queue.{Engine, message, command, drain}
use voxhammer.Server.Queue.Laws.{drain-is_readonly}
use voxhammer.Base.{
  arith, inr, inl, Bool-cases, refl, ◌≡◌, false, none, text_ltb, text_eq, true, try_emplace, find,
  if◌then◌else◌, ◌∷◌, [], some, Bool, Text, List, Option, codes,
}

-- A message is the text of its type; it has no topics and its keys have their defaults.
abbrev plain_json : Json Bool
plain_json = record {
  J = Text;
  parse = λ s. some s;
  value = λ s key d. some (if text_eq key (codes "type") then s else codes "version");
  member = λ s key. none;
  elements = λ s. [];
  text_of = λ s. some s;
  text_node = λ s. s;
  bool_node = λ b. if b then codes "true" else codes "false";
  nat_node = λ n. n ∷ [];
  float_node = λ b. [];
  array_node = λ ss. [];
  object_node = λ kvs. [];
  dump = λ s. s;
}

abbrev engine : Engine Bool
engine = record {
  hub = record {
    clients = record { ws_clients = (codes "c", []) ∷ []; written = [] };
    con = small;
    running = true;
    upload_handler = false;
    uploads = [];
  };
  tasks = message (codes "c") (codes "set_cvar") ∷ command (codes "version 9") ∷ [];
  answers = [];
}

drain-is_readonly_example :
    find_cvar (drain small_floats plain_json quiet (codes "0") engine).0.hub.con (codes "version")
    ≡ some version
unfolding register_cvar new_cvar find_cvar find try_emplace text_eq text_ltb empty_console
drain-is_readonly_example =
    drain-is_readonly small_floats plain_json quiet (codes "0") (codes "version") version refl
      (λ con name args k. k) engine refl

abbrev toml_host : CvarHost
toml_host = record {
  Node = Tree;
  Table = List (Text × Tree);
  make_table = λ kvs. kvs;
  entries = λ t. t;
  look_up = λ t key. find key t;
  text_node = leaf;
  int_node = λ n. leaf [];
  table_node = tree_table;
  as_text = leaf_text;
  as_int = λ n. none;
  as_table = tree_entries;
  as_text-text_node = leaf_text-leaf;
  as_table-table_node = tree_entries-tree_table;
  look_up-make_table = λ kvs key. refl;
  entries-make_table = λ kvs s. refl;
  Disk = Option (List (Text × Tree));
  parse_file = λ d path. d;
  write_file = λ d path root. some (some root);
  exists_file = λ d path. true;
  IsUtf8 = λ t. Unit {0};
  parse_file-write_file = λ d d' path root u e. (refl, written root d' e);
}

-- A registry with a cvar that is saved, and the same at its default.
abbrev note : CVar Bool
note = new_cvar (codes "note") (codes "a") [] (params string 1)

abbrev high : CVar Bool
high = record note { value = codes "b" }

abbrev tuned : Console Bool
tuned = record small { cvars = (codes "note", high) ∷ [] }

abbrev untuned : Console Bool
untuned = record small { cvars = (codes "note", note) ∷ [] }

high-stored : check_value small_floats high high.value high.type ≡ stored high.value
unfolding check_value new_cvar
high-stored = refl

untuned-find_cvar : (j : Text) → find_cvar untuned j ≡ Option.map to_default (find_cvar tuned j)
unfolding find_cvar find new_cvar
untuned-find_cvar j = elim (Bool-cases (text_eq (codes "note") j)) [
  | inl e ↦ rw e refl
  | inr e ↦ rw e refl
]

tuned-stored :
    (j : Text) (cv : CVar Bool)
    → find_cvar tuned j ≡ some cv
    → is_archive cv.flags ≡ true
    → check_value small_floats cv cv.value cv.type ≡ stored cv.value
unfolding find_cvar find
tuned-stored j cv e a = elim (Bool-cases (text_eq (codes "note") j)) [
  | inl f ↦
      let same : some high ≡ some cv = rw f at e in
      let here : high ≡ cv = cc in rw (← here) high-stored
  | inr f ↦ let none_is : none ≡ some cv = rw f at e in absurd (ground (arith, none_is))
]

load_cvars_toml-save_cvars_toml_example :
    let (after, ok) =
      load_cvars_toml toml_host small_floats (some (root_of toml_host tuned)) (codes "f") untuned in
    (ok ≡ true)
    × ((j : Text) (cv : CVar Bool)
        → find_cvar tuned j ≡ some cv
        → find_cvar after j ≡ some (if is_archive cv.flags then cv else to_default cv))
    × ((j : Text) → find j after.unknown_cvars ≡ find j tuned.unknown_cvars)
unfolding new_cvar saved_count count_saved is_saved text_eq register_cvar empty_console find
    save_cvars_toml
load_cvars_toml-save_cvars_toml_example =
    load_cvars_toml-save_cvars_toml toml_host small_floats tuned untuned (tt, tt) tt (λ j h. refl)
      untuned-find_cvar none (some (root_of toml_host tuned)) (codes "f") 1 tt tuned-stored refl
