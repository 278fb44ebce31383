-- ===== src/Tests/Bindings.antt =====
-- engine/platform/Keybindings and the key specifications and command line of game/main.cpp: two bindings, and a disk with one file.
use voxhammer.Console.Registry.{has_prefix}
use voxhammer.Game.Args.{no_args, value_of, parse_arg, parse_from, parse_args}
use voxhammer.Game.Keys.Restart.{bind_command-dispatch}
use voxhammer.Game.Keys.{
  join_words, key_mod, read_parts, split_plus, bind_command, parse_key_spec-key_spec, key_spec,
  parse_key_spec,
}
use voxhammer.Keys.Files.RoundTrip.{IsComplete, load-save}
use voxhammer.Base.Int.{pos}
use voxhammer.Base.{
  All, arith, true, refl, [], find, text_eq, ◌≡◌, ◌∷◌, Option, none, some, List, Text, codes,
}
use voxhammer.Keys.Files.{load, reset_to_defaults, save, Host, Keybindings}
use voxhammer.Keys.Bindings.{
  fire, dispatch, set_binding, IsUnique, any_matches, default_binding, KeyBinding,
}
use voxhammer.Keys.Files.Steps.{
  Reachable-IsUnique, new_keybindings, set_one, started, stepped, reset_all,
}

-- A document as a tree: a text, or a list.
pub data Tree : Type 0 where
  leaf : Text → Tree
  tip : Tree
  fork : Tree → Tree → Tree

tree_array : List Tree → Tree
tree_array [] = tip
tree_array (n ∷ ns) = fork n (tree_array ns)

pub tree_table : List (Text × Tree) → Tree
tree_table [] = tip
tree_table ((k, v) ∷ kvs) = fork (fork (leaf k) v) (tree_table kvs)

pub leaf_text : Tree → Option Text
leaf_text (leaf s) = some s
leaf_text _ = none

pub leaf_text-leaf : (s : Text) → leaf_text (leaf s) ≡ some s
unfolding leaf_text
leaf_text-leaf s = refl

tree_elements : Tree → Option (List Tree)
tree_elements (leaf s) = none
tree_elements tip = some []
tree_elements (fork n t) = elim (tree_elements t) [ none ↦ none | some ns ↦ some (n ∷ ns) ]

tree_entry : Tree → Tree → Option (Text × Tree)
tree_entry (leaf k) v = some (k, v)
tree_entry _ v = none

pub tree_entries : Tree → Option (List (Text × Tree))
unfolding tree_entry
tree_entries (leaf s) = none
tree_entries tip = some []
tree_entries (fork tip t) = none
tree_entries (fork (leaf s) t) = none
tree_entries (fork (fork k v) t) = elim (tree_entries t) [
  | none ↦ none
  | some kvs ↦ elim (tree_entry k v) [ none ↦ none | some e ↦ some (e ∷ kvs) ]
]

tree_elements-tree_array : (ns : List Tree) → tree_elements (tree_array ns) ≡ some ns
unfolding tree_elements tree_array
tree_elements-tree_array [] = refl
tree_elements-tree_array (n ∷ ns) = rw (tree_elements-tree_array ns) refl

pub tree_entries-tree_table : (kvs : List (Text × Tree)) → tree_entries (tree_table kvs) ≡ some kvs
unfolding tree_entries tree_table tree_entry
tree_entries-tree_table [] = refl
tree_entries-tree_table ((k, v) ∷ kvs) = rw (tree_entries-tree_table kvs) refl

pub written :
    (root : List (Text × Tree)) (d' : Option (List (Text × Tree)))
    → some (some root) ≡ some d'
    → d' ≡ some root
written root d' e = cc

abbrev small_host : Host
small_host = record {
  Node = Tree;
  Table = List (Text × Tree);
  make_table = λ kvs. kvs;
  look_up = λ t key. find key t;
  text_node = leaf;
  array_node = tree_array;
  table_node = tree_table;
  as_text = leaf_text;
  as_array = tree_elements;
  as_table = tree_entries;
  as_text-text_node = leaf_text-leaf;
  as_array-array_node = tree_elements-tree_array;
  as_table-table_node = tree_entries-tree_table;
  look_up-make_table = λ kvs key. refl;
  Disk = Option (List (Text × Tree));
  parse_file = λ d path. d;
  write_file = λ d path root. some (some root);
  exists_file = λ d path. true;
  mtime_of = λ d path. pos 5;
  IsText = λ t. Unit {0};
  parse_file-write_file = λ d d' path root u e. written root d' e;
}

abbrev jump : KeyBinding
jump = record { key = codes "J"; modifiers = 3; target = codes "command jump high" }

abbrev two : List KeyBinding
two = jump ∷ default_binding (codes "X") (codes "cvar.toggle x") ∷ []

abbrev kept : Keybindings
kept = record { path = codes "k"; bindings = two; last_write = pos 0 }

two-IsUnique : IsUnique two
unfolding any_matches text_eq
two-IsUnique = (refl, (refl, tt))

load-save_example :
    ((save small_host none kept).1 ≡ pos 2)
    × (load small_host (save small_host none kept).0 (codes "k") new_keybindings
        ≡ (record kept { last_write = pos 5 }, true))
unfolding save
load-save_example =
    load-save small_host none kept new_keybindings two-IsUnique
      ((refl, refl, omega arith), ((refl, refl, omega arith), tt)) tt (λ e. cc)

Reachable-IsUnique_example :
    IsUnique (set_binding jump (reset_to_defaults small_host none new_keybindings).1.bindings)
Reachable-IsUnique_example =
    Reachable-IsUnique small_host
      (record (reset_to_defaults small_host none new_keybindings).1 {
        bindings = set_binding jump (reset_to_defaults small_host none new_keybindings).1.bindings;
      })
      (stepped (stepped started (reset_all none)) (set_one jump))

parse_key_spec-key_spec_example : parse_key_spec (key_spec (codes "F5") 3) ≡ (codes "F5", 3)
parse_key_spec-key_spec_example = parse_key_spec-key_spec (codes "F5") 3 refl

two-IsComplete : All (IsComplete small_host) two
two-IsComplete = ((refl, refl, omega arith), ((refl, refl, omega arith), tt))

bind_command-dispatch_example :
    dispatch true
      (codes "K")
      2
      (load small_host
        (bind_command small_host (codes "Ctrl+K" ∷ codes "command" ∷ codes "quit" ∷ []) none kept).0
        (codes "k")
        new_keybindings).0.bindings
    ≡ fire true (codes "command quit")
unfolding save parse_key_spec split_plus read_parts key_mod join_words text_eq
bind_command-dispatch_example =
    bind_command-dispatch small_host (codes "Ctrl+K") (codes "command") (codes "quit" ∷ []) none
      kept new_keybindings true two-IsUnique two-IsComplete refl refl tt (λ e. cc)

two_flags :
    parse_args (codes "--no-remote" ∷ codes "--cvars=a=b" ∷ codes "--fast" ∷ codes "--remote" ∷ [])
    ≡ record no_args { cvars_path = codes "a=b" }
unfolding parse_args parse_from parse_arg value_of text_eq has_prefix
two_flags = refl
