-- ===== src/Keys/Files/Laws.antt =====
-- engine/platform/Keybindings.cpp, `Load`: the conflict policy.
use voxhammer.Base.{
  true, text_eq_iff, ◌||◌, refl, [], arith, inr, inl, Option-cases, false, ◌++◌, ◌∷◌, ℕ, ◌≡◌, none,
  some, List, Text, codes,
}
use voxhammer.Keys.Files.{
  array_at, keep_binding, read_binding, load, read_node, read_nodes, Host, Keybindings,
}
use voxhammer.Keys.Bindings.{IsUnique, any_matches, KeyBinding}

pub any_matches-append :
    (key : Text) (modifiers : ℕ) (bs cs : List KeyBinding)
    → any_matches key modifiers (bs ++ cs)
      ≡ (any_matches key modifiers bs || any_matches key modifiers cs)
unfolding any_matches
any_matches-append key modifiers [] cs = refl
any_matches-append key modifiers (e ∷ es) cs =
    ground (arith, any_matches-append key modifiers es cs)

append-IsUnique :
    (bs : List KeyBinding) (b : KeyBinding)
    → IsUnique bs
    → any_matches b.key b.modifiers bs ≡ false
    → IsUnique (bs ++ b ∷ [])
unfolding any_matches
append-IsUnique [] b u h = (refl, tt)
append-IsUnique (e ∷ es) b (n, u) h = ground (
  arith,
  any_matches-append e.key e.modifiers es (b ∷ []),
  append-IsUnique es b u,
  text_eq_iff e.key b.key,
  text_eq_iff b.key e.key,
)

module _ (host : Host) where
  open host use {Node, Table, Disk}

  pub read_node_table :
      (loaded : List KeyBinding) (n : Node) (t : Table)
      → host.as_table n ≡ some t
      → read_node host loaded n ≡ keep_binding host loaded (read_binding host t)
  unfolding read_node
  read_node_table loaded n t e = rw (e, read_node) refl

  read_node_other :
      (loaded : List KeyBinding) (n : Node)
      → host.as_table n ≡ none
      → read_node host loaded n ≡ loaded
  unfolding read_node
  read_node_other loaded n e = rw (e, read_node) refl

  keep_binding-IsUnique :
      (loaded : List KeyBinding) (b : KeyBinding)
      → IsUnique loaded
      → IsUnique (keep_binding host loaded b)
  unfolding keep_binding
  keep_binding-IsUnique loaded b u = ground (arith, append-IsUnique loaded b u)

  read_node-IsUnique :
      (loaded : List KeyBinding) (n : Node) → IsUnique loaded → IsUnique (read_node host loaded n)
  read_node-IsUnique loaded n u = elim (Option-cases (host.as_table n)) [
    | inl e ↦ rw (read_node_other loaded n e) u
    | inr (t, e) ↦
        rw (read_node_table loaded n t e) (keep_binding-IsUnique loaded (read_binding host t) u)
  ]

  read_nodes-IsUnique :
      (loaded : List KeyBinding) (ns : List Node)
      → IsUnique loaded
      → IsUnique (read_nodes host loaded ns)
  unfolding read_nodes
  read_nodes-IsUnique loaded [] u = u
  read_nodes-IsUnique loaded (n ∷ ns) u =
      read_nodes-IsUnique (read_node host loaded n) ns (read_node-IsUnique loaded n u)

  pub load_parsed :
      (d : Disk) (path : Text) (kb : Keybindings) (root : Table)
      → host.parse_file d path ≡ some root
      → load host d path kb ≡ (
        record {
          path = path;
          bindings = read_nodes host [] (array_at host (codes "bind") root);
          last_write = host.mtime_of d path;
        },
        true,
      )
  unfolding load
  load_parsed d path kb root e = rw (e, load) refl

  load_failed :
      (d : Disk) (path : Text) (kb : Keybindings)
      → host.parse_file d path ≡ none
      → load host d path kb ≡ (record kb { path = path }, false)
  unfolding load
  load_failed d path kb e = rw (e, load) refl

  pub load-IsUnique :
      (d : Disk) (path : Text) (kb : Keybindings)
      → IsUnique kb.bindings
      → IsUnique (load host d path kb).0.bindings
  load-IsUnique d path kb u = elim (Option-cases (host.parse_file d path)) [
    | inl e ↦ rw (load_failed d path kb e) u
    | inr (root, e) ↦
        rw (load_parsed d path kb root e)
          (read_nodes-IsUnique [] (array_at host (codes "bind") root) tt)
  ]
