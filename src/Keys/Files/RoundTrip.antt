-- ===== src/Keys/Files/RoundTrip.antt =====
-- engine/platform/Keybindings.cpp: `Save`, then `Load`.
use voxhammer.Keys.Modifiers.{parse_mods-mod_names}
use voxhammer.Keys.Files.Laws.{load_parsed, any_matches-append, read_node_table}
use voxhammer.Base.Int.{negsuc, pos}
use mathlib.Core.Option
use mathlib.Core.List.{append-nil, append_assoc}
use mathlib.Core.Path.{subst}
use voxhammer.Base.{
  inr, inl, Option-cases, text_eq_iff, ◌∙◌, ap, true, [], arith, length, false, sym, text_eq, ◌%◌,
  ◌∷◌, ◌≢◌, refl, All, find, map, ◌++◌, ◌<◌, ◌≡◌, is_nil, none, some, List, Text, codes,
}
use voxhammer.Keys.Files.{
  load, mod_names, read_node, keep_binding, array_at, binding_node, binding_table, read_binding,
  read_nodes, root_table, save, text_at, texts_of, Host, Keybindings,
}
use voxhammer.Keys.Bindings.{IsUnique, any_matches, KeyBinding}

-- A binding in a list without conflicts matches none of those before it.
unique-front :
    (bs cs : List KeyBinding) (b : KeyBinding)
    → IsUnique (bs ++ b ∷ cs)
    → any_matches b.key b.modifiers bs ≡ false
unfolding any_matches
unique-front [] cs b u = refl
unique-front (e ∷ es) cs b (n, u) = ground (
  arith,
  any_matches-append e.key e.modifiers es (b ∷ cs),
  unique-front es cs b u,
  text_eq_iff e.key b.key,
  text_eq_iff b.key e.key,
)

module _ (host : Host) where
  open host use {Node, Table, Disk}

  -- What `Save` writes and `Load` keeps: a key, a target, and no bits that are no modifier.
  abbrev pub IsComplete : KeyBinding → Type 0
  IsComplete b = (is_nil b.key ≡ false) × (is_nil b.target ≡ false) × (b.modifiers < 8)

  texts_of-text_node : (ss : List Text) → texts_of host (map host.text_node ss) ≡ ss
  unfolding texts_of
  texts_of-text_node [] = refl
  texts_of-text_node (s ∷ ss) = rw (host.as_text-text_node s, texts_of-text_node ss) refl

  text_at-make_table :
      (key s : Text) (kvs : List (Text × Node))
      → find key kvs ≡ some (host.text_node s)
      → text_at host key (host.make_table kvs) ≡ s
  unfolding text_at Option.bind
  text_at-make_table key s kvs e =
      rw (host.look_up-make_table kvs key, e, host.as_text-text_node s) refl

  array_at-make_table :
      (key : Text) (ns : List Node) (kvs : List (Text × Node))
      → find key kvs ≡ some (host.array_node ns)
      → array_at host key (host.make_table kvs) ≡ ns
  unfolding array_at Option.bind
  array_at-make_table key ns kvs e =
      rw (host.look_up-make_table kvs key, e, host.as_array-array_node ns) refl

  key_at : (b : KeyBinding) → text_at host (codes "key") (binding_table host b) ≡ b.key
  unfolding binding_table find text_eq
  key_at b = text_at-make_table (codes "key") b.key _ refl

  target_at : (b : KeyBinding) → text_at host (codes "target") (binding_table host b) ≡ b.target
  unfolding binding_table find text_eq
  target_at b = text_at-make_table (codes "target") b.target _ refl

  mods_at :
      (b : KeyBinding)
      → array_at host (codes "mods") (binding_table host b)
        ≡ map host.text_node (mod_names b.modifiers)
  unfolding binding_table find text_eq
  mods_at b = array_at-make_table (codes "mods") (map host.text_node (mod_names b.modifiers)) _ refl

  read_binding-binding_table :
      (b : KeyBinding) → b.modifiers < 8 → read_binding host (binding_table host b) ≡ b
  unfolding read_binding
  read_binding-binding_table b h =
      let kept : b.modifiers % 8 ≡ b.modifiers = omega arith in
      rw
        (
          key_at b,
          target_at b,
          mods_at b,
          texts_of-text_node (mod_names b.modifiers),
          parse_mods-mod_names b.modifiers,
          kept,
        )
        refl

  read_node-binding_node :
      (loaded : List KeyBinding) (b : KeyBinding)
      → IsComplete b
      → any_matches b.key b.modifiers loaded ≡ false
      → read_node host loaded (binding_node host b) ≡ loaded ++ b ∷ []
  unfolding binding_node keep_binding
  read_node-binding_node loaded b (k, t, h) n =
      rw
        (
          read_node_table host loaded (binding_node host b) (binding_table host b)
              (host.as_table-table_node (binding_table host b)),
          read_binding-binding_table b h,
          k,
          t,
          n,
        )
        refl

  read_nodes-binding_node :
      (loaded bs : List KeyBinding)
      → All IsComplete bs
      → IsUnique (loaded ++ bs)
      → read_nodes host loaded (map (binding_node host) bs) ≡ loaded ++ bs
  unfolding read_nodes
  read_nodes-binding_node loaded [] c u = sym (append-nil loaded)
  read_nodes-binding_node loaded (b ∷ bs) (x, c) u =
      let shift = append_assoc loaded (b ∷ []) bs in
      ap (λ l. read_nodes host l (map (binding_node host) bs))
        (read_node-binding_node loaded b x (unique-front loaded bs b u))
      ∙ read_nodes-binding_node (loaded ++ b ∷ []) bs c (subst IsUnique (sym shift) u)
      ∙ shift

  load_written :
      (d d' : Disk) (kb kb' : Keybindings)
      → IsUnique kb.bindings
      → All IsComplete kb.bindings
      → host.IsText (root_table host kb.bindings)
      → host.write_file d kb.path (root_table host kb.bindings) ≡ some d'
      → load host d' kb.path kb' ≡ (
        record { path = kb.path; bindings = kb.bindings; last_write = host.mtime_of d' kb.path },
        true,
      )
  unfolding root_table find text_eq
  load_written d d' kb kb' u c text e =
      let bs = kb.bindings in
      let nodes = map (binding_node host) bs in
      load_parsed host d' kb.path kb' (root_table host bs)
        (host.parse_file-write_file d d' kb.path (root_table host bs) text e)
      ∙ rw
          (
            array_at-make_table (codes "bind") nodes ((codes "bind", host.array_node nodes) ∷ [])
                refl,
            read_nodes-binding_node [] bs c u,
          )
          refl

  save_refused :
      (d : Disk) (kb : Keybindings)
      → host.write_file d kb.path (root_table host kb.bindings) ≡ none
      → save host d kb ≡ (d, negsuc 0)
  unfolding save
  save_refused d kb e = rw (e, save) refl

  save_written :
      (d d' : Disk) (kb : Keybindings)
      → host.write_file d kb.path (root_table host kb.bindings) ≡ some d'
      → save host d kb ≡ (d', pos (length kb.bindings))
  unfolding save
  save_written d d' kb e = rw (e, save) refl

  -- If `Save` succeeds, it returns the number of bindings, and a `Load` of the same path gives them
  -- all back in their order, provided that no two are for the same key and modifiers, that each has
  -- a key, a target and no unknown modifier, and that the texts are UTF-8.
  pub load-save :
      (d : Disk) (kb kb' : Keybindings)
      → IsUnique kb.bindings
      → All IsComplete kb.bindings
      → host.IsText (root_table host kb.bindings)
      → (save host d kb).1 ≢ negsuc 0
      → let d' = (save host d kb).0 in
        ((save host d kb).1 ≡ pos (length kb.bindings))
        × (load host d' kb.path kb' ≡ (
          record { path = kb.path; bindings = kb.bindings; last_write = host.mtime_of d' kb.path },
          true,
        ))
  load-save d kb kb' u c text ok =
      elim (Option-cases (host.write_file d kb.path (root_table host kb.bindings))) [
        | inl e ↦ absurd (ok (ap (λ r. r.1) (save_refused d kb e)))
        | inr (d', e) ↦ rw (save_written d d' kb e) (refl, load_written d d' kb kb' u c text e)
      ]
