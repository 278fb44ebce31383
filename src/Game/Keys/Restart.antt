-- ===== src/Game/Keys/Restart.antt =====
-- game/main.cpp: a key that is bound in one run and pressed in the next.
use voxhammer.Keys.Bindings.Laws.{dispatch-set_binding, set_binding-IsUnique, All-set_binding}
use voxhammer.Base.Int.{negsuc}
use voxhammer.Keys.Files.RoundTrip.{load-save, IsComplete}
use voxhammer.Keys.Files.{load, save, root_table, Keybindings}
use voxhammer.Base.{
  refl, ◌∙◌, ap, ◌==◌, text_eq_iff, true, text_eq, ◌≢◌, false, ◌≡◌, is_nil, All, Bool, [], arith,
  ◌∷◌, List, ℕ, ◌<◌, Text,
}
use voxhammer.Game.Keys.{join_words, split_plus, bind_command, key_mod, read_parts, parse_key_spec}
use voxhammer.Keys.Bindings.{KeyBinding, fire, IsUnique, set_binding}
use voxhammer.Keys.Files.{Host, Keybindings}
use voxhammer.Keys.Bindings.{dispatch}

key_mod_lt : (mods : ℕ) (part : Text) → mods < 8 → key_mod mods part < 8
unfolding key_mod
key_mod_lt mods part h = ground (arith, h)

read_parts_lt : (mods : ℕ) (parts : List Text) → mods < 8 → (read_parts mods parts).1 < 8
unfolding read_parts
read_parts_lt mods [] h = h
read_parts_lt mods (key ∷ []) h = h
read_parts_lt mods (p ∷ q ∷ parts) h =
    read_parts_lt (key_mod mods p) (q ∷ parts) (key_mod_lt mods p h)

parse_key_spec_lt : (spec : Text) → (parse_key_spec spec).1 < 8
unfolding parse_key_spec
parse_key_spec_lt spec = read_parts_lt 0 (split_plus [] spec) (omega arith)

module _ (host : Host) where
  open host use {Disk}

  -- If bind can write the file, a later run that loads it fires the target when the key is pressed,
  -- provided that the bindings so far are without conflicts and complete, that neither the key nor the
  -- target is empty, and that the texts are UTF-8.
  pub bind_command-dispatch :
      (spec w : Text) (words : List Text) (d : Disk) (kb next : Keybindings) (exec : Bool)
      → IsUnique kb.bindings
      → All (IsComplete host) kb.bindings
      → is_nil (parse_key_spec spec).0 ≡ false
      → is_nil (join_words (w ∷ words)) ≡ false
      → host.IsText (root_table host (bind_command host (spec ∷ w ∷ words) d kb).1.bindings)
      → (save host d (bind_command host (spec ∷ w ∷ words) d kb).1).1 ≢ negsuc 0
      → dispatch exec
          (parse_key_spec spec).0
          (parse_key_spec spec).1
          (load host (bind_command host (spec ∷ w ∷ words) d kb).0 kb.path next).0.bindings
        ≡ fire exec (join_words (w ∷ words))
  unfolding bind_command save
  bind_command-dispatch spec w words d kb next exec u c k t text ok =
      let (key, mods) = parse_key_spec spec in
      let target = join_words (w ∷ words) in
      let b : KeyBinding = record { key = key; modifiers = mods; target = target } in
      let bound = record kb { bindings = set_binding b kb.bindings } in
      let complete =
        All-set_binding (IsComplete host) b kb.bindings (λ e q. (q.0, t, q.2))
          (k, t, parse_key_spec_lt spec) c in
      let loaded =
        (load-save host d bound next (set_binding-IsUnique b kb.bindings u) complete text ok).1 in
      let same : text_eq key key ≡ true = (text_eq_iff key key).1 refl in
      let own : (mods == mods) ≡ true = ground arith in
      ap (λ r. dispatch exec key mods r.0.bindings) loaded
      ∙ dispatch-set_binding b kb.bindings exec key mods
      ∙ rw (same, own) refl
