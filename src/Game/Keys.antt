-- ===== src/Game/Keys.antt =====
-- game/main.cpp: `ParseKeySpec`, `KeySpec` and the commands bind and unbind. A binding that is set or
-- removed is saved.
pub mod Restart
use voxhammer.Base.{
  arith, ◌&&◌, not, sym, ◌%◌, ◌∙◌, refl, ap, codes, false, true, ◌==◌, All, Bool, [], if◌then◌else◌,
  ◌++◌, ◌∷◌, ◌≡◌, List, Text, text_eq, ℕ,
}
use voxhammer.Keys.Modifiers.{mod_shift, mod_ctrl, mod_alt, or_bit, mod_names}
use voxhammer.Keys.Bindings.{KeyBinding, set_binding, remove_binding}
use voxhammer.Keys.Files.{Host, Keybindings, save}

abbrev plus : ℕ
plus = b'+'

-- The parts of a key specification, with the part that is being read.
unfoldable pub split_plus : Text → Text → List Text
split_plus cur [] = cur ∷ []
split_plus cur (c ∷ s) =
    let hit = c == plus in
    let rest = split_plus (if hit then [] else cur ++ c ∷ []) s in if hit then cur ∷ rest else rest

unfoldable pub key_mod : ℕ → Text → ℕ
key_mod mods part =
    if text_eq part (codes "Ctrl")
    then or_bit mod_ctrl mods
    else if text_eq part (codes "Shift")
    then or_bit mod_shift mods
    else if text_eq part (codes "Alt")
    then or_bit mod_alt mods
    else mods

-- The last part is the key, and the others are modifiers.
unfoldable pub read_parts : ℕ → List Text → Text × ℕ
unfolding key_mod
read_parts mods [] = ([], mods)
read_parts mods (key ∷ []) = (key, mods)
read_parts mods (p ∷ q ∷ parts) = read_parts (key_mod mods p) (q ∷ parts)

-- `ParseKeySpec`
unfoldable pub parse_key_spec : Text → Text × ℕ
unfolding split_plus read_parts
parse_key_spec spec = read_parts 0 (split_plus [] spec)

join_names : List Text → Text → Text
join_names [] key = key
join_names (m ∷ names) key = m ++ plus ∷ join_names names key

-- `KeySpec`
pub key_spec : Text → ℕ → Text
unfolding join_names
key_spec key mods = join_names (mod_names mods) key

unfoldable pub join_words : List Text → Text
join_words [] = []
join_words (w ∷ []) = w
join_words (w ∷ v ∷ words) = w ++ b' ' ∷ join_words (v ∷ words)

module _ (host : Host) where
  open host use {Disk}

  -- The command bind, with its answer.
  pub bind_command : List Text → Disk → Keybindings → Disk × Keybindings × Text
  unfolding join_words parse_key_spec key_spec
  bind_command (spec ∷ w ∷ words) d kb =
      let (key, mods) = parse_key_spec spec in
      let target = join_words (w ∷ words) in
      let b : KeyBinding = record { key = key; modifiers = mods; target = target } in
      let kb' = record kb { bindings = set_binding b kb.bindings } in
      ((save host d kb').0, kb', codes "bound " ++ key_spec key mods ++ codes " -> " ++ target)
  bind_command _ d kb =
      (d, kb, codes "usage: bind <Key|Ctrl+Key> <cvar.toggle X | cvar.set X v | command N>")

  -- The command unbind, with its answer.
  pub unbind_command : List Text → Disk → Keybindings → Disk × Keybindings × Text
  unfolding parse_key_spec
  unbind_command [] d kb = (d, kb, codes "usage: unbind <Key|Ctrl+Key>")
  unbind_command (spec ∷ rest) d kb =
      let (key, mods) = parse_key_spec spec in
      let (bindings, ok) = remove_binding key mods kb.bindings in
      let kb' = record kb { bindings = bindings } in
      ((save host d kb').0, kb', codes (if ok then "unbound" else "no such binding"))

abbrev pub has_no_plus : Text → Bool
has_no_plus [] = true
has_no_plus (c ∷ s) = not (c == plus) && has_no_plus s

append_one : (s : Text) (c : ℕ) (t : Text) → (s ++ c ∷ []) ++ t ≡ s ++ c ∷ t
append_one [] c t = refl
append_one (a ∷ s) c t = ap (λ u. a ∷ u) (append_one s c t)

append_nil : (s : Text) → s ++ [] ≡ s
append_nil [] = refl
append_nil (a ∷ s) = ap (λ u. a ∷ u) (append_nil s)

split_plus-last : (s cur : Text) → has_no_plus s ≡ true → split_plus cur s ≡ (cur ++ s) ∷ []
unfolding split_plus
split_plus-last [] cur h = ap (λ t. t ∷ []) (sym (append_nil cur))
split_plus-last (c ∷ s) cur h =
    let e : (c == plus) ≡ false = ground (arith, h) in
    rw e (
      split_plus-last s (cur ++ c ∷ []) (ground (arith, h)) ∙ ap (λ t. t ∷ []) (append_one cur c s))

split_plus-part :
    (s cur t : Text)
    → has_no_plus s ≡ true
    → split_plus cur (s ++ plus ∷ t) ≡ (cur ++ s) ∷ split_plus [] t
unfolding split_plus
split_plus-part [] cur t h = ap (λ u. u ∷ split_plus [] t) (sym (append_nil cur))
split_plus-part (c ∷ s) cur t h =
    let e : (c == plus) ≡ false = ground (arith, h) in
    rw e (
      split_plus-part s (cur ++ c ∷ []) t (ground (arith, h))
      ∙ ap (λ u. u ∷ split_plus [] t) (append_one cur c s))

split_plus-join_names :
    (names : List Text) (key : Text)
    → All (λ m. has_no_plus m ≡ true) names
    → has_no_plus key ≡ true
    → split_plus [] (join_names names key) ≡ names ++ key ∷ []
unfolding join_names
split_plus-join_names [] key h k = split_plus-last key [] k
split_plus-join_names (m ∷ names) key (h, hs) k =
    split_plus-part m [] (join_names names key) h
    ∙ ap (λ u. m ∷ u) (split_plus-join_names names key hs k)

names_no_plus : (mods : ℕ) → All (λ m. has_no_plus m ≡ true) (mod_names mods)
unfolding mod_names
names_no_plus mods = ground arith

read_parts-mod_names :
    (mods : ℕ) (key : Text) → read_parts 0 (mod_names mods ++ key ∷ []) ≡ (key, mods % 8)
unfolding read_parts mod_names key_mod text_eq
read_parts-mod_names mods key = ground arith

-- What KeySpec prints for a key without a plus sign is parsed by ParseKeySpec as that key and its
-- modifiers; bits of the mask that are no modifier are lost.
pub parse_key_spec-key_spec :
    (key : Text) (mods : ℕ)
    → has_no_plus key ≡ true
    → parse_key_spec (key_spec key mods) ≡ (key, mods % 8)
unfolding parse_key_spec key_spec
parse_key_spec-key_spec key mods h =
    ap (read_parts 0) (split_plus-join_names (mod_names mods) key (names_no_plus mods) h)
    ∙ read_parts-mod_names mods key
