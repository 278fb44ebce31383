-- ===== src/Console/Setting/Values.antt =====
-- engine/cvar/Console.cpp, `ApplySet`: what is stored for a value of each type, said without the
-- functions of the code.
use voxhammer.Console.Setting.Laws.{stored_injective}
use voxhammer.Console.Numbers.{parse_int, int_to_text}
use voxhammer.Console.Registry.{CVarType, CVar}
use voxhammer.Console.Floats.{clamp_ℤ, clamp}
use voxhammer.Base.Int.{◌≤ℤ◌, ℤ}
use voxhammer.Base.{
  ◌∙◌, sym, refl, text_eq, ◌≢◌, inr, Bool-cases, text_eq_iff, arith, inl, [], false, true, ◌⊎◌,
  codes, ◌∷◌, ◌≡◌, List, Text,
}
use voxhammer.Console.Floats.{Floats}
use voxhammer.Console.Setting.{refused, stored, check_value, contains, is_true, check_enum}

-- The value is one of the list.
abbrev pub Among : Text → List Text → Type 0
Among v [] = ⊥
Among v (w ∷ ws) = (w ≡ v) ⊎ Among v ws

abbrev yes_words : List Text
yes_words = codes "1" ∷ codes "true" ∷ codes "on" ∷ codes "yes" ∷ []

-- The number nearest to `x` in the range.
abbrev pub Clamped : ℤ → ℤ → ℤ → ℤ → Type 0
Clamped x lo hi n =
    (¬ (lo ≤ℤ x) × (n ≡ lo))
    ⊎ ((lo ≤ℤ x) × ¬ (x ≤ℤ hi) × (n ≡ hi))
    ⊎ ((lo ≤ℤ x) × (x ≤ℤ hi) × (n ≡ x))

contains-Among : (ws : List Text) (v : Text) → contains ws v ≡ true → Among v ws
unfolding contains
contains-Among [] v e = absurd (ground arith)
contains-Among (w ∷ ws) v e = elim (Bool-cases (text_eq w v)) [
  | inl h ↦ inl ((text_eq_iff w v).0 h)
  | inr h ↦ inr (contains-Among ws v (rw h at e))
]

contains-not_Among : (ws : List Text) (v : Text) → contains ws v ≡ false → ¬ Among v ws
unfolding contains
contains-not_Among [] v e a = a
contains-not_Among (w ∷ ws) v e (inl s) = ground (arith, e, (text_eq_iff w v).1 s)
contains-not_Among (w ∷ ws) v e (inr a) = contains-not_Among ws v (ground (arith, e)) a

text_eq_sym : (a b : Text) → text_eq a b ≡ text_eq b a
text_eq_sym a b = ground (arith, text_eq_iff a b, text_eq_iff b a)

is_true-contains : (v : Text) → is_true v ≡ contains yes_words v
unfolding is_true contains
is_true-contains v = ground (
  arith,
  text_eq_sym v (codes "1"),
  text_eq_sym v (codes "true"),
  text_eq_sym v (codes "on"),
  text_eq_sym v (codes "yes"),
)

clamp_ℤ-Clamped : (x lo hi : ℤ) → Clamped x lo hi (clamp_ℤ x lo hi)
clamp_ℤ-Clamped x lo hi = ground arith

module _ (fl : Floats) where
  open fl use {F, lt, to_int, from_chars, format}

  -- The number `x` limited to the range.
  abbrev pub Limits : F → F → F → F → Type 0
  Limits x lo hi y =
      ((lt x lo ≡ true) × (y ≡ lo))
      ⊎ ((lt x lo ≡ false) × (lt hi x ≡ true) × (y ≡ hi))
      ⊎ ((lt x lo ≡ false) × (lt hi x ≡ false) × (y ≡ x))

  clamp-Limits : (x lo hi : F) → Limits x lo hi (clamp fl x lo hi)
  clamp-Limits x lo hi = ground arith

  -- What is stored for a value of a type: the number in the range of the cvar, if it has one; 1 or 0
  -- for a truth value; one of the names of an enumeration, if it lists any; else the value itself.
  abbrev pub Stores : CVar F → Text → Text → CVarType → Type 0
  Stores cv v w CVarType.int =
      ((lt cv.range_min cv.range_max ≡ false) × (w ≡ v))
      ⊎ ((n : ℤ) × (lt cv.range_min cv.range_max ≡ true)
          × (w ≡ int_to_text n)
          × Clamped (parse_int v) (to_int cv.range_min) (to_int cv.range_max) n)
  Stores cv v w CVarType.float =
      ((lt cv.range_min cv.range_max ≡ false) × (w ≡ v))
      ⊎ ((x : F) × (lt cv.range_min cv.range_max ≡ true)
          × (w ≡ format x)
          × Limits (from_chars v) cv.range_min cv.range_max x)
  Stores cv v w CVarType.bool =
      (Among v yes_words × (w ≡ codes "1")) ⊎ (¬ Among v yes_words × (w ≡ codes "0"))
  Stores cv v w CVarType.enum = (w ≡ v) × ((cv.enum_values ≡ []) ⊎ Among v cv.enum_values)
  Stores cv v w _ = w ≡ v

  check_int-Stores :
      (cv : CVar F) (v w : Text)
      → check_value fl cv v CVarType.int ≡ stored w
      → Stores cv v w CVarType.int
  unfolding check_value
  check_int-Stores cv v w e =
      let lo = to_int cv.range_min in
      let hi = to_int cv.range_max in
      elim (Bool-cases (lt cv.range_min cv.range_max)) [
        | inr h ↦ inl (h, sym (stored_injective v w (rw h at e)))
        | inl h ↦ inr (
          clamp_ℤ (parse_int v) lo hi,
          h,
          sym (stored_injective (int_to_text (clamp_ℤ (parse_int v) lo hi)) w (rw h at e)),
          clamp_ℤ-Clamped (parse_int v) lo hi,
        )
      ]

  check_float-Stores :
      (cv : CVar F) (v w : Text)
      → check_value fl cv v CVarType.float ≡ stored w
      → Stores cv v w CVarType.float
  unfolding check_value
  check_float-Stores cv v w e = elim (Bool-cases (lt cv.range_min cv.range_max)) [
    | inr h ↦ inl (h, sym (stored_injective v w (rw h at e)))
    | inl h ↦
        let x = clamp fl (from_chars v) cv.range_min cv.range_max in
        inr (
          x,
          h,
          sym (stored_injective (format x) w (rw h at e)),
          clamp-Limits (from_chars v) cv.range_min cv.range_max,
        )
  ]

  check_bool-Stores :
      (cv : CVar F) (v w : Text)
      → check_value fl cv v CVarType.bool ≡ stored w
      → Stores cv v w CVarType.bool
  unfolding check_value
  check_bool-Stores cv v w e = elim (Bool-cases (is_true v)) [
    | inl h ↦ inl (
      contains-Among yes_words v (sym (is_true-contains v) ∙ h),
      sym (stored_injective (codes "1") w (rw h at e)),
    )
    | inr h ↦ inr (
      contains-not_Among yes_words v (sym (is_true-contains v) ∙ h),
      sym (stored_injective (codes "0") w (rw h at e)),
    )
  ]

  check_enum-Stores :
      (name v w : Text) (values : List Text)
      → check_enum name v values ≡ stored w
      → (w ≡ v) × ((values ≡ []) ⊎ Among v values)
  unfolding check_enum
  check_enum-Stores name v w [] e = (sym (stored_injective v w e), inl refl)
  check_enum-Stores name v w (x ∷ xs) e = elim (Bool-cases (contains (x ∷ xs) v)) [
    | inl h ↦ (sym (stored_injective v w (rw h at e)), inr (contains-Among (x ∷ xs) v h))
    | inr h ↦ absurd (ground (arith, e, h))
  ]

  check_enum-Refuses :
      (name v e : Text) (values : List Text)
      → check_enum name v values ≡ refused e
      → (values ≢ []) × ¬ Among v values
  unfolding check_enum
  check_enum-Refuses name v e [] r = cc
  check_enum-Refuses name v e (x ∷ xs) r = elim (Bool-cases (contains (x ∷ xs) v)) [
    | inl h ↦ absurd (ground (arith, r, h))
    | inr h ↦ ((λ n. cc), contains-not_Among (x ∷ xs) v h)
  ]

  pub check_value-Stores :
      (cv : CVar F) (v w : Text) (t : CVarType) → check_value fl cv v t ≡ stored w → Stores cv v w t
  unfolding check_value
  check_value-Stores cv v w CVarType.int e = check_int-Stores cv v w e
  check_value-Stores cv v w CVarType.float e = check_float-Stores cv v w e
  check_value-Stores cv v w CVarType.bool e = check_bool-Stores cv v w e
  check_value-Stores cv v w CVarType.enum e = check_enum-Stores cv.name v w cv.enum_values e
  check_value-Stores cv v w _ e = sym (stored_injective v w e)

  pub check_value-Refuses :
      (cv : CVar F) (v e : Text) (t : CVarType)
      → check_value fl cv v t ≡ refused e
      → (t ≡ CVarType.enum) × (cv.enum_values ≢ []) × ¬ Among v cv.enum_values
  unfolding check_value
  check_value-Refuses cv v e CVarType.int r = absurd (ground (arith, r))
  check_value-Refuses cv v e CVarType.float r = absurd (ground (arith, r))
  check_value-Refuses cv v e CVarType.bool r = absurd (ground (arith, r))
  check_value-Refuses cv v e CVarType.enum r =
      let (n, a) = check_enum-Refuses cv.name v e cv.enum_values r in (refl, n, a)
  check_value-Refuses cv v e _ r = absurd (ground (arith, r))
