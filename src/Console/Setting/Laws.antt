-- ===== src/Console/Setting/Laws.antt =====
-- engine/cvar/Console.cpp, `ApplySet`: laws of validation and of the assignment.
use voxhammer.Console.Numbers.{parse_int-int_to_text, int_to_text, parse_int}
use voxhammer.Base.{
  false, ◌++◌, ◌∙◌, find-write, if◌then◌else◌, ◌-◌, some, ◌^◌, ◌⊎◌, Bool, ◌≢◌, [], codes, ◌∷◌, refl,
  inr, inl, Bool-cases, List, text_eq, arith, true, Text, ◌≡◌,
}
use voxhammer.Base.Int.{pos, negsuc, ◌≤ℤ◌, ℤ}
use voxhammer.Console.Setting.{
  check_enum, Checked, refused, stored, is_true, contains, enum_error, check_value, check_set,
  notify, commit, apply_set, readonly_error,
}
use voxhammer.Console.Registry.{
  is_readonly, int, float, bool, enum, CVarType, CVar, Console, find_cvar,
}
use voxhammer.Console.Floats.{Floats, clamp, clamp_ℤ}

clamp_ℤ_bounds :
    (v lo hi a b : ℤ)
    → lo ≤ℤ hi
    → a ≤ℤ lo
    → hi ≤ℤ b
    → (a ≤ℤ clamp_ℤ v lo hi) × (clamp_ℤ v lo hi ≤ℤ b)
clamp_ℤ_bounds v lo hi a b h p q = ground arith

clamp_ℤ_idem : (v lo hi : ℤ) → lo ≤ℤ hi → clamp_ℤ (clamp_ℤ v lo hi) lo hi ≡ clamp_ℤ v lo hi
clamp_ℤ_idem v lo hi h = ground arith

clamp_idem :
    (fl : Floats) (v lo hi : fl.F)
    → fl.lt lo hi ≡ true
    → clamp fl (clamp fl v lo hi) lo hi ≡ clamp fl v lo hi
clamp_idem fl v lo hi h = ground (arith, fl.lt_irrefl lo, fl.lt_irrefl hi, fl.lt_asymm lo hi h)

pub stored_injective : (v w : Text) → stored v ≡ stored w → v ≡ w
stored_injective v w e = cc

check_enum_idem :
    (name v w : Text) (values : List Text)
    → check_enum name v values ≡ stored w
    → check_enum name w values ≡ stored w
unfolding check_enum
check_enum_idem name v w [] e = refl
check_enum_idem name v w (x ∷ xs) e = elim (Bool-cases (contains (x ∷ xs) v)) [
  | inl h ↦ let same : v ≡ w = ground arith in rw (← same, h)
  | inr h ↦ absurd (ground arith)
]

module _ (fl : Floats) where
  open fl use {F, lt, to_int, from_chars, format}

  check_bool :
      (cv : CVar F) (v w : Text)
      → check_value fl cv v CVarType.bool ≡ stored w
      → check_value fl cv w CVarType.bool ≡ stored w
  unfolding check_value is_true text_eq
  check_bool cv v w e = elim (Bool-cases (is_true v)) [
    | inl h ↦
        let same : codes "1" ≡ w = stored_injective (codes "1") w (rw h at e) in rw (← same) refl
    | inr h ↦
        let same : codes "0" ≡ w = stored_injective (codes "0") w (rw h at e) in rw (← same) refl
  ]

  check_int :
      (cv : CVar F) (v w : Text)
      → check_value fl cv v CVarType.int ≡ stored w
      → check_value fl cv w CVarType.int ≡ stored w
  unfolding check_value
  check_int cv v w e =
      let lo = to_int cv.range_min in
      let hi = to_int cv.range_max in
      elim (Bool-cases (lt cv.range_min cv.range_max)) [
        | inl h ↦
            let mono = fl.to_int_mono cv.range_min cv.range_max h in
            let n = clamp_ℤ (parse_int v) lo hi in
            let (p, q) =
              clamp_ℤ_bounds (parse_int v) lo hi (negsuc (2 ^ 31 - 1)) (pos (2 ^ 31 - 1)) mono
                (fl.to_int_bounds cv.range_min).0 (fl.to_int_bounds cv.range_max).1 in
            let back : parse_int (int_to_text n) ≡ n = parse_int-int_to_text n p q in
            let same : int_to_text n ≡ w = stored_injective (int_to_text n) w (rw h at e) in
            rw (← same, h, back, clamp_ℤ_idem (parse_int v) lo hi mono) refl
        | inr h ↦ rw h refl
      ]

  check_float :
      (cv : CVar F) (v w : Text)
      → check_value fl cv v CVarType.float ≡ stored w
      → check_value fl cv w CVarType.float ≡ stored w
  unfolding check_value
  check_float cv v w e = elim (Bool-cases (lt cv.range_min cv.range_max)) [
    | inl h ↦
        let x = clamp fl (from_chars v) cv.range_min cv.range_max in
        let same : format x ≡ w = stored_injective (format x) w (rw h at e) in
        rw
          (
            ← same,
            h,
            fl.from_chars-format x,
            clamp_idem fl (from_chars v) cv.range_min cv.range_max h,
          )
          refl
    | inr h ↦ rw h refl
  ]

  -- A value that validation has let through is let through unchanged from then on.
  pub check_value_idem :
      (cv : CVar F) (v w : Text) (t : CVarType)
      → check_value fl cv v t ≡ stored w
      → check_value fl cv w t ≡ stored w
  unfolding check_value
  check_value_idem cv v w int e = check_int cv v w e
  check_value_idem cv v w float e = check_float cv v w e
  check_value_idem cv v w bool e = check_bool cv v w e
  check_value_idem cv v w enum e = check_enum_idem cv.name v w cv.enum_values e
  check_value_idem cv v w _ e = refl

module _ (fl : Floats) where
  open fl use {F}

  check_enum_error :
      (name v e : Text) (values : List Text) → check_enum name v values ≡ refused e → e ≢ []
  unfolding check_enum enum_error
  check_enum_error name v e [] h = cc
  check_enum_error name v e (w ∷ ws) h = ground arith

  check_value_error :
      (cv : CVar F) (v e : Text) (t : CVarType) → check_value fl cv v t ≡ refused e → e ≢ []
  unfolding check_value
  check_value_error cv v e int h = ground arith
  check_value_error cv v e float h = ground arith
  check_value_error cv v e bool h = ground arith
  check_value_error cv v e enum h = check_enum_error cv.name v e cv.enum_values h
  check_value_error cv v e _ h = cc

  check_set_error :
      (cv : CVar F) (v e : Text) (override : Bool) → check_set fl cv v override ≡ refused e → e ≢ []
  unfolding check_set readonly_error
  check_set_error cv v e override h = ground (arith, check_value_error cv v e cv.type)

  pub check_set-is_readonly :
      (cv : CVar F) (v w : Text) → is_readonly cv.flags ≡ true → check_set fl cv v false ≢ stored w
  unfolding check_set
  check_set-is_readonly cv v w h e = ground arith

  -- What a set may do to the registry: nothing, with an error text; or one cvar gets the validated
  -- value, its callback and the sink are called with it, and nothing else changes.
  abbrev pub Sets : Console F → Text → CVar F → Text → Bool → Console F × Text → Type 0
  Sets con name cv v override (con', e) =
      ((e ≢ []) × (con' ≡ con) × (check_set fl cv v override ≡ refused e))
      ⊎ ((w : Text) × (e ≡ [])
          × (check_set fl cv v override ≡ stored w)
          × ((other : Text)
              → find_cvar con' other ≡ (
                  if text_eq name other
                  then some (record cv { value = w })
                  else find_cvar con other))
          × (con'.calls ≡ con.calls ++ notify fl (record cv { value = w }) con.change_sink)
          × (con'.commands ≡ con.commands)
          × (con'.unknown_cvars ≡ con.unknown_cvars))

  commit-Sets :
      (con : Console F) (name : Text) (cv : CVar F) (v : Text) (override : Bool) (r : Checked)
      → find_cvar con name ≡ some cv
      → check_set fl cv v override ≡ r
      → Sets con name cv v override (commit fl con name cv r)
  unfolding commit find_cvar
  commit-Sets con name cv v override (refused e) h k =
      inl (check_set_error cv v e override k, refl, k)
  commit-Sets con name cv v override (stored w) h k = inr (
    w,
    refl,
    k,
    (λ other. find-write name other (record cv { value = w }) con.cvars ∙ rw h refl),
    refl,
    refl,
    refl,
  )

  -- `ApplySet` on a registered cvar: with an error text it leaves the console as it was; without
  -- one the cvar has the validated value, and only its callback and the sink are called.
  pub apply_set-Sets :
      (con : Console F) (name : Text) (cv : CVar F) (v : Text) (override : Bool)
      → find_cvar con name ≡ some cv
      → Sets con name cv v override (apply_set fl con name cv v override)
  unfolding apply_set
  apply_set-Sets con name cv v override h =
      commit-Sets con name cv v override (check_set fl cv v override) h refl
