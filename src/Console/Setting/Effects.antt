-- ===== src/Console/Setting/Effects.antt =====
-- engine/cvar/Console.cpp, `ApplySet`: which values are taken, what is stored for them and who is
-- called, said without the functions of the code.
use voxhammer.Console.Setting.Values.{check_value-Stores, Among, Stores, check_value-Refuses}
use voxhammer.Console.Setting.Laws.{apply_set-Sets}
use voxhammer.Console.Registry.{
  find_cvar, is_readonly, Console, sunk, changed, Call, CVarType, CVar,
}
use voxhammer.Base.{
  not, if◌then◌else◌, some, ◌&&◌, refl, text_eq, ◌≢◌, inr, Bool-cases, ◌%◌, ◌++◌, arith, ◌/◌, inl,
  Bool, [], false, true, ◌⊎◌, codes, ◌∷◌, ◌≡◌, List, Text,
}
use voxhammer.Console.Floats.{Floats}
use mathlib.Core.List.{append-nil}
use voxhammer.Console.Setting.{refused, apply_set, readonly_error, check_set, stored, notify}

module _ (fl : Floats) where
  open fl use {F}

  -- A cvar that is not read-only may be set, and an override sets any.
  abbrev pub IsAllowed : CVar F → Bool → Type 0
  IsAllowed cv override = cv.flags / 2 % 2 ≡ 1 → override ≡ true

  -- Why a value is refused, with the error text.
  abbrev pub Refuses : CVar F → Text → Bool → Text → Type 0
  Refuses cv v override e =
      ((cv.flags / 2 % 2 ≡ 1)
        × (override ≡ false)
        × (e ≡ codes "cvar '" ++ cv.name ++ codes "' is read-only"))
      ⊎ (IsAllowed cv override
          × (cv.type ≡ CVarType.enum)
          × (cv.enum_values ≢ [])
          × ¬ Among v cv.enum_values
          × (e ≢ []))

  -- The calls after a change: the callback of the cvar first, then the sink, where they are set.
  abbrev pub Notifies : CVar F → Bool → List (Call F) → List (Call F) → Type 0
  Notifies cv sink before after =
      (cv.on_change ≡ false → sink ≡ false → after ≡ before)
      × (cv.on_change ≡ true → sink ≡ false → after ≡ before ++ changed cv ∷ [])
      × (cv.on_change ≡ false → sink ≡ true → after ≡ before ++ sunk cv ∷ [])
      × (cv.on_change ≡ true → sink ≡ true → after ≡ before ++ changed cv ∷ sunk cv ∷ [])

  notify-Notifies :
      (cv : CVar F) (sink : Bool) (before : List (Call F))
      → Notifies cv sink before (before ++ notify fl cv sink)
  unfolding notify
  notify-Notifies cv sink before = (
    (λ a b. rw (a, b) (append-nil before)),
    (λ a b. rw (a, b) refl),
    (λ a b. rw (a, b) refl),
    (λ a b. rw (a, b) refl),
  )

  check_set-Stores :
      (cv : CVar F) (v w : Text) (override : Bool)
      → check_set fl cv v override ≡ stored w
      → IsAllowed cv override × Stores fl cv v w cv.type
  unfolding check_set
  check_set-Stores cv v w override e = elim (Bool-cases (is_readonly cv.flags && not override)) [
    | inl h ↦ absurd (ground (arith, h, e))
    | inr h ↦ ((λ r. ground (arith, h, r)), check_value-Stores fl cv v w cv.type (rw h at e))
  ]

  check_set-Refuses :
      (cv : CVar F) (v e : Text) (override : Bool)
      → check_set fl cv v override ≡ refused e
      → e ≢ []
      → Refuses cv v override e
  unfolding check_set readonly_error
  check_set-Refuses cv v e override r n = elim (Bool-cases (is_readonly cv.flags && not override)) [
    | inl h ↦ inl (ground (arith, h), ground (arith, h), ground (arith, r, h))
    | inr h ↦
        let (t, some_values, other) = check_value-Refuses fl cv v e cv.type (rw h at r) in
        inr ((λ q. ground (arith, h, q)), t, some_values, other, n)
  ]

  -- What a set comes to. It is refused, and the console is as it was; or a text is stored for the
  -- cvar, the callback and the sink are called with it, and nothing else changes.
  abbrev pub Takes : Console F → Text → CVar F → Text → Bool → Console F × Text → Type 0
  Takes con name cv v override (con', e) =
      (Refuses cv v override e × (con' ≡ con))
      ⊎ ((w : Text) × (e ≡ [])
          × IsAllowed cv override
          × Stores fl cv v w cv.type
          × ((other : Text)
              → find_cvar con' other ≡ (
                  if text_eq name other
                  then some (record cv { value = w })
                  else find_cvar con other))
          × Notifies (record cv { value = w }) con.change_sink con.calls con'.calls
          × (con'.commands ≡ con.commands)
          × (con'.unknown_cvars ≡ con.unknown_cvars))

  -- `ApplySet` on a registered cvar refuses a read-only one unless it is an override, and a value that
  -- the list of an enumeration lacks, and then leaves the console as it was. Otherwise it stores the
  -- value as the type says, numbers limited to the range and truth values as 1 or 0, calls the
  -- callback and then the sink with the new value, and changes nothing else.
  pub apply_set-Takes :
      (con : Console F) (name : Text) (cv : CVar F) (v : Text) (override : Bool)
      → find_cvar con name ≡ some cv
      → Takes con name cv v override (apply_set fl con name cv v override)
  apply_set-Takes con name cv v override h = elim (apply_set-Sets fl con name cv v override h) [
    | inl (n, same, r) ↦ inl (check_set-Refuses cv v _ override r n, same)
    | inr (w, e, r, reads, calls, commands, unknown) ↦
        let (allowed, stores) = check_set-Stores cv v w override r in
        inr (
          w,
          e,
          allowed,
          stores,
          reads,
          rw calls (notify-Notifies (record cv { value = w }) con.change_sink con.calls),
          commands,
          unknown,
        )
  ]
