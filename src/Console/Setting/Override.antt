-- ===== src/Console/Setting/Override.antt =====
-- engine/cvar/Console.cpp: `SetCVarOverride` on a registered cvar.
use voxhammer.Console.Setting.Laws.{stored_injective, apply_set-Sets}
use voxhammer.Console.Setting.{
  apply_set, check_value, stored, check_set, refused, set_cvar_override,
}
use voxhammer.Base.{
  ap, text_eq_iff, Bool-cases, none, Option-cases, false, text_eq, text_eq_refl, inr, ◌∙◌, sym,
  refl, inl, arith, is_nil, true, ◌≡◌, ◌≢◌, some, Text,
}
use voxhammer.Console.Registry.{find_cvar, CVar, Console}
use voxhammer.Console.Floats.{Floats}

clash : (e w : Text) → refused e ≢ stored w
clash e w h = cc

module _ (fl : Floats) where
  open fl use {F}

  override_applied :
      (con : Console F) (name : Text) (cv : CVar F) (v : Text)
      → find_cvar con name ≡ some cv
      → set_cvar_override fl con name v
        ≡ ((apply_set fl con name cv v true).0, is_nil (apply_set fl con name cv v true).1)
  unfolding set_cvar_override
  override_applied con name cv v h = rw (h, set_cvar_override) refl

  check_set-override :
      (cv : CVar F) (v : Text) → check_set fl cv v true ≡ check_value fl cv v cv.type
  unfolding check_set
  check_set-override cv v = ground arith

  -- An override of a registered cvar, read-only or not, succeeds where validation lets the value
  -- through, and the cvar is then found with the validated value.
  pub set_cvar_override-check_value :
      (con : Console F) (name : Text) (cv : CVar F) (v w : Text)
      → find_cvar con name ≡ some cv
      → check_value fl cv v cv.type ≡ stored w
      → ((set_cvar_override fl con name v).1 ≡ true)
        × (find_cvar (set_cvar_override fl con name v).0 name ≡ some (record cv { value = w }))
  set_cvar_override-check_value con name cv v w h k =
      elim (apply_set-Sets fl con name cv v true h) [
        | inl (_, _, e) ↦ absurd (clash _ w (sym e ∙ check_set-override cv v ∙ k))
        | inr (u, e, l, reads, _, _, _) ↦
            let same : u ≡ w = stored_injective u w (sym l ∙ check_set-override cv v ∙ k) in
            rw (override_applied con name cv v h, e)
              (refl, reads name ∙ rw (text_eq_refl name, same) refl)
      ]

  -- An override leaves the other cvars alone.
  pub set_cvar_override-find_cvar :
      (con : Console F) (name key v : Text)
      → text_eq name key ≡ false
      → find_cvar (set_cvar_override fl con name v).0 key ≡ find_cvar con key
  unfolding set_cvar_override
  set_cvar_override-find_cvar con name key v e = elim (Option-cases (find_cvar con name)) [
    | inl f ↦ rw (set_cvar_override, f) refl
    | inr (cv, f) ↦
        rw (set_cvar_override, f)
          (elim (apply_set-Sets fl con name cv v true f) [
            | inl (_, same, _) ↦ rw same refl
            | inr (w, _, _, reads, _, _, _) ↦ reads key ∙ rw e refl
          ])
  ]

  -- An override registers nothing.
  pub set_cvar_override-unregistered :
      (con : Console F) (name key v : Text)
      → find_cvar con key ≡ none
      → find_cvar (set_cvar_override fl con name v).0 key ≡ none
  unfolding set_cvar_override
  set_cvar_override-unregistered con name key v e = elim (Option-cases (find_cvar con name)) [
    | inl f ↦ rw (set_cvar_override, f) e
    | inr (cv, f) ↦ elim (Bool-cases (text_eq name key)) [
      | inr g ↦ set_cvar_override-find_cvar con name key v g ∙ e
      | inl g ↦
          let names : name ≡ key = (text_eq_iff name key).0 g in
          let clash : some cv ≡ none = sym f ∙ ap (find_cvar con) names ∙ e in
          absurd (ground (arith, clash))
    ]
  ]

  pub set_cvar_override-registered :
      (con : Console F) (name key v : Text)
      → find_cvar con key ≢ none
      → find_cvar (set_cvar_override fl con name v).0 key ≢ none
  unfolding set_cvar_override
  set_cvar_override-registered con name key v e = elim (Option-cases (find_cvar con name)) [
    | inl f ↦ rw (set_cvar_override, f) e
    | inr (cv, f) ↦
        rw (set_cvar_override, f)
          (elim (apply_set-Sets fl con name cv v true f) [
            | inl (_, same, _) ↦ rw same e
            | inr (w, _, _, reads, _, _, _) ↦ elim (Bool-cases (text_eq name key)) [
              | inl g ↦ rw (reads key, g) (λ c. ground (arith, c))
              | inr g ↦ rw (reads key, g) e
            ]
          ])
  ]

  pub set_cvar_override-unknown_cvars :
      (con : Console F) (name v : Text)
      → (set_cvar_override fl con name v).0.unknown_cvars ≡ con.unknown_cvars
  unfolding set_cvar_override
  set_cvar_override-unknown_cvars con name v = elim (Option-cases (find_cvar con name)) [
    | inl f ↦ rw (set_cvar_override, f) refl
    | inr (cv, f) ↦
        rw (set_cvar_override, f)
          (elim (apply_set-Sets fl con name cv v true f) [
            | inl (_, same, _) ↦ rw same refl
            | inr (w, _, _, _, _, _, kept) ↦ kept
          ])
  ]
