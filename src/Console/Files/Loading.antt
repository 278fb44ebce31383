-- ===== src/Console/Files/Loading.antt =====
-- engine/cvar/Console.cpp: what the loop of `LoadCvarsToml` does with the entries.
use mathlib.Core.Option
use voxhammer.Console.Floats.{Floats}
use voxhammer.Console.Registry.{CVar, Console, find_cvar}
use voxhammer.Console.Setting.{check_value, stored}
use voxhammer.Console.Setting.Override.{
  set_cvar_override-registered, set_cvar_override-find_cvar, set_cvar_override-unregistered,
  set_cvar_override-unknown_cvars, set_cvar_override-check_value,
}
use voxhammer.Console.Files.{CvarHost, load_entry, load_entries}
use voxhammer.Console.Files.Entries.{or_else, or_else-none, find_unseen}
use voxhammer.Base.{
  ap, find-try_emplace, sym, true, try_emplace-IsSorted, ◌≢◌, [], text_eq_iff, ◌∙◌, refl, inr, inl,
  Bool-cases, Option-cases, arith, ◌∷◌, false, if◌then◌else◌, none, some, find, text_eq, ◌≡◌, Text,
  List, Option, Bool, IsSorted,
}

get_or_else : (o : Option Text) (v : Text) → some (Option.get_or o v) ≡ or_else o (some v)
unfolding or_else
get_or_else none v = refl
get_or_else (some w) v = refl

first_of_three :
    (o : Option Text) (b : Bool) (v : Text) (p : Option Text)
    → or_else (or_else o (if b then some v else none)) p ≡ or_else o (if b then some v else p)
unfolding or_else
first_of_three none true v p = refl
first_of_three none false v p = refl
first_of_three (some w) b v p = refl

module _ (host : CvarHost) (fl : Floats) where
  open fl use {F}

  load_entry-find_cvar :
      (key v j : Text) (con : Console F)
      → text_eq key j ≡ false
      → find_cvar (load_entry host fl key v con) j ≡ find_cvar con j
  unfolding load_entry find_cvar
  load_entry-find_cvar key v j con e = elim (Option-cases (find_cvar con key)) [
    | inl f ↦ rw (load_entry, f) refl
    | inr (cv, f) ↦ rw (load_entry, f) (set_cvar_override-find_cvar fl con key j v e)
  ]

  load_entry-registered :
      (key v w : Text) (con : Console F) (cv : CVar F)
      → find_cvar con key ≡ some cv
      → check_value fl cv v cv.type ≡ stored w
      → find_cvar (load_entry host fl key v con) key ≡ some (record cv { value = w })
  unfolding load_entry
  load_entry-registered key v w con cv e h =
      rw (load_entry, e) (set_cvar_override-check_value fl con key cv v w e h).1

  load_entry-unregistered :
      (key v j : Text) (con : Console F)
      → find_cvar con j ≡ none
      → find_cvar (load_entry host fl key v con) j ≡ none
  unfolding load_entry find_cvar
  load_entry-unregistered key v j con e = elim (Option-cases (find_cvar con key)) [
    | inl f ↦ rw (load_entry, f) e
    | inr (cv, f) ↦ rw (load_entry, f) (set_cvar_override-unregistered fl con key j v e)
  ]

  pub load_entries-none :
      (kv : List (Text × Text)) (con : Console F) (j : Text)
      → find j kv ≡ none
      → find_cvar (load_entries host fl kv con) j ≡ find_cvar con j
  unfolding load_entries find
  load_entries-none [] con j e = refl
  load_entries-none ((key, v) ∷ kv) con j e = elim (Bool-cases (text_eq key j)) [
    | inl f ↦ let bad : some v ≡ none = rw f at e in absurd (ground (arith, bad))
    | inr f ↦
        load_entries-none kv (load_entry host fl key v con) j (rw f at e)
        ∙ load_entry-find_cvar key v j con f
  ]

  pub load_entries-some :
      (kv : List (Text × Text)) (con : Console F) (j v w : Text) (cv : CVar F)
      → IsSorted kv
      → find j kv ≡ some v
      → find_cvar con j ≡ some cv
      → check_value fl cv v cv.type ≡ stored w
      → find_cvar (load_entries host fl kv con) j ≡ some (record cv { value = w })
  unfolding load_entries find
  load_entries-some [] con j v w cv s e h k = absurd (ground (arith, e))
  load_entries-some ((key, u) ∷ kv) con j v w cv (a, s) e h k = elim (Bool-cases (text_eq key j)) [
    | inl f ↦
        let names : key ≡ j = (text_eq_iff key j).0 f in
        let same : some u ≡ some v = rw f at e in
        let u_v : u ≡ v = ground (arith, same) in
        rw (names, u_v)
          (load_entries-none kv (load_entry host fl j v con) j (find_unseen key j kv a f)
            ∙ load_entry-registered j v w con cv h k)
    | inr f ↦
        load_entries-some kv (load_entry host fl key u con) j v w cv s (rw f at e)
          (load_entry-find_cvar key u j con f ∙ h) k
  ]

  load_entry-IsSorted :
      (key v : Text) (con : Console F)
      → IsSorted con.unknown_cvars
      → IsSorted (load_entry host fl key v con).unknown_cvars
  unfolding load_entry find_cvar
  load_entry-IsSorted key v con s = elim (Option-cases (find_cvar con key)) [
    | inl f ↦ rw (load_entry, f) (try_emplace-IsSorted key v con.unknown_cvars s)
    | inr (cv, f) ↦ rw (load_entry, f, set_cvar_override-unknown_cvars fl con key v) s
  ]

  load_entry-unknown_cvars :
      (key v j : Text) (con : Console F)
      → IsSorted con.unknown_cvars
      → find_cvar con j ≡ none
      → find j (load_entry host fl key v con).unknown_cvars
        ≡ or_else (find j con.unknown_cvars) (if text_eq key j then some v else none)
  unfolding load_entry find_cvar
  load_entry-unknown_cvars key v j con s e = elim (Option-cases (find_cvar con key)) [
    | inl f ↦
        let read = find-try_emplace key j v con.unknown_cvars s in
        elim (Bool-cases (text_eq key j)) [
          | inl g ↦
              let names : key ≡ j = (text_eq_iff key j).0 g in
              rw (load_entry, f, read, g, names) (get_or_else (find j con.unknown_cvars) v)
          | inr g ↦ rw (load_entry, f, read, g, or_else-none (find j con.unknown_cvars)) refl
        ]
    | inr (cv, f) ↦ elim (Bool-cases (text_eq key j)) [
      | inl g ↦
          let names : key ≡ j = (text_eq_iff key j).0 g in
          let clash : some cv ≡ none = sym f ∙ ap (find_cvar con) names ∙ e in
          absurd (ground (arith, clash))
      | inr g ↦
          rw
            (
              load_entry,
              f,
              g,
              set_cvar_override-unknown_cvars fl con key v,
              or_else-none (find j con.unknown_cvars),
            )
            refl
    ]
  ]

  pub load_entries-unknown_cvars :
      (kv : List (Text × Text)) (con : Console F) (j : Text)
      → IsSorted con.unknown_cvars
      → find_cvar con j ≡ none
      → find j (load_entries host fl kv con).unknown_cvars
        ≡ or_else (find j con.unknown_cvars) (find j kv)
  unfolding load_entries find
  load_entries-unknown_cvars [] con j s e = sym (or_else-none (find j con.unknown_cvars))
  load_entries-unknown_cvars ((key, v) ∷ kv) con j s e =
      load_entries-unknown_cvars kv (load_entry host fl key v con) j
        (load_entry-IsSorted key v con s) (load_entry-unregistered key v j con e)
      ∙ rw (load_entry-unknown_cvars key v j con s e)
          (first_of_three (find j con.unknown_cvars) (text_eq key j) v (find j kv))

  load_entry-registered_unknown :
      (key v j : Text) (con : Console F)
      → IsSorted con.unknown_cvars
      → find_cvar con j ≢ none
      → (find_cvar (load_entry host fl key v con) j ≢ none)
        × (find j (load_entry host fl key v con).unknown_cvars ≡ find j con.unknown_cvars)
  unfolding load_entry find_cvar
  load_entry-registered_unknown key v j con s e = elim (Option-cases (find_cvar con key)) [
    | inl f ↦
        let read = find-try_emplace key j v con.unknown_cvars s in
        elim (Bool-cases (text_eq key j)) [
          | inl g ↦
              let names : key ≡ j = (text_eq_iff key j).0 g in
              absurd (e (ap (find_cvar con) (sym names) ∙ f))
          | inr g ↦ rw (load_entry, f) (e, read ∙ rw g refl)
        ]
    | inr (cv, f) ↦
        rw (load_entry, f)
          (
            set_cvar_override-registered fl con key j v e,
            ap (find j) (set_cvar_override-unknown_cvars fl con key v),
          )
  ]

  pub load_entries-registered_unknown :
      (kv : List (Text × Text)) (con : Console F) (j : Text)
      → IsSorted con.unknown_cvars
      → find_cvar con j ≢ none
      → find j (load_entries host fl kv con).unknown_cvars ≡ find j con.unknown_cvars
  unfolding load_entries
  load_entries-registered_unknown [] con j s e = refl
  load_entries-registered_unknown ((key, v) ∷ kv) con j s e =
      let (k, same) = load_entry-registered_unknown key v j con s e in
      load_entries-registered_unknown kv (load_entry host fl key v con) j
        (load_entry-IsSorted key v con s) k
      ∙ same
