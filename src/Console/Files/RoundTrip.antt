-- ===== src/Console/Files/RoundTrip.antt =====
-- engine/cvar/Console.cpp: `SaveCvarsToml`, then `LoadCvarsToml` at the next start.
use mathlib.Core.Option
use voxhammer.Console.Floats.{Floats}
use voxhammer.Console.Registry.{
  CVarType, int, float, bool, enum, vec3, color, string, CVar, Console, find_cvar, is_archive,
}
use voxhammer.Console.Setting.{check_value, stored}
use voxhammer.Console.Files.{
  saved_count, apply_migrations, CvarHost, root_of, read_cvars, is_saved, load_entries,
  save_cvars_toml, load_cvars_toml,
}
use voxhammer.Console.Files.Entries.{or_else, or_else-none, saved_value, find-saved_entries}
use voxhammer.Console.Files.Loading.{
  load_entries-none, load_entries-some, load_entries-unknown_cvars, load_entries-registered_unknown,
}
use voxhammer.Base.{
  ℕ, Option-cases, arith, true, ◌≢◌, inr, text_eq_iff, refl, inl, Bool-cases, ap, none,
  if◌then◌else◌, some, ◌∙◌, sym, ◌≡◌, [], find, Text, Option, IsSorted,
}
use voxhammer.Console.Files.Printing.{find-read_cvars, read_cvars-IsSorted}

module _ {F : Type 0} where
  -- The cvar as it is registered.
  abbrev pub to_default : CVar F → CVar F
  to_default cv = record cv { value = cv.default_value }

module _ (host : CvarHost) where
  module _ (fl : Floats) where
    open fl use {F}
    open host use {Disk}

    check_value-to_default :
        (cv : CVar F) (v : Text) (t : CVarType)
        → check_value fl (to_default cv) v t ≡ check_value fl cv v t
    unfolding check_value
    check_value-to_default cv v int = refl
    check_value-to_default cv v float = refl
    check_value-to_default cv v bool = refl
    check_value-to_default cv v enum = refl
    check_value-to_default cv v vec3 = refl
    check_value-to_default cv v color = refl
    check_value-to_default cv v string = refl

    some_of : (o : Option (CVar F)) (cv : CVar F) → o ≡ some cv → o ≢ none
    some_of o cv e n = ground (arith, e, n)

    saved_value-default :
        (cv : CVar F)
        → saved_value (some cv) ≡ none
        → is_archive cv.flags ≡ true
        → to_default cv ≡ cv
    unfolding saved_value is_saved
    saved_value-default cv e a =
        let same = (text_eq_iff cv.value cv.default_value).0 (ground (arith, e, a)) in
        rw (← same) refl

    saved_value-archive :
        (cv : CVar F) (v : Text)
        → saved_value (some cv) ≡ some v
        → (is_archive cv.flags ≡ true) × (cv.value ≡ v)
    unfolding saved_value is_saved
    saved_value-archive cv v e = ground (arith, e)

    -- The state after a save, and what the next start makes of it.
    module _ (con start : Console F) (sorted : IsSorted con.cvars)
        (unknown_sorted : IsSorted con.unknown_cvars)
        (disjoint : (j : Text) → find_cvar con j ≢ none → find j con.unknown_cvars ≡ none)
        (registered : (j : Text)
          → find_cvar start j ≡ Option.map to_default (find_cvar con j)) where
      abbrev loaded : Console F
      loaded =
          load_entries host fl (read_cvars host (root_of host con))
            (record start { unknown_cvars = [] })

      loaded-find_cvar :
          (j : Text) (cv : CVar F)
          → find_cvar con j ≡ some cv
          → (is_archive cv.flags ≡ true → check_value fl cv cv.value cv.type ≡ stored cv.value)
          → find_cvar loaded j ≡ some (if is_archive cv.flags then cv else to_default cv)
      unfolding find_cvar find or_else
      loaded-find_cvar j cv e h =
          let start0 : Console F = record start { unknown_cvars = [] } in
          let kv = read_cvars host (root_of host con) in
          let found : find_cvar start0 j ≡ some (to_default cv) =
            registered j ∙ ap (Option.map to_default) e in
          let unseen = disjoint j (some_of (find_cvar con j) cv e) in
          let read : find j kv ≡ saved_value (some cv) =
            find-read_cvars host con j
            ∙ find-saved_entries con j sorted unknown_sorted
            ∙ rw (unseen, e) refl in
          elim (Option-cases (saved_value (some cv))) [
            | inl n ↦
                let kept = load_entries-none host fl kv start0 j (read ∙ n) ∙ found in
                elim (Bool-cases (is_archive cv.flags)) [
                  | inl a ↦ rw a (kept ∙ ap some (saved_value-default cv n a))
                  | inr a ↦ rw a kept
                ]
            | inr (v, f) ↦
                let (a, same) = saved_value-archive cv v f in
                let accepted : check_value fl (to_default cv) v cv.type ≡ stored cv.value =
                  check_value-to_default cv v cv.type
                  ∙ ap (λ x. check_value fl cv x cv.type) (sym same)
                  ∙ h a in
                rw a (
                  load_entries-some host fl kv start0 j v cv.value (to_default cv)
                    (read_cvars-IsSorted host con) (read ∙ f) found accepted)
          ]

      loaded-unknown_cvars : (j : Text) → find j loaded.unknown_cvars ≡ find j con.unknown_cvars
      unfolding find_cvar find or_else saved_value
      loaded-unknown_cvars j =
          let start0 : Console F = record start { unknown_cvars = [] } in
          let kv = read_cvars host (root_of host con) in
          elim (Option-cases (find_cvar con j)) [
            | inl e ↦
                let absent : find_cvar start0 j ≡ none =
                  registered j ∙ ap (Option.map to_default) e in
                load_entries-unknown_cvars host fl kv start0 j tt absent
                ∙ find-read_cvars host con j
                ∙ find-saved_entries con j sorted unknown_sorted
                ∙ ap (λ o. or_else (find j con.unknown_cvars) (saved_value o)) e
                ∙ or_else-none (find j con.unknown_cvars)
            | inr (cv, e) ↦
                let found = registered j ∙ ap (Option.map to_default) e in
                load_entries-registered_unknown host fl kv start0 j tt
                  (some_of (find_cvar start0 j) (to_default cv) found)
                ∙ sym (disjoint j (some_of (find_cvar con j) cv e))
          ]

      -- A save, and a load of its file into a console with the same registrations at their defaults:
      -- archived cvars have the saved values, where validation accepts them as they are, all others
      -- their defaults, and the unknown keys are kept. The keys are in order, none is both a cvar's
      -- and unknown, and the saved texts are UTF-8.
      pub load_cvars_toml-save_cvars_toml :
          (d d' : Disk) (path : Text) (n : ℕ)
          → host.IsUtf8 (root_of host con)
          → ((j : Text) (cv : CVar F)
              → find_cvar con j ≡ some cv
              → is_archive cv.flags ≡ true
              → check_value fl cv cv.value cv.type ≡ stored cv.value)
          → save_cvars_toml host d path con ≡ some (d', n)
          → let (after, ok) = load_cvars_toml host fl d' path start in
            (ok ≡ true)
            × ((j : Text) (cv : CVar F)
                → find_cvar con j ≡ some cv
                → find_cvar after j ≡ some (if is_archive cv.flags then cv else to_default cv))
            × ((j : Text) → find j after.unknown_cvars ≡ find j con.unknown_cvars)
      unfolding save_cvars_toml load_cvars_toml apply_migrations
      load_cvars_toml-save_cvars_toml d d' path n utf8 valid e =
          elim (Option-cases (host.write_file d path (root_of host con))) [
            | inl f ↦
                let bad : none ≡ some (d', n) = rw (save_cvars_toml, f) at e in
                absurd (ground (arith, bad))
            | inr (d'', f) ↦
                let same : some (d'', saved_count con) ≡ some (d', n) =
                  rw (save_cvars_toml, f) at e in
                let disk : d'' ≡ d' = ground (arith, same) in
                let (there, parsed) =
                  host.parse_file-write_file d d' path (root_of host con) utf8 (f ∙ ap some disk) in
                rw (load_cvars_toml, there, parsed)
                  (refl, (λ j cv h. loaded-find_cvar j cv h (valid j cv h)), loaded-unknown_cvars)
          ]
