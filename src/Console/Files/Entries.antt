-- ===== src/Console/Files/Entries.antt =====
-- engine/cvar/Console.cpp: the entries that `SaveCvarsToml` writes, and what `LoadCvarsToml` does with
-- each.
use voxhammer.Console.Registry.{CVar, Console}
use voxhammer.Console.Files.{insert_or_assign, is_saved, save_archived, save_unknown, saved_entries}
use voxhammer.Base.{
  ap, IsAbove-trans, find-above, ◌∙◌, text_eq, text_eq_iff, true, refl, none, text_ltb_total, ◌≡◌,
  inr, inl, Bool-cases, [], arith, find, if◌then◌else◌, text_ltb, some, ◌∷◌, Text, List, Option,
  IsSorted, IsAbove,
}

module _ {ℓ} {V : Type ℓ} where
  pub find-insert_or_assign :
      (k j : Text) (v : V) (m : List (Text × V))
      → IsSorted m
      → find j (insert_or_assign k v m) ≡ (if text_eq k j then some v else find j m)
  unfolding find insert_or_assign
  find-insert_or_assign k j v [] s = ground arith
  find-insert_or_assign k j v ((i, w) ∷ m) (a, s) =
      ground
        (arith, text_eq_iff i k, text_eq_iff i j, text_eq_iff k j, find-insert_or_assign k j v m s)

  insert_or_assign-IsAbove :
      (k j : Text) (v : V) (m : List (Text × V))
      → text_ltb j k ≡ true
      → IsAbove j m
      → IsAbove j (insert_or_assign k v m)
  unfolding insert_or_assign
  insert_or_assign-IsAbove k j v [] h a = (h, tt)
  insert_or_assign-IsAbove k j v ((i, w) ∷ m) h a = ground (arith, insert_or_assign-IsAbove k j v m)

  pub insert_or_assign-IsSorted :
      (k : Text) (v : V) (m : List (Text × V)) → IsSorted m → IsSorted (insert_or_assign k v m)
  unfolding insert_or_assign
  insert_or_assign-IsSorted k v [] s = (tt, tt)
  insert_or_assign-IsSorted k v ((i, w) ∷ m) (a, s) = ground (
    arith,
    text_ltb_total i k,
    text_ltb_total k i,
    text_eq_iff i k,
    text_eq_iff k i,
    IsAbove-trans k i m,
    insert_or_assign-IsSorted k v m s,
    insert_or_assign-IsAbove k i v m,
  )

-- A key is there once.
pub find_unseen {ℓ} :
    {V : Type ℓ} (k j : Text) (m : List (Text × V))
    → IsAbove k m
    → text_eq k j ≡ true
    → find j m ≡ none
find_unseen k j m a e = rw (← (text_eq_iff k j).0 e) (find-above k m a)

-- The first value that is there.
unfoldable pub or_else {ℓ} : {A : Type ℓ} → Option A → Option A → Option A
or_else none d = d
or_else (some v) d = some v

pub or_else-none {ℓ} : {A : Type ℓ} (o : Option A) → or_else o none ≡ o
unfolding or_else
or_else-none none = refl
or_else-none (some v) = refl

-- What a save finds at a name.
unfoldable pub saved_value : {F : Type 0} → Option (CVar F) → Option Text
saved_value none = none
saved_value (some cv) = if is_saved cv then some cv.value else none

module _ {F : Type 0} where
  save_archived-IsSorted :
      (cvars : List (Text × CVar F)) (out : List (Text × Text))
      → IsSorted out
      → IsSorted (save_archived cvars out)
  unfolding save_archived
  save_archived-IsSorted [] out s = s
  save_archived-IsSorted ((name, cv) ∷ cvars) out s = elim (Bool-cases (is_saved cv)) [
    | inl e ↦ rw e (
        save_archived-IsSorted cvars (insert_or_assign name cv.value out)
          (insert_or_assign-IsSorted name cv.value out s))
    | inr e ↦ rw e (save_archived-IsSorted cvars out s)
  ]

  find-save_archived :
      (cvars : List (Text × CVar F)) (out : List (Text × Text)) (j : Text)
      → IsSorted cvars
      → IsSorted out
      → find j (save_archived cvars out) ≡ or_else (saved_value (find j cvars)) (find j out)
  unfolding save_archived find saved_value or_else
  find-save_archived [] out j s t = refl
  find-save_archived ((name, cv) ∷ cvars) out j (a, s) t = elim (Bool-cases (is_saved cv)) [
    | inl e ↦
        let out' = insert_or_assign name cv.value out in
        let rest =
          find-save_archived cvars out' j s (insert_or_assign-IsSorted name cv.value out t) in
        let read = find-insert_or_assign name j cv.value out t in
        elim (Bool-cases (text_eq name j)) [
          | inl f ↦
              rw (e, f, saved_value, e) (rest ∙ rw (find_unseen name j cvars a f, read, f) refl)
          | inr f ↦ rw (e, f) (rest ∙ rw (read, f) refl)
        ]
    | inr e ↦
        let rest = find-save_archived cvars out j s t in
        elim (Bool-cases (text_eq name j)) [
          | inl f ↦ rw (e, f, saved_value, e) (rest ∙ rw (find_unseen name j cvars a f) refl)
          | inr f ↦ rw (e, f) rest
        ]
  ]

save_unknown-IsSorted : (m out : List (Text × Text)) → IsSorted out → IsSorted (save_unknown m out)
unfolding save_unknown
save_unknown-IsSorted [] out s = s
save_unknown-IsSorted ((k, v) ∷ m) out s =
    save_unknown-IsSorted m (insert_or_assign k v out) (insert_or_assign-IsSorted k v out s)

find-save_unknown :
    (m out : List (Text × Text)) (j : Text)
    → IsSorted m
    → IsSorted out
    → find j (save_unknown m out) ≡ or_else (find j m) (find j out)
unfolding save_unknown find or_else
find-save_unknown [] out j s t = refl
find-save_unknown ((k, v) ∷ m) out j (a, s) t =
    let rest =
      find-save_unknown m (insert_or_assign k v out) j s (insert_or_assign-IsSorted k v out t) in
    let read = find-insert_or_assign k j v out t in
    elim (Bool-cases (text_eq k j)) [
      | inl f ↦ rw f (rest ∙ rw (find_unseen k j m a f, read, f) refl)
      | inr f ↦ rw f (rest ∙ rw (read, f) refl)
    ]

module _ {F : Type 0} where
  -- The entries of a save, in order, are the archived cvars off their defaults, and the unknown keys.
  pub find-saved_entries :
      (con : Console F) (j : Text)
      → IsSorted con.cvars
      → IsSorted con.unknown_cvars
      → find j (saved_entries con)
        ≡ or_else (find j con.unknown_cvars) (saved_value (find j con.cvars))
  unfolding saved_entries find
  find-saved_entries con j s t =
      let sorted = save_archived-IsSorted con.cvars [] tt in
      let rest = find-save_unknown con.unknown_cvars (save_archived con.cvars []) j t sorted in
      let read = find-save_archived con.cvars [] j s tt in
      rest
      ∙ ap (or_else (find j con.unknown_cvars))
          (read ∙ or_else-none (saved_value (find j con.cvars)))

  pub saved_entries-IsSorted : (con : Console F) → IsSorted (saved_entries con)
  unfolding saved_entries
  saved_entries-IsSorted con =
      save_unknown-IsSorted con.unknown_cvars (save_archived con.cvars [])
        (save_archived-IsSorted con.cvars [] tt)
