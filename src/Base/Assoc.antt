-- ===== src/Base/Assoc.antt =====
-- `std::map<std::string, V>` as a list of pairs in the order of the keys.
use voxhammer.Base.Tests.{ltb, ◌==◌, if◌then◌else◌, Bool-cases}
use voxhammer.Base.Lists.{All}
use voxhammer.Base.Texts.{Text, text_eq, text_eq_iff}
use mathlib.Core.Path.{◌≡◌, refl}
use mathlib.Core.Logic.{inl, inr}
use mathlib.Core.Bool.{Bool, true, false}
use mathlib.Core.List.{List, [], ◌∷◌}
use mathlib.Core.Option
use mathlib.Core.Option.{Option, none, some}
use native.Mathlib.Omega.{arith}

-- `std::string::operator<`.
unfoldable pub text_ltb : Text → Text → Bool
text_ltb [] [] = false
text_ltb [] (b ∷ t) = true
text_ltb (a ∷ s) [] = false
text_ltb (a ∷ s) (b ∷ t) = if ltb a b then true else if a == b then text_ltb s t else false

pub text_ltb_trans :
    (s t u : Text) → text_ltb s t ≡ true → text_ltb t u ≡ true → text_ltb s u ≡ true
unfolding text_ltb
text_ltb_trans [] [] u h k = cc
text_ltb_trans [] (b ∷ t) [] h k = cc
text_ltb_trans [] (b ∷ t) (c ∷ u) h k = refl
text_ltb_trans (a ∷ s) [] u h k = cc
text_ltb_trans (a ∷ s) (b ∷ t) [] h k = cc
text_ltb_trans (a ∷ s) (b ∷ t) (c ∷ u) h k = ground (arith, text_ltb_trans s t u)

pub text_ltb_irrefl : (s : Text) → text_ltb s s ≡ false
unfolding text_ltb
text_ltb_irrefl [] = refl
text_ltb_irrefl (a ∷ s) = ground (arith, text_ltb_irrefl s)

-- Of two texts that differ one comes first.
pub text_ltb_total : (s t : Text) → text_eq s t ≡ false → text_ltb s t ≡ false → text_ltb t s ≡ true
unfolding text_ltb text_eq
text_ltb_total [] [] h k = cc
text_ltb_total [] (b ∷ t) h k = cc
text_ltb_total (a ∷ s) [] h k = refl
text_ltb_total (a ∷ s) (b ∷ t) h k = ground (arith, text_ltb_total s t)

module _ {ℓ} {V : Type ℓ} where
  unfoldable pub find : Text → List (Text × V) → Option V
  find k [] = none
  find k ((j, v) ∷ m) = if text_eq j k then some v else find k m

  -- `try_emplace`: a key that is there keeps its value.
  unfoldable pub try_emplace : Text → V → List (Text × V) → List (Text × V)
  try_emplace k v [] = (k, v) ∷ []
  try_emplace k v ((j, w) ∷ m) =
      if text_eq j k
      then (j, w) ∷ m
      else if text_ltb k j
      then (k, v) ∷ (j, w) ∷ m
      else (j, w) ∷ try_emplace k v m

  -- `m[k] = v`
  unfoldable pub assign : Text → V → List (Text × V) → List (Text × V)
  assign k v [] = (k, v) ∷ []
  assign k v ((j, w) ∷ m) =
      let rest = assign k v m in if text_eq j k then (j, v) ∷ m else (j, w) ∷ rest

  -- A write through the reference that a lookup returned.
  unfoldable pub write : Text → V → List (Text × V) → List (Text × V)
  write k v [] = []
  write k v ((j, w) ∷ m) = if text_eq j k then (j, v) ∷ m else (j, w) ∷ write k v m

  -- The keys rise along the list.
  abbrev pub IsAbove : Text → List (Text × V) → Type 0
  IsAbove k = All (λ e. text_ltb k e.0 ≡ true)

  abbrev pub IsSorted : List (Text × V) → Type 0
  IsSorted [] = Unit {0}
  IsSorted ((k, v) ∷ m) = IsAbove k m × IsSorted m

  pub IsAbove-trans :
      (j k : Text) (m : List (Text × V)) → text_ltb j k ≡ true → IsAbove k m → IsAbove j m
  IsAbove-trans j k [] h a = tt
  IsAbove-trans j k ((i, v) ∷ m) h (b, a) = (text_ltb_trans j k i h b, IsAbove-trans j k m h a)

  pub find-above : (k : Text) (m : List (Text × V)) → IsAbove k m → find k m ≡ none
  unfolding find
  find-above k [] a = refl
  find-above k ((j, v) ∷ m) (b, a) =
      ground (arith, text_eq_iff j k, text_ltb_irrefl k, find-above k m a)

  pub find-try_emplace :
      (k j : Text) (v : V) (m : List (Text × V))
      → IsSorted m
      → find j (try_emplace k v m)
        ≡ (if text_eq k j then some (Option.get_or (find k m) v) else find j m)
  unfolding find try_emplace
  find-try_emplace k j v [] s = ground arith
  find-try_emplace k j v ((i, w) ∷ m) (a, s) = elim (Bool-cases (text_eq i k)) [
    | inl e ↦ rw e (ground (arith, text_eq_iff i k, text_eq_iff i j, text_eq_iff k j))
    | inr e ↦ elim (Bool-cases (text_ltb k i)) [
      | inl f ↦ rw (e, f, find-above k m (IsAbove-trans k i m f a)) refl
      | inr f ↦
          rw (e, f)
            (ground (
              arith,
              text_eq_iff i k,
              text_eq_iff i j,
              text_eq_iff k j,
              find-try_emplace k j v m s,
            ))
    ]
  ]

  pub find-assign :
      (k j : Text) (v : V) (m : List (Text × V))
      → find j (assign k v m) ≡ (if text_eq k j then some v else find j m)
  unfolding find assign
  find-assign k j v [] = ground arith
  find-assign k j v ((i, w) ∷ m) =
      ground (arith, text_eq_iff i k, text_eq_iff i j, text_eq_iff k j, find-assign k j v m)

  pub find-write :
      (k j : Text) (v : V) (m : List (Text × V))
      → find j (write k v m) ≡ (if text_eq k j then Option.map (λ _. v) (find k m) else find j m)
  unfolding find write
  find-write k j v [] = ground arith
  find-write k j v ((i, w) ∷ m) =
      ground (arith, text_eq_iff i k, text_eq_iff i j, text_eq_iff k j, find-write k j v m)

  try_emplace-IsAbove :
      (k j : Text) (v : V) (m : List (Text × V))
      → text_ltb j k ≡ true
      → IsAbove j m
      → IsAbove j (try_emplace k v m)
  unfolding try_emplace
  try_emplace-IsAbove k j v [] h a = (h, tt)
  try_emplace-IsAbove k j v ((i, w) ∷ m) h a = ground (arith, try_emplace-IsAbove k j v m)

  pub try_emplace-IsSorted :
      (k : Text) (v : V) (m : List (Text × V)) → IsSorted m → IsSorted (try_emplace k v m)
  unfolding try_emplace
  try_emplace-IsSorted k v [] s = (tt, tt)
  try_emplace-IsSorted k v ((i, w) ∷ m) (a, s) = ground (
    arith,
    text_ltb_total i k,
    text_ltb_total k i,
    text_eq_iff i k,
    text_eq_iff k i,
    IsAbove-trans k i m,
    try_emplace-IsSorted k v m s,
    try_emplace-IsAbove k i v m,
  )

  write-IsAbove : (k j : Text) (v : V) (m : List (Text × V)) → IsAbove j m → IsAbove j (write k v m)
  unfolding write
  write-IsAbove k j v [] a = tt
  write-IsAbove k j v ((i, w) ∷ m) a = ground (arith, write-IsAbove k j v m)

  pub write-IsSorted :
      (k : Text) (v : V) (m : List (Text × V)) → IsSorted m → IsSorted (write k v m)
  unfolding write
  write-IsSorted k v [] s = tt
  write-IsSorted k v ((i, w) ∷ m) (a, s) =
      ground (arith, write-IsSorted k v m s, write-IsAbove k i v m a)
