-- ===== src/Physics/Slots.antt =====
-- Lists of slots and lists of indices, read at an index.
use voxhammer.Base.{
  zero, arith, ◌+◌, suc, set, ◌==◌, refl, [], if◌then◌else◌, none, some, length, ◌++◌, ◌∷◌, ◌≡◌,
  List, ℕ,
}
use voxhammer.Physics.{get_elem?}

module _ {ℓ} {A : Type ℓ} where
  pub get_elem?-append :
      (xs : List A) (x : A) (i : ℕ)
      → get_elem? (xs ++ x ∷ []) i ≡ (if i == length xs then some x else get_elem? xs i)
  unfolding get_elem?
  get_elem?-append [] x zero = refl
  get_elem?-append [] x (suc i) = ground arith
  get_elem?-append (y ∷ xs) x zero = ground arith
  get_elem?-append (y ∷ xs) x (suc i) = ground (arith, get_elem?-append xs x i)

  pub get_elem?-set :
      (xs : List A) (i j : ℕ) (v x : A)
      → get_elem? xs i ≡ some x
      → get_elem? (set xs i v) j ≡ (if j == i then some v else get_elem? xs j)
  unfolding get_elem?
  get_elem?-set [] i j v x e = absurd (ground arith)
  get_elem?-set (y ∷ xs) zero zero v x e = refl
  get_elem?-set (y ∷ xs) zero (suc j) v x e = ground arith
  get_elem?-set (y ∷ xs) (suc i) zero v x e = ground arith
  get_elem?-set (y ∷ xs) (suc i) (suc j) v x e = ground (arith, get_elem?-set xs i j v x e)

  pub get_elem?-length : (xs : List A) → get_elem? xs (length xs) ≡ none
  unfolding get_elem?
  get_elem?-length [] = refl
  get_elem?-length (x ∷ xs) = get_elem?-length xs

-- How often an index is in a list.
abbrev pub occurrences : ℕ → List ℕ → ℕ
occurrences i [] = 0
occurrences i (j ∷ l) = if i == j then occurrences i l + 1 else occurrences i l
