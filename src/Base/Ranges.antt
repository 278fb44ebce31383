-- ===== src/Base/Ranges.antt =====
-- Counted loops from one number to another, searches, and lists that a loop pushes onto.
use native.Mathlib.Decide.{ℕ_discrete}
use voxhammer.Base.{
  leb→le, refl, ltb, ◌∙◌, ap, ◌&&◌, inr, inl, Bool-cases, leb, zero, arith, if◌then◌else◌, true,
  ◌≢◌, suc, false, ◌+◌, ◌<◌, ◌≡◌, Bool, ◌-◌, ◌≤◌, ℕ,
}
use voxhammer.Base.Loops.{loop, loop_inv, loop_miss, loop_hit}

-- `for (i = lo; i < hi; ++i)`
unfoldable pub for_range {ℓ} : {S : Type ℓ} → ℕ → ℕ → (ℕ → S → S) → S → S
for_range lo hi body s = loop (hi - lo) (λ i. body (lo + i)) s

range_test : (lo k hi : ℕ) → leb lo k ≡ true → ltb (k - lo) (hi - lo) ≡ ltb k hi
range_test lo k hi h = ground arith

module _ {ℓ κ} {S : Type ℓ} (P : S → Type κ) (lo hi : ℕ) (body : ℕ → S → S) (s : S) where
  pub for_range_inv :
      ((i : ℕ) (t : S) → lo ≤ i → i < hi → P t → P (body i t)) → P s → P (for_range lo hi body s)
  unfolding for_range
  for_range_inv keep h =
      loop_inv P (hi - lo) _ s (λ i t q. keep (lo + i) t (omega arith) (omega arith)) h

  pub for_range_hit {ι} :
      {A : Type ι} (read : S → A) (k : ℕ) (change : A → A)
      → ((i : ℕ) (t : S)
          → lo ≤ i
          → i < hi
          → i ≢ k
          → P t
          → P (body i t) × (read (body i t) ≡ read t))
      → ((i : ℕ) (t : S)
          → lo ≤ i
          → i < hi
          → i ≡ k
          → P t
          → P (body i t) × (read (body i t) ≡ change (read t)))
      → P s
      → P (for_range lo hi body s)
        × (read (for_range lo hi body s)
            ≡ (if leb lo k && ltb k hi then change (read s) else read s))
  unfolding for_range
  for_range_hit read k change other same h = elim (Bool-cases (leb lo k)) [
    | inl e ↦
        let (p, r) =
          loop_hit P read (k - lo) change (hi - lo) (λ i. body (lo + i)) s
            (λ i t q n p. other (lo + i) t (omega arith) (omega arith) (λ c. n (omega arith)) p)
            (λ i t q c p.
              same (lo + i) t (omega arith) (omega arith) (omega (arith, leb→le lo k e)) p)
            h in
        (p, r ∙ rw (e, range_test lo k hi e) refl)
    | inr e ↦
        let (p, r) =
          loop_miss P read (hi - lo) (λ i. body (lo + i)) s
            (λ i t q p. other (lo + i) t (omega arith) (omega arith) (λ c. absurd (ground arith)) p)
            h in
        (p, r ∙ rw e refl)
  ]

-- Whether one of the `n` numbers from `lo` on passes a test: a loop that stops at the first.
unfoldable pub any_from : (lo n : ℕ) → (ℕ → Bool) → Bool
any_from lo zero p = false
any_from lo (suc n) p = if p lo then true else any_from (suc lo) n p

pub any_from-intro :
    (lo n : ℕ) (p : ℕ → Bool) (k : ℕ) → lo ≤ k → k < lo + n → p k ≡ true → any_from lo n p ≡ true
unfolding any_from
any_from-intro lo zero p k a b h = absurd (omega arith)
any_from-intro lo (suc n) p k a b h = elim (ℕ_discrete lo k) [
  | yes q ↦ let at : p lo ≡ true = ap p q ∙ h in rw at refl
  | no q ↦ ground (arith, any_from-intro (suc lo) n p k (omega arith) (omega arith) h)
]

pub any_from-elim :
    (lo n : ℕ) (p : ℕ → Bool)
    → any_from lo n p ≡ true
    → (k : ℕ) × (lo ≤ k) × (k < lo + n) × (p k ≡ true)
unfolding any_from
any_from-elim lo zero p h = absurd (ground arith)
any_from-elim lo (suc n) p h = elim (Bool-cases (p lo)) [
  | inl e ↦ (lo, omega arith, omega arith, e)
  | inr e ↦
      let (k, a, b, c) = any_from-elim (suc lo) n p (ground (arith, e)) in
      (k, omega (arith, a), omega (arith, b), c)
]
