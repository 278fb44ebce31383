-- ===== src/Base/Loops.antt =====
-- Counted loops `for (i = 0; i < n; ++i)`, with the rules by which they are proved.
use voxhammer.Base.{
  inr, ap, sym, ◌∙◌, inl, Bool-cases, ◌&&◌, false, true, ℕ, zero, suc, ◌<◌, ◌≡◌, refl, ◌≢◌, arith,
  ltb, if◌then◌else◌,
}
use voxhammer.Base.Int.{ℤ, pos, pos_part, ◌-ℤ◌, ◌+ℤ◌, ◌≤ℤ◌, ltb_ℤ, leb_ℤ}
use native.Mathlib.Decide.{ℕ_discrete}

module _ {ℓ} {S : Type ℓ} where
  -- The body runs at 0, 1, ..., n - 1, in this order.
  unfoldable pub loop : ℕ → (ℕ → S → S) → S → S
  loop zero body s = s
  loop (suc n) body s = body n (loop n body s)

  pub loop_inv {κ} :
      (P : S → Type κ) (n : ℕ) (body : ℕ → S → S) (s : S)
      → ((i : ℕ) (t : S) → i < n → P t → P (body i t))
      → P s
      → P (loop n body s)
  unfolding loop
  loop_inv P zero body s keep h = h
  loop_inv P (suc n) body s keep h =
      keep n (loop n body s) (omega arith) (loop_inv P n body s (λ i t q. keep i t (omega arith)) h)

  -- What an observation sees of a loop in which no round changes it.
  pub loop_miss {κ ι} :
      {A : Type ι} (P : S → Type κ) (read : S → A) (n : ℕ) (body : ℕ → S → S) (s : S)
      → ((i : ℕ) (t : S) → i < n → P t → P (body i t) × (read (body i t) ≡ read t))
      → P s
      → P (loop n body s) × (read (loop n body s) ≡ read s)
  unfolding loop
  loop_miss P read zero body s keep h = (h, refl)
  loop_miss P read (suc n) body s keep h =
      let (p, e) = loop_miss P read n body s (λ i t q. keep i t (omega arith)) h in
      let (p', e') = keep n (loop n body s) (omega arith) p in (p', cc)

  -- What it sees where one round, `k`, changes it and no other does.
  pub loop_hit {κ ι} :
      {A : Type ι} (P : S → Type κ) (read : S → A) (k : ℕ) (change : A → A) (n : ℕ)
      (body : ℕ → S → S) (s : S)
      → ((i : ℕ) (t : S) → i < n → i ≢ k → P t → P (body i t) × (read (body i t) ≡ read t))
      → ((i : ℕ) (t : S) → i < n → i ≡ k → P t → P (body i t) × (read (body i t) ≡ change (read t)))
      → P s
      → P (loop n body s) × (read (loop n body s) ≡ (if ltb k n then change (read s) else read s))
  unfolding loop
  loop_hit P read k change zero body s other same h = (h, ground arith)
  loop_hit P read k change (suc n) body s other same h =
      let (p, e) =
        loop_hit P read k change n body s (λ i t q. other i t (omega arith))
          (λ i t q. same i t (omega arith)) h in
      elim (ℕ_discrete n k) [
        | yes q ↦
            let (p', e') = same n (loop n body s) (omega arith) q p in (p', ground (arith, e, e'))
        | no q ↦
            let (p', e') = other n (loop n body s) (omega arith) q p in (p', ground (arith, e, e'))
      ]

-- `for (i = lo; i < hi; ++i)` over `int`.
unfoldable pub loop_ℤ {ℓ} : {S : Type ℓ} → ℤ → ℤ → (ℤ → S → S) → S → S
loop_ℤ lo hi body s = loop (pos_part (hi -ℤ lo)) (λ i. body (lo +ℤ pos i)) s

index_bounds :
    (lo hi : ℤ) (i : ℕ)
    → i < pos_part (hi -ℤ lo)
    → (lo ≤ℤ lo +ℤ pos i) × (ltb_ℤ (lo +ℤ pos i) hi ≡ true)
unfolding ◌-ℤ◌ ◌+ℤ◌
index_bounds lo hi i h = ground arith

index_of : (lo k : ℤ) → lo ≤ℤ k → lo +ℤ pos (pos_part (k -ℤ lo)) ≡ k
unfolding ◌-ℤ◌ ◌+ℤ◌
index_of lo k h = ground arith

index_injective : (lo : ℤ) (i j : ℕ) → lo +ℤ pos i ≡ lo +ℤ pos j → i ≡ j
unfolding ◌+ℤ◌
index_injective lo i j h = ground arith

index_test : (lo k hi : ℤ) → lo ≤ℤ k → ltb (pos_part (k -ℤ lo)) (pos_part (hi -ℤ lo)) ≡ ltb_ℤ k hi
unfolding ◌-ℤ◌
index_test lo k hi h = ground arith

below_lo : (lo k : ℤ) (i : ℕ) → leb_ℤ lo k ≡ false → lo +ℤ pos i ≡ k → ⊥
unfolding ◌+ℤ◌
below_lo lo k i h c = ground arith

module _ {ℓ κ} {S : Type ℓ} (P : S → Type κ) (lo hi : ℤ) (body : ℤ → S → S) (s : S) where
  pub loop_ℤ_inv :
      ((i : ℤ) (t : S) → lo ≤ℤ i → ltb_ℤ i hi ≡ true → P t → P (body i t))
      → P s
      → P (loop_ℤ lo hi body s)
  unfolding loop_ℤ
  loop_ℤ_inv keep h =
      loop_inv P _ _ s
        (λ i t q p. let (a, b) = index_bounds lo hi i q in keep (lo +ℤ pos i) t a b p) h

  pub loop_ℤ_hit {ι} :
      {A : Type ι} (read : S → A) (k : ℤ) (change : A → A)
      → ((i : ℤ) (t : S)
          → lo ≤ℤ i
          → ltb_ℤ i hi ≡ true
          → i ≢ k
          → P t
          → P (body i t) × (read (body i t) ≡ read t))
      → ((i : ℤ) (t : S)
          → lo ≤ℤ i
          → ltb_ℤ i hi ≡ true
          → i ≡ k
          → P t
          → P (body i t) × (read (body i t) ≡ change (read t)))
      → P s
      → P (loop_ℤ lo hi body s)
        × (read (loop_ℤ lo hi body s)
            ≡ (if leb_ℤ lo k && ltb_ℤ k hi then change (read s) else read s))
  unfolding loop_ℤ
  loop_ℤ_hit read k change other same h = elim (Bool-cases (leb_ℤ lo k)) [
    | inl e ↦
        let at : lo +ℤ pos (pos_part (k -ℤ lo)) ≡ k = index_of lo k (ground arith) in
        let (p, r) =
          loop_hit P read (pos_part (k -ℤ lo)) change (pos_part (hi -ℤ lo))
            (λ i. body (lo +ℤ pos i)) s
            (λ i t q n p.
              let (a, b) = index_bounds lo hi i q in
              other (lo +ℤ pos i) t a b (λ c. n (index_injective lo i _ (c ∙ sym at))) p)
            (λ i t q c p.
              let (a, b) = index_bounds lo hi i q in
              same (lo +ℤ pos i) t a b (ap (λ j. lo +ℤ pos j) c ∙ at) p)
            h in
        (p, r ∙ rw (e, index_test lo k hi (ground arith)))
    | inr e ↦
        let (p, r) =
          loop_miss P read (pos_part (hi -ℤ lo)) (λ i. body (lo +ℤ pos i)) s
            (λ i t q p.
              let (a, b) = index_bounds lo hi i q in
              other (lo +ℤ pos i) t a b (λ c. below_lo lo k i e c) p)
            h in
        (p, r ∙ rw e)
  ]
