-- ===== src/Jobs/Order.antt =====
-- engine/jobs/JobScheduler: a loop whose steps commute has one result, in whatever order its steps
-- are taken.
use voxhammer.Base.Ranges.{for_range}
use voxhammer.Base.Loops.{loop}
use voxhammer.Jobs.{run_slices, covered, span}
use voxhammer.Base.{zero, ◌-◌, refl, suc, [], ap, ◌+◌, ◌++◌, ◌∙◌, ◌∷◌, List, ◌≡◌, ℕ}
use mathlib.Core.List.{Perm}
use mathlib.Core.List.{Permᴰ}
use mathlib.Core.Logic.{∥∥₁_elim}

module _ {ℓ} {S : Type ℓ} (step : ℕ → S → S) where
  -- The steps of a list of numbers, in its order.
  unfoldable pub run_steps : List ℕ → S → S
  run_steps [] s = s
  run_steps (i ∷ is) s = run_steps is (step i s)

  pub run_steps-append :
      (is js : List ℕ) (s : S) → run_steps (is ++ js) s ≡ run_steps js (run_steps is s)
  unfolding run_steps
  run_steps-append [] js s = refl
  run_steps-append (i ∷ is) js s = run_steps-append is js (step i s)

  pub run_steps-span : (lo n : ℕ) (s : S) → run_steps (span lo n) s ≡ loop n (λ i. step (lo + i)) s
  unfolding run_steps span loop
  run_steps-span lo zero s = refl
  run_steps-span lo (suc n) s =
      run_steps-append (span lo n) ((lo + n) ∷ []) s ∙ ap (step (lo + n)) (run_steps-span lo n s)

  pub run_steps-covered :
      (slices : List (ℕ × ℕ)) (s : S)
      → run_steps (covered slices) s ≡ run_slices (λ lo hi. for_range lo hi step) slices s
  unfolding covered run_slices for_range run_steps
  run_steps-covered [] s = refl
  run_steps-covered ((lo, hi) ∷ slices) s =
      run_steps-append (span lo (hi - lo)) (covered slices) s
      ∙ ap (run_steps (covered slices)) (run_steps-span lo (hi - lo) s)
      ∙ run_steps-covered slices (for_range lo hi step s)

  module _ (is_set : IsSet S)
      (commute : (i j : ℕ) (s : S) → step i (step j s) ≡ step j (step i s)) where
    run_steps-Permᴰ : {is js : List ℕ} → Permᴰ is js → (s : S) → run_steps is s ≡ run_steps js s
    unfolding run_steps
    run_steps-Permᴰ Permᴰ.nil s = refl
    run_steps-Permᴰ (Permᴰ.cons {a = a} {b = b} {l₂ = l₂} e π) s =
        run_steps-Permᴰ π (step a s) ∙ ap (λ c. run_steps l₂ (step c s)) e
    run_steps-Permᴰ (Permᴰ.swap {a = a} {b = c} {a' = a'} {b' = b'} {l = l} e₁ e₂) s =
        ap (run_steps l) (commute c a s) ∙ (λ i. run_steps l (step (e₁ i) (step (e₂ i) s)))
    run_steps-Permᴰ (Permᴰ.trans π₁ π₂) s = run_steps-Permᴰ π₁ s ∙ run_steps-Permᴰ π₂ s

    pub run_steps-Perm : (is js : List ℕ) (s : S) → Perm is js → run_steps is s ≡ run_steps js s
    run_steps-Perm is js s p =
        ∥∥₁_elim p (is_set (run_steps is s) (run_steps js s)) (λ π. run_steps-Permᴰ π s)
