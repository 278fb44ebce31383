-- ===== src/Jobs/Serial.antt =====
-- engine/jobs/JobScheduler: what ParallelFor and Run do with and without threads.
use voxhammer.Base.Ranges.{for_range}
use voxhammer.Jobs.{
  active, TaskTag, JobScheduler, parallel_for, run_job, span, Enki, covered, run_slices,
}
use voxhammer.Jobs.Order.{
  run_steps-span, run_steps-covered, run_steps-append, run_steps-Perm, run_steps,
}
use voxhammer.Base.{
  zero, inr, inl, [], sym, ◌<◌, ◌==◌, All, Bool-cases, Option-cases, arith, ◌≤◌, ap, ◌∙◌, ◌-◌, refl,
  ◌+◌, suc, ◌∷◌, ◌≡◌, ℕ, List,
}
use native.Mathlib.Nat.{ℕ_set}
use mathlib.Core.List.{Perm}
use voxhammer.Base.Loops.{loop}

-- The number of steps.
abbrev counted : List ℕ → ℕ → ℕ
counted = run_steps (λ i n. suc n)

counted-Perm : (is js : List ℕ) → Perm is js → counted is 0 ≡ counted js 0
counted-Perm is js = run_steps-Perm (λ i n. suc n) ℕ_set (λ i j s. refl) is js 0

counted_le : (is : List ℕ) (n : ℕ) → n ≤ counted is n
unfolding run_steps
counted_le [] n = omega arith
counted_le (i ∷ is) n = omega (arith, counted_le is (suc n))

counted-span : (lo n m : ℕ) → counted (span lo n) m ≡ m + n
unfolding run_steps span
counted-span lo zero m = omega arith
counted-span lo (suc n) m =
    run_steps-append (λ i n. suc n) (span lo n) ((lo + n) ∷ []) m
    ∙ omega (arith, counted-span lo n m)

counted-covered :
    (lo hi : ℕ) (slices : List (ℕ × ℕ)) (m : ℕ)
    → counted (covered ((lo, hi) ∷ slices)) m ≡ counted (covered slices) (m + (hi - lo))
unfolding covered
counted-covered lo hi slices m =
    run_steps-append (λ i n. suc n) (span lo (hi - lo)) (covered slices) m
    ∙ ap (counted (covered slices)) (counted-span lo (hi - lo) m)

one_slice {ℓ} :
    {S : Type ℓ} (fn : S → S) (s : S) (slices : List (ℕ × ℕ))
    → All (λ r. r.0 < r.1) slices
    → counted (covered slices) 0 ≡ 1
    → run_slices (λ lo hi. fn) slices s ≡ fn s
unfolding run_slices covered run_steps
one_slice fn s [] h e = absurd (omega (arith, e))
one_slice fn s (r ∷ []) h e = refl
one_slice fn s ((a, b) ∷ (c, d) ∷ slices) (h, (k, _)) e = absurd (
    omega (
      arith,
      e,
      counted-covered a b ((c, d) ∷ slices) 0,
      counted-covered c d slices (0 + (b - a)),
      counted_le (covered slices) (0 + (b - a) + (d - c)),
    ))

sliced-for_range {ℓ} :
    {S : Type ℓ} (step : ℕ → S → S)
    → IsSet S
    → ((i j : ℕ) (t : S) → step i (step j t) ≡ step j (step i t))
    → (slices : List (ℕ × ℕ)) (count : ℕ) (s : S) → Perm (covered slices) (span 0 count)
    → run_slices (λ lo hi. for_range lo hi step) slices s ≡ for_range 0 count step s
unfolding for_range
sliced-for_range step is_set commute slices count s p =
    let e : count - 0 ≡ count = omega arith in
    sym (run_steps-covered step slices s)
    ∙ run_steps-Perm step is_set commute (covered slices) (span 0 count) s p
    ∙ run_steps-span step 0 count s
    ∙ ap (λ n. loop n (λ i. step (0 + i)) s) (sym e)

module _ (enki : Enki) where
  -- A loop whose steps commute has one result: ParallelFor gives what the plain loop from 0 to the
  -- count gives, before Init, while the threads run and after Shutdown, where the slices of the loop
  -- take effect one after the other, in any order.
  pub parallel_for-for_range {ℓ} :
      {S : Type ℓ} (js : JobScheduler enki) (count : ℕ) (step : ℕ → S → S) (s : S)
      → IsSet S
      → ((i j : ℕ) (t : S) → step i (step j t) ≡ step j (step i t))
      → parallel_for enki js count (λ lo hi. for_range lo hi step) s ≡ for_range 0 count step s
  unfolding parallel_for for_range loop
  parallel_for-for_range js count step s is_set commute = elim (Bool-cases (count == 0)) [
    | inl e ↦ let z : count ≡ 0 = ground (arith, e) in rw (z, parallel_for) refl
    | inr e ↦
        rw (e, parallel_for)
          (elim (Option-cases (active enki js)) [
            | inl n ↦ rw (n, parallel_for) refl
            | inr (t, h) ↦
                rw (h, parallel_for)
                  (sliced-for_range step is_set commute (enki.slices t count) count s
                    (enki.slices-Perm t count))
          ])
  ]

  -- Run calls its function exactly once, whether there are threads or not.
  pub run_job_lem {ℓ} :
      {S : Type ℓ} (js : JobScheduler enki) (tag : TaskTag) (fn : S → S) (s : S)
      → run_job enki js tag fn s ≡ fn s
  unfolding run_job
  run_job_lem js tag fn s = elim (Option-cases (active enki js)) [
    | inl e ↦ rw (e, run_job) refl
    | inr (t, e) ↦
        rw (e, run_job)
          (one_slice fn s (enki.slices t 1) (enki.slices-not_empty t 1)
            (counted-Perm _ _ (enki.slices-Perm t 1) ∙ counted-span 0 1 0))
  ]
