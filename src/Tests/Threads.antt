-- ===== src/Tests/Threads.antt =====
-- engine/jobs/JobScheduler: a scheduler that runs each member on its own, the last one first.
use voxhammer.Jobs.Serial.{parallel_for-for_range}
use voxhammer.Base.Ranges.{for_range}
use voxhammer.Jobs.{
  active, run_slices, new_scheduler, cache_hot, init_jobs, span, Enki, JobScheduler, covered,
  parallel_for, run_job,
}
use voxhammer.Base.{◌++◌, refl, zero, ◌-◌, arith, ◌∷◌, [], ◌+◌, ◌<◌, ◌≡◌, suc, All, List, ℕ}
use mathlib.Core.List.{Perm}
use mathlib.Core.List.Perm
use native.Mathlib.Nat.{ℕ_set}
use mathlib.Core.Path.{subst}
use mathlib.Core.List.{append-nil, perm_middle}

abbrev backward : ℕ → List (ℕ × ℕ)
backward zero = []
backward (suc n) = (n, suc n) ∷ backward n

covered-backward : (n : ℕ) → covered (backward (suc n)) ≡ n ∷ covered (backward n)
unfolding covered span
covered-backward n =
    let one : suc n - n ≡ 1 = omega arith in
    let same : n + 0 ≡ n = omega arith in rw (one, same) refl

backward-Perm : (t : ℕ) (count : ℕ) → Perm (covered (backward count)) (span 0 count)
unfolding covered span
backward-Perm t zero = Perm.rfl
backward-Perm t (suc n) =
    let same : 0 + n ≡ n = omega arith in
    rw (covered-backward n, same)
      (Perm.trans (Perm.cons n (backward-Perm t n)) (
        subst (λ l. Perm (n ∷ l) (span 0 n ++ n ∷ [])) (append-nil (span 0 n))
          (Perm.symm (perm_middle (span 0 n) []))))

backward-not_empty : (t : ℕ) (count : ℕ) → All (λ r. r.0 < r.1) (backward count)
backward-not_empty t zero = tt
backward-not_empty t (suc n) = (omega arith, backward-not_empty t n)

abbrev small_enki : Enki
small_enki = record {
  TaskScheduler = ℕ;
  initialize = λ n. n;
  slices = λ t count. backward count;
  slices-Perm = backward-Perm;
  slices-not_empty = backward-not_empty;
}

abbrev running_jobs : JobScheduler small_enki
running_jobs = init_jobs small_enki 0 (new_scheduler small_enki)

parallel_for-for_range_example :
    parallel_for small_enki running_jobs 3 (λ lo hi. for_range lo hi (λ i n. i + n)) 7
    ≡ for_range 0 3 (λ i n. i + n) 7
parallel_for-for_range_example =
    parallel_for-for_range small_enki running_jobs 3 (λ i n. i + n) 7 ℕ_set (λ i j n. omega arith)

run_once : run_job small_enki running_jobs cache_hot (λ n. suc n) 7 ≡ 8
unfolding run_job run_slices active init_jobs
run_once = refl
