-- ===== src/Jobs.antt =====
-- engine/jobs/JobScheduler: loops and single tasks on the threads of enkiTS. enkiTS is a parameter:
-- how it cuts a task set into slices, in an order in which they take effect. Slices that run at the
-- same time and race are not modelled.
use mathlib.Core.List.{Perm}
pub mod Order
pub mod Serial
use voxhammer.Base.{
  ◌<◌, All, zero, ◌+◌, ◌++◌, ◌==◌, suc, Bool, [], if◌then◌else◌, true, ◌-◌, ◌∷◌, List, Option,
  false, ℕ, some, none,
}

-- The numbers from one on, as many as the second argument says.
unfoldable pub span : ℕ → ℕ → List ℕ
span lo zero = []
span lo (suc n) = span lo n ++ (lo + n) ∷ []

-- What the slices cover.
unfoldable pub covered : List (ℕ × ℕ) → List ℕ
unfolding span
covered [] = []
covered ((lo, hi) ∷ slices) = span lo (hi - lo) ++ covered slices

-- `enki::TaskScheduler`: a task set is executed as slices that are not empty and that cover each of
-- its members once.
pub record Enki : Type 1 where
  pub TaskScheduler : Type 0
  pub initialize : ℕ → TaskScheduler
  pub slices : TaskScheduler → ℕ → List (ℕ × ℕ)
  pub slices-Perm : (t : TaskScheduler) (count : ℕ) → Perm (covered (slices t count)) (span 0 count)
  pub slices-not_empty : (t : TaskScheduler) (count : ℕ) → All (λ r. r.0 < r.1) (slices t count)

pub data TaskTag : Type 0 where
  default_tag : TaskTag
  cache_hot : TaskTag
  io_bound : TaskTag
  audio_rt : TaskTag

-- `WaitforTask` for a task set with this body: the slices, one after the other.
unfoldable pub run_slices {ℓ} : {S : Type ℓ} → (ℕ → ℕ → S → S) → List (ℕ × ℕ) → S → S
run_slices body [] s = s
run_slices body ((lo, hi) ∷ slices) s = run_slices body slices (body lo hi s)

module _ (enki : Enki) where
  open enki use {TaskScheduler}

  pub record JobScheduler : Type 0 where
    scheduler : Option TaskScheduler
    running : Bool

  abbrev pub new_scheduler : JobScheduler
  new_scheduler = record { scheduler = none; running = false }

  -- `Init`
  unfoldable pub init_jobs : ℕ → JobScheduler → JobScheduler
  init_jobs worker_threads js = record {
    scheduler = some (enki.initialize worker_threads);
    running = true;
  }

  -- `Shutdown`
  pub shutdown_jobs : JobScheduler → JobScheduler
  shutdown_jobs js = record { scheduler = none; running = false }

  -- The scheduler, when it runs.
  unfoldable pub active : JobScheduler → Option TaskScheduler
  active js = if js.running then js.scheduler else none

  -- `ParallelFor`
  unfoldable pub parallel_for {ℓ} : {S : Type ℓ} → JobScheduler → ℕ → (ℕ → ℕ → S → S) → S → S
  unfolding run_slices active
  parallel_for js count body s = if count == 0 then s else elim (active js) [
    | none ↦ body 0 count s
    | some t ↦ run_slices body (enki.slices t count) s
  ]

  -- `Run`: a task set of one member that calls the function for every slice.
  unfoldable pub run_job {ℓ} : {S : Type ℓ} → JobScheduler → TaskTag → (S → S) → S → S
  unfolding run_slices active
  run_job js tag fn s = elim (active js) [
    | none ↦ fn s
    | some t ↦ run_slices (λ lo hi. fn) (enki.slices t 1) s
  ]
