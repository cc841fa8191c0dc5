-- ===== src/Worker/Shutdown.antt =====
-- A worker that shuts down when the queue is empty does so.
use crates_io.Prelude.{
  ℕ, zero, suc, ◌++◌, ◌+◌, ◌<◌, ◌≤◌, ◌≡◌, refl, sym, ap, subst, Text, Option, none, some, List, [],
  ◌∷◌, Any-imp, length, arith,
}
use crates_io.Worker.{
  BackgroundJob, find_next_unlocked_job, JobRegistry, finish, run_next_job, task_result, run,
}
use crates_io.Worker.First.{find_next_unlocked_job-FirstIs, FirstIs}
use crates_io.Worker.Due.{
  cost, IsBounded, price, due, due_le, due-append, due-finish, Paid-append, ready-price,
}

-- The run ends with no job left that may run.
abbrev pub Stops : JobRegistry → (ℕ → ℕ) → ℕ → ℕ → List BackgroundJob → Type 0
Stops registry clock fuel turn jobs =
    (ids : List ℕ) × (left : List BackgroundJob) × (run registry clock fuel turn jobs
      ≡ some (ids, left))
    × (find_next_unlocked_job registry.job_types (clock (turn + length ids)) left ≡ none)

module _ (registry : JobRegistry) (rank : Text → Text → ℕ) (bounded : IsBounded registry rank)
    (clock : ℕ → ℕ) (start : ℕ)
    (times : (i : ℕ) → (start ≤ clock i) × (clock i < start + 120)) where
  stops :
      (fuel turn : ℕ) (jobs : List BackgroundJob)
      → due rank start jobs < fuel
      → Stops registry clock fuel turn jobs
  unfolding run run_next_job
  stops zero turn jobs h = absurd (omega (arith, h))
  stops (suc fuel) turn jobs h =
      by_next (find_next_unlocked_job registry.job_types (clock turn) jobs) refl
        (find_next_unlocked_job-FirstIs registry.job_types (clock turn) jobs)
        (λ later smaller. stops fuel (suc turn) later smaller)
    where
      by_next :
          (o : Option BackgroundJob)
          → find_next_unlocked_job registry.job_types (clock turn) jobs ≡ o
          → FirstIs registry.job_types
              (clock turn)
              jobs
              (find_next_unlocked_job registry.job_types (clock turn) jobs)
          → ((later : List BackgroundJob)
              → due rank start later < fuel
              → Stops registry clock fuel (suc turn) later)
          → Stops registry clock (suc fuel) turn jobs
      by_next none e next rest =
          let t : turn + 0 ≡ turn = omega arith in
          (
            [],
            jobs,
            rw e refl,
            subst (λ k. find_next_unlocked_job registry.job_types (clock k) jobs ≡ none) (sym t) e,
          )
      by_next (some job) e next rest =
          let answer =
            task_result job.job_type (registry.run_task_fn job.job_type) job.data_ jobs in
          let found : FirstIs registry.job_types (clock turn) jobs (some job) =
            subst (FirstIs registry.job_types (clock turn) jobs) e next in
          let n = rank job.job_type job.data_ in
          let a =
            Any-imp {Q = λ (j : BackgroundJob). (j.id ≡ job.id) × (n ≤ price rank start j)}
              (λ j k. (
                ap (λ x. x.id) k.0,
                subst (λ (x : BackgroundJob). rank x.job_type x.data_ ≤ price rank start j) k.0
                    (omega (
                      arith,
                      ready-price rank start registry.job_types (clock turn) j (times turn).1 k.1,
                    )),
              ))
              found.0 in
          let less =
            due-finish rank start answer.0 job.id n (clock turn) (answer.1 ++ jobs) (times turn).0
              (Paid-append rank start job.id n answer.1 jobs a) in
          let added = due-append rank start answer.1 jobs in
          let cheaper = bounded job.job_type job.data_ jobs in
          let (ids, left, ran, over) =
            rest (finish answer.0 job.id (clock turn) (answer.1 ++ jobs))
              (omega (arith, less, added, cheaper, h)) in
          let t : suc turn + length ids ≡ turn + suc (length ids) = omega arith in
          (
            job.id ∷ ids,
            left,
            rw e (rw ran refl),
            subst (λ k. find_next_unlocked_job registry.job_types (clock k) left ≡ none) t over,
          )

  -- The jobs that a job enqueues cost less than it does, by some measure of a job's type and data: a worker that shuts
  -- down when the queue is empty, and whose turns all fall into the two minutes from a start, stops within as many
  -- turns as the jobs cost together, and one, and leaves no job that may run then, whichever jobs fail.
  pub run-Stops : (jobs : List BackgroundJob) → Stops registry clock (suc (cost rank jobs)) 0 jobs
  run-Stops jobs = stops (suc (cost rank jobs)) 0 jobs (omega (arith, due_le rank start jobs))
