-- ===== src/Worker/Due.antt =====
-- What the jobs of a queue cost that may run within two minutes, and what a turn takes off it.
use crates_io.Prelude.{
  ℕ, zero, suc, ◌++◌, ◌+◌, ◌*◌, ◌^◌, ◌<◌, ◌≤◌, ◌≡◌, refl, ap, Text, List, [], ◌∷◌, Bool, true,
  false, not, if◌then◌else◌, Any, here, there, keep, keep-true, keep-false, Bool-cases, inl, inr,
  arith, ltb, ◌==◌, ==_iff, Result, ok, err,
}
use crates_io.Worker.{
  BackgroundJob, retriable, is_ready, delete_successful_job, fail_job, update_failed_job,
  JobRegistry, finish, task_result,
}

-- The job's waiting time is over before the two minutes are.
abbrev is_due : ℕ → BackgroundJob → Bool
is_due start job = ltb (job.last_retry + 60 * 2 ^ job.retries) (start + 120)

-- What a job may cost, by its type and its data: turns for itself and for the jobs that it enqueues.
abbrev pub cost : (Text → Text → ℕ) → List BackgroundJob → ℕ
cost rank [] = 0
cost rank (job ∷ jobs) = rank job.job_type job.data_ + cost rank jobs

-- The jobs that a job inserts cost less than the job.
abbrev pub IsBounded : JobRegistry → (Text → Text → ℕ) → Type 0
IsBounded registry rank =
    (job_type data_ : Text) (jobs : List BackgroundJob)
    → cost rank (task_result job_type (registry.run_task_fn job_type) data_ jobs).1
      < rank job_type data_

abbrev paid_if : Bool → ℕ → ℕ
paid_if true n = n
paid_if false n = 0

power-pos : (n : ℕ) → 1 ≤ 2 ^ n
power-pos zero = omega arith
power-pos (suc n) = omega (arith, power-pos n)

module _ (rank : Text → Text → ℕ) (start : ℕ) where
  pub price : BackgroundJob → ℕ
  price job = paid_if (is_due start job) (rank job.job_type job.data_)

  pub due : List BackgroundJob → ℕ
  due [] = 0
  due (job ∷ jobs) = price job + due jobs

  price_le : (job : BackgroundJob) → price job ≤ rank job.job_type job.data_
  unfolding price
  price_le job = paid (is_due start job)
    where
      paid : (b : Bool) → paid_if b (rank job.job_type job.data_) ≤ rank job.job_type job.data_
      paid true = omega arith
      paid false = omega arith

  pub due_le : (jobs : List BackgroundJob) → due jobs ≤ cost rank jobs
  unfolding due
  due_le [] = omega arith
  due_le (job ∷ jobs) = omega (arith, price_le job, due_le jobs)

  pub due-append :
      (inserted jobs : List BackgroundJob) → due (inserted ++ jobs) ≤ cost rank inserted + due jobs
  unfolding due
  due-append [] jobs = omega arith
  due-append (job ∷ inserted) jobs = omega (arith, price_le job, due-append inserted jobs)

  due-keep : (p : BackgroundJob → Bool) (jobs : List BackgroundJob) → due (keep p jobs) ≤ due jobs
  unfolding due
  due-keep p [] = omega arith
  due-keep p (job ∷ jobs) = elim (Bool-cases (p job)) [
    | inl e ↦ rw (keep-true p job jobs e) (omega (arith, due-keep p jobs))
    | inr e ↦ rw (keep-false p job jobs e) (omega (arith, due-keep p jobs))
  ]

  -- A row with the id whose price is at least the given one.
  abbrev Paid : ℕ → ℕ → List BackgroundJob → Type 0
  Paid id n = Any (λ job. (job.id ≡ id) × (n ≤ price job))

  due-delete :
      (id n : ℕ) (jobs : List BackgroundJob)
      → Paid id n jobs
      → due (delete_successful_job id jobs) + n ≤ due jobs
  unfolding delete_successful_job due
  due-delete id n [] a = elim a [ ]
  due-delete id n (job ∷ jobs) (here (e, d)) =
      rw (keep-false (λ x. not (x.id == id)) job jobs (ap not ((==_iff job.id id).1 e)))
        (omega (arith, d, due-keep (λ x. not (x.id == id)) jobs))
  due-delete id n (job ∷ jobs) (there a) = elim (Bool-cases (not (job.id == id))) [
    | inl e ↦
        rw (keep-true (λ x. not (x.id == id)) job jobs e) (omega (arith, due-delete id n jobs a))
    | inr e ↦
        rw (keep-false (λ x. not (x.id == id)) job jobs e) (omega (arith, due-delete id n jobs a))
  ]

  -- A job that fails waits for two minutes at least.
  not_due :
      (now : ℕ) (job : BackgroundJob)
      → start ≤ now
      → is_due start (record job { retries = suc job.retries; last_retry = now }) ≡ false
  not_due now job h = ground (arith, power-pos job.retries, h)

  failed_if :
      (b : Bool) (now : ℕ) (job : BackgroundJob)
      → start ≤ now
      → price (if b then record job { retries = suc job.retries; last_retry = now } else job)
        ≤ price job
  unfolding price
  failed_if true now job h = rw (not_due now job h) (omega arith)
  failed_if false now job h = omega arith

  due-fail :
      (id now : ℕ) (jobs : List BackgroundJob)
      → start ≤ now
      → due (update_failed_job id now jobs) ≤ due jobs
  unfolding update_failed_job due
  due-fail id now [] h = omega arith
  due-fail id now (job ∷ jobs) h =
      omega (arith, failed_if (job.id == id) now job h, due-fail id now jobs h)

  due-failed :
      (id n now : ℕ) (jobs : List BackgroundJob)
      → start ≤ now
      → Paid id n jobs
      → due (update_failed_job id now jobs) + n ≤ due jobs
  unfolding update_failed_job due
  due-failed id n now [] h a = elim a [ ]
  due-failed id n now (job ∷ jobs) h (here (e, d)) =
      let free : price (fail_job id now job) ≡ 0 =
        unfold price in rw ((==_iff job.id id).1 e, not_due now job h) refl in
      omega (arith, free, d, due-fail id now jobs h)
  due-failed id n now (job ∷ jobs) h (there a) =
      omega (arith, failed_if (job.id == id) now job h, due-failed id n now jobs h a)

  pub due-finish :
      (r : Result (Unit {0}) Text) (id n now : ℕ) (jobs : List BackgroundJob)
      → start ≤ now
      → Paid id n jobs
      → due (finish r id now jobs) + n ≤ due jobs
  due-finish (ok _) id n now jobs h a = due-delete id n jobs a
  due-finish (err e) id n now jobs h a = due-failed id n now jobs h a

  pub Paid-append :
      (id n : ℕ) (inserted jobs : List BackgroundJob)
      → Paid id n jobs
      → Paid id n (inserted ++ jobs)
  Paid-append id n [] jobs a = a
  Paid-append id n (job ∷ inserted) jobs a = there (Paid-append id n inserted jobs a)

  ready-due :
      (job_types : List Text) (now : ℕ) (job : BackgroundJob)
      → now < start + 120
      → is_ready job_types now job ≡ true
      → is_due start job ≡ true
  unfolding retriable
  ready-due job_types now job h e = ground (arith, h, e)

  pub ready-price :
      (job_types : List Text) (now : ℕ) (job : BackgroundJob)
      → now < start + 120
      → is_ready job_types now job ≡ true
      → price job ≡ rank job.job_type job.data_
  unfolding price
  ready-price job_types now job h e = rw (ready-due job_types now job h e) refl
