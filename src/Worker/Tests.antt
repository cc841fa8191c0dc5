-- ===== src/Worker/Tests.antt =====
-- Three jobs, one of which fails.
use crates_io.Prelude.{
  ℕ, ◌≡◌, ◌+◌, ◌↔◌, ◌⊎◌, refl, Text, Result, Bool-cases, inl, inr, codes, some, none, List, [], ◌∷◌,
  pos, ok, err, text_eq, if◌then◌else◌, arith,
}
use crates_io.Worker.{
  BackgroundJob, Queue, JobRegistry, new_job, enqueue_deduplicated, retriable,
  find_next_unlocked_job, delete_successful_job, update_failed_job, run_next_job, run,
}
use crates_io.Worker.Next.{NextIs, find_next_unlocked_job-NextIs}
use crates_io.Worker.Pending.{OnceEach, Work, Pending, enqueue_deduplicated-Pending}
use crates_io.Worker.Due.{IsBounded}
use crates_io.Worker.Shutdown.{Stops, run-Stops}

abbrev index : Text
index = codes "sync_to_git_index"

abbrev mail : Text
mail = codes "send_email"

abbrev jobs : List BackgroundJob
jobs =
    new_job 3 index (codes "foo") (pos 100)
    ∷ new_job 2 mail (codes "ann") (pos 100)
    ∷ new_job 1 mail (codes "bob") (pos 0)
    ∷ []

-- No mail can be sent.
-- A job of the index enqueues an e-mail, and an e-mail fails.
abbrev run_job : Text → Text → List BackgroundJob → Result (Unit {0}) Text × List BackgroundJob
run_job job_type data_ others =
    if text_eq job_type index then (ok tt, new_job 4 mail data_ (pos 0) ∷ []) else (err data_, [])

abbrev registry : JobRegistry
registry = record {
  job_types = index ∷ mail ∷ [];
  run_task_fn = λ job_type. some (run_job job_type);
}

abbrev rank : Text → Text → ℕ
rank job_type data_ = if text_eq job_type index then 2 else 1

runs :
    run registry (λ turn. 1000 + turn) 5 0 jobs
    ≡ some (
      2 ∷ 3 ∷ 1 ∷ 4 ∷ [],
      record (new_job 4 mail (codes "foo") (pos 0)) { retries = 1; last_retry = 1003 }
          ∷ record (new_job 2 mail (codes "ann") (pos 100)) { retries = 1; last_retry = 1000 }
          ∷ record (new_job 1 mail (codes "bob") (pos 0)) { retries = 1; last_retry = 1002 }
          ∷ [],
    )
unfolding run run_next_job find_next_unlocked_job delete_successful_job update_failed_job retriable
    text_eq
runs = refl

find_next_unlocked_job-NextIs_example :
    NextIs (index ∷ mail ∷ []) 1000 jobs (some (new_job 2 mail (codes "ann") (pos 100)))
unfolding find_next_unlocked_job retriable text_eq
find_next_unlocked_job-NextIs_example = find_next_unlocked_job-NextIs (index ∷ mail ∷ []) 1000 jobs

abbrev queue : Queue
queue = record { background_jobs = new_job 1 index (codes "foo") (pos 100) ∷ []; next_id = 2 }

no_duplicate : enqueue_deduplicated index (codes "foo") (pos 100) queue ≡ (none, queue)
unfolding enqueue_deduplicated text_eq
no_duplicate = refl

enqueue_deduplicated-Pending_example :
    OnceEach (enqueue_deduplicated index (codes "bar") (pos 100) queue).1
    × ((work : Work)
        → Pending (enqueue_deduplicated index (codes "bar") (pos 100) queue).1 work
          ↔ (Pending queue work ⊎ (work ≡ (index, codes "bar", pos 100))))
enqueue_deduplicated-Pending_example =
    enqueue_deduplicated-Pending index (codes "bar") (pos 100) queue (λ a. elim a [ ], tt)

bounded : IsBounded registry rank
unfolding text_eq
bounded job_type data_ others = elim (Bool-cases (text_eq job_type index)) [
  | inl e ↦ rw e (omega arith)
  | inr e ↦ rw e (omega arith)
]

run-Stops_example : Stops registry (λ turn. 1000) 5 0 jobs
unfolding text_eq
run-Stops_example =
    run-Stops registry rank bounded (λ turn. 1000) 1000 (λ i. (omega arith, omega arith)) jobs
