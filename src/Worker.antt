-- ===== src/Worker.antt =====
-- crates/crates_io_worker/src: the queue of background jobs, a table of the database.
-- `enqueue` of background_job.rs, the queries of storage.rs, and `run_next_job` and `run` of worker.rs. What a
-- job does, other jobs that it enqueues included, is a parameter; a row that another transaction has locked is marked. Times are seconds.
-- Errors of the database are not modelled.
pub mod First
pub mod Next
pub mod Pending
pub mod Due
pub mod Shutdown
mod Tests
use crates_io.Prelude.{
  ℕ, zero, suc, ◌+◌, ◌*◌, ◌^◌, ◌<◌, Text, Option, none, some, List, [], ◌∷◌, ◌++◌, map, keep, any,
  Bool, true, false, not, ◌&&◌, ◌||◌, ◌==◌, ltb, if◌then◌else◌, text_eq, Result, ok, err, ℤ, pos,
  negsuc, String,
}

-- A row of `background_jobs`; the data is a text of JSON.
pub record BackgroundJob : Type 0 where
  pub id : ℕ
  pub job_type : Text
  pub data_ : Text
  pub priority : ℤ
  pub retries : ℕ
  pub last_retry : ℕ
  -- Another transaction holds the row.
  pub is_locked : Bool

-- The table, with the next value of its sequence of ids.
pub record Queue : Type 0 where
  pub background_jobs : List BackgroundJob
  pub next_id : ℕ

-- The constants of an implementation of the trait `BackgroundJob`, and the JSON of its value.
pub record JobValue : Type 0 where
  pub job_name : Text
  pub priority : ℤ
  pub deduplicated : Bool
  pub to_value : Result Text Text

abbrev pub lessℤ : ℤ → ℤ → Bool
lessℤ (pos a) (pos b) = ltb a b
lessℤ (pos a) (negsuc b) = false
lessℤ (negsuc a) (pos b) = true
lessℤ (negsuc a) (negsuc b) = ltb b a

abbrev pub eqℤ : ℤ → ℤ → Bool
eqℤ (pos a) (pos b) = a == b
eqℤ (pos a) (negsuc b) = false
eqℤ (negsuc a) (pos b) = false
eqℤ (negsuc a) (negsuc b) = a == b

abbrev pub is_similar : Text → Text → ℤ → BackgroundJob → Bool
is_similar job_type data_ priority job =
    text_eq job.job_type job_type && text_eq job.data_ data_ && eqℤ job.priority priority

-- The row that an insertion writes, with the table's defaults.
abbrev pub new_job : ℕ → Text → Text → ℤ → BackgroundJob
new_job id job_type data_ priority = record {
  id = id;
  job_type = job_type;
  data_ = data_;
  priority = priority;
  retries = 0;
  last_retry = 0;
  is_locked = false;
}

-- `enqueue_simple`
unfoldable pub enqueue_simple : Text → Text → ℤ → Queue → ℕ × Queue
enqueue_simple job_type data_ priority queue = (
  queue.next_id,
  record {
    background_jobs = new_job queue.next_id job_type data_ priority ∷ queue.background_jobs;
    next_id = suc queue.next_id;
  },
)

abbrev pub similar_jobs : Text → Text → ℤ → List BackgroundJob → Bool
similar_jobs job_type data_ priority jobs =
    any (λ job. not job.is_locked && is_similar job_type data_ priority job) jobs

abbrev pub some_id : ℕ × Queue → Option ℕ × Queue
some_id (id, queue) = (some id, queue)

-- `enqueue_deduplicated`
unfoldable pub enqueue_deduplicated : Text → Text → ℤ → Queue → Option ℕ × Queue
unfolding text_eq enqueue_simple
enqueue_deduplicated job_type data_ priority queue =
    if similar_jobs job_type data_ priority queue.background_jobs
    then (none, queue)
    else some_id (enqueue_simple job_type data_ priority queue)

abbrev pub enqueue_value : JobValue → Result Text Text → Queue → Result (Option ℕ) Text × Queue
enqueue_value job (err e) queue = (err e, queue)
enqueue_value job (ok data_) queue =
    let (id, queue') =
      if job.deduplicated
      then enqueue_deduplicated job.job_name data_ job.priority queue
      else some_id (enqueue_simple job.job_name data_ job.priority queue) in
    (ok id, queue')

-- `BackgroundJob::enqueue`
unfoldable pub enqueue : JobValue → Queue → Result (Option ℕ) Text × Queue
unfolding enqueue_deduplicated
enqueue job queue = enqueue_value job job.to_value queue

-- `retriable`: a minute, doubled with each retry, has passed since the last one.
unfoldable pub retriable : ℕ → BackgroundJob → Bool
retriable now job = ltb (job.last_retry + 60 * 2 ^ job.retries) now

abbrev pub is_ready : List Text → ℕ → BackgroundJob → Bool
is_ready job_types now job =
    any (text_eq job.job_type) job_types && retriable now job && not job.is_locked

-- The order of the query: the highest priority, then the lowest id.
abbrev pub is_before : BackgroundJob → BackgroundJob → Bool
is_before a b = lessℤ b.priority a.priority || eqℤ b.priority a.priority && ltb a.id b.id

abbrev pub first_of : BackgroundJob → Option BackgroundJob → BackgroundJob
first_of job none = job
first_of job (some best) = if is_before best job then best else job

-- `find_next_unlocked_job`
unfoldable pub find_next_unlocked_job : List Text → ℕ → List BackgroundJob → Option BackgroundJob
unfolding text_eq retriable
find_next_unlocked_job job_types now [] = none
find_next_unlocked_job job_types now (job ∷ jobs) =
    let rest = find_next_unlocked_job job_types now jobs in
    if is_ready job_types now job then some (first_of job rest) else rest

-- `failed_job_count`
unfoldable pub failed_job_count : List BackgroundJob → ℕ
failed_job_count [] = 0
failed_job_count (job ∷ jobs) =
    let rest = failed_job_count jobs in if ltb 0 job.retries then suc rest else rest

-- `delete_successful_job`
unfoldable pub delete_successful_job : ℕ → List BackgroundJob → List BackgroundJob
delete_successful_job job_id jobs = keep (λ job. not (job.id == job_id)) jobs

abbrev pub fail_job : ℕ → ℕ → BackgroundJob → BackgroundJob
fail_job job_id now job =
    if job.id == job_id then record job { retries = suc job.retries; last_retry = now } else job

-- `update_failed_job`
unfoldable pub update_failed_job : ℕ → ℕ → List BackgroundJob → List BackgroundJob
update_failed_job job_id now jobs = map (fail_job job_id now) jobs

-- The registry: the types it has, and what runs a job of a type, from its data and the table, since a job may enqueue
-- others: the result, where an error stands for a panic too, and the rows that the job inserts.
pub record JobRegistry : Type 0 where
  pub job_types : List Text
  pub run_task_fn :
      Text → Option (Text → List BackgroundJob → Result (Unit {0}) Text × List BackgroundJob)

abbrev pub task_result :
    Text
    → Option (Text → List BackgroundJob → Result (Unit {0}) Text × List BackgroundJob)
    → Text
    → List BackgroundJob
    → Result (Unit {0}) Text × List BackgroundJob
task_result job_type none data_ jobs = (err job_type, [])
task_result job_type (some run) data_ jobs = run data_ jobs

abbrev pub finish : Result (Unit {0}) Text → ℕ → ℕ → List BackgroundJob → List BackgroundJob
finish (ok _) job_id now jobs = delete_successful_job job_id jobs
finish (err e) job_id now jobs = update_failed_job job_id now jobs

abbrev pub run_found :
    JobRegistry → ℕ → Option BackgroundJob → List BackgroundJob → Option ℕ × List BackgroundJob
run_found registry now none jobs = (none, jobs)
run_found registry now (some job) jobs =
    let (result, inserted) =
      task_result job.job_type (registry.run_task_fn job.job_type) job.data_ jobs in
    (some job.id, finish result job.id now (inserted ++ jobs))

-- `Worker::run_next_job`
unfoldable pub run_next_job : JobRegistry → ℕ → List BackgroundJob → Option ℕ × List BackgroundJob
unfolding find_next_unlocked_job delete_successful_job update_failed_job
run_next_job registry now jobs =
    run_found registry now (find_next_unlocked_job registry.job_types now jobs) jobs

-- `Worker::run` with `shutdown_when_queue_empty`: the ids of the jobs that ran and the table, or
-- none where the fuel does not suffice. The clock gives the time of each turn.
abbrev pub cons_run :
    ℕ → Option (List ℕ × List BackgroundJob) → Option (List ℕ × List BackgroundJob)
cons_run id none = none
cons_run id (some (ids, jobs)) = some (id ∷ ids, jobs)

abbrev pub next_turn :
    Option ℕ × List BackgroundJob
    → (List BackgroundJob → Option (List ℕ × List BackgroundJob))
    → Option (List ℕ × List BackgroundJob)
next_turn (none, jobs) rest = some ([], jobs)
next_turn (some id, jobs) rest = cons_run id (rest jobs)

unfoldable pub run :
    JobRegistry → (ℕ → ℕ) → ℕ → ℕ → List BackgroundJob → Option (List ℕ × List BackgroundJob)
unfolding run_next_job
run registry clock zero turn jobs = none
run registry clock (suc fuel) turn jobs =
    next_turn (run_next_job registry (clock turn) jobs) (run registry clock fuel (suc turn))
