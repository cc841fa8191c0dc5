-- ===== src/Worker/Next.antt =====
-- Which job runs next.
use crates_io.Prelude.{
  ℕ, ◌+◌, ◌*◌, ◌^◌, ◌<◌, ◌≡◌, refl, ◌⊎◌, inl, inr, ◌↔◌, Text, Option, none, some, List, true, false,
  not, ◌&&◌, &&_iff, Any, All, All-imp, Any-imp, any_iff, any, text_eq, text_eq_iff, arith, ltb_iff,
  ℤ, pos, negsuc, ==_iff,
}
use crates_io.Worker.{
  BackgroundJob, is_ready, is_before, find_next_unlocked_job, lessℤ, eqℤ, retriable,
}
use crates_io.Worker.First.{FirstIs, find_next_unlocked_job-FirstIs}

-- A job of a known type that no one has locked, and a minute, doubled with each retry, after its last retry.
pub record MayRun (job_types : List Text) (now : ℕ) (job : BackgroundJob) : Type 0 where
  pub known : Any (λ t. job.job_type ≡ t) job_types
  pub waited : job.last_retry + 60 * 2 ^ job.retries < now
  pub unlocked : job.is_locked ≡ false

abbrev pub Below : ℤ → ℤ → Type 0
Below (pos a) (pos b) = a < b
Below (pos a) (negsuc b) = ⊥
Below (negsuc a) (pos b) = Unit
Below (negsuc a) (negsuc b) = b < a

-- A higher priority, or the same one and a lower id.
abbrev pub Precedes : BackgroundJob → BackgroundJob → Type 0
Precedes a b = Below b.priority a.priority ⊎ ((a.priority ≡ b.priority) × (a.id < b.id))

-- What the query returns: a job of the table that may run and that no other such job precedes; or none, where no job may.
abbrev pub NextIs : List Text → ℕ → List BackgroundJob → Option BackgroundJob → Type 0
NextIs job_types now jobs none = All (λ job. ¬ MayRun job_types now job) jobs
NextIs job_types now jobs (some next) =
    Any (λ job. (job ≡ next) × MayRun job_types now job) jobs
    × All (λ job. MayRun job_types now job → ¬ Precedes job next) jobs

is_ready_iff :
    (job_types : List Text) (now : ℕ) (job : BackgroundJob)
    → (is_ready job_types now job ≡ true) ↔ MayRun job_types now job
unfolding retriable
is_ready_iff job_types now job = (to, from)
  where
    to : is_ready job_types now job ≡ true → MayRun job_types now job
    to h =
        let (front, free) =
          (&&_iff (any (text_eq job.job_type) job_types && retriable now job) (not job.is_locked)).0
            h in
        let (known, waited) =
          (&&_iff (any (text_eq job.job_type) job_types) (retriable now job)).0 front in
        record {
          known =
              Any-imp (λ t e. (text_eq_iff job.job_type t).0 e)
                ((any_iff (text_eq job.job_type) job_types).0 known);
          waited = (ltb_iff (job.last_retry + 60 * 2 ^ job.retries) now).0 waited;
          unlocked = ground (arith, free);
        }

    from : MayRun job_types now job → is_ready job_types now job ≡ true
    from m =
        (&&_iff (any (text_eq job.job_type) job_types && retriable now job) (not job.is_locked)).1 (
          (&&_iff (any (text_eq job.job_type) job_types) (retriable now job)).1 (
            (any_iff (text_eq job.job_type) job_types).1
                (Any-imp (λ t e. (text_eq_iff job.job_type t).1 e) m.known),
            (ltb_iff (job.last_retry + 60 * 2 ^ job.retries) now).1 m.waited,
          ),
          rw m.unlocked refl,
        )

lessℤ_complete : (a b : ℤ) → Below a b → lessℤ a b ≡ true
lessℤ_complete (pos a) (pos b) h = (ltb_iff a b).1 h
lessℤ_complete (pos a) (negsuc b) h = absurd h
lessℤ_complete (negsuc a) (pos b) h = refl
lessℤ_complete (negsuc a) (negsuc b) h = (ltb_iff b a).1 h

eqℤ_refl : (a : ℤ) → eqℤ a a ≡ true
eqℤ_refl (pos a) = (==_iff a a).1 refl
eqℤ_refl (negsuc a) = (==_iff a a).1 refl

is_before_complete : (a b : BackgroundJob) → Precedes a b → is_before a b ≡ true
is_before_complete a b (inl h) = rw (lessℤ_complete b.priority a.priority h) refl
is_before_complete a b (inr (same, lower)) =
    let e : eqℤ b.priority a.priority ≡ true = rw same (eqℤ_refl b.priority) in
    let l = (ltb_iff a.id b.id).1 lower in rw (e, l) (ground arith)

from_first :
    (job_types : List Text) (now : ℕ) (jobs : List BackgroundJob) (o : Option BackgroundJob)
    → FirstIs job_types now jobs o
    → NextIs job_types now jobs o
from_first job_types now jobs none h =
    All-imp (λ j e m. ground (arith, e, (is_ready_iff job_types now j).1 m)) jobs h
from_first job_types now jobs (some n) (found, first) = (
  Any-imp (λ j p. (p.0, (is_ready_iff job_types now j).0 p.1)) found,
  All-imp
      (λ j e m p. ground (arith, e, (is_ready_iff job_types now j).1 m, is_before_complete j n p))
      jobs first,
)

-- Among the jobs of known types whose waiting time has passed and that no one has locked, the one that
-- is run next has the highest priority and, among those, the lowest id; none is run only where
-- there is no such job.
pub find_next_unlocked_job-NextIs :
    (job_types : List Text) (now : ℕ) (jobs : List BackgroundJob)
    → NextIs job_types now jobs (find_next_unlocked_job job_types now jobs)
find_next_unlocked_job-NextIs job_types now jobs =
    from_first job_types now jobs (find_next_unlocked_job job_types now jobs)
      (find_next_unlocked_job-FirstIs job_types now jobs)
