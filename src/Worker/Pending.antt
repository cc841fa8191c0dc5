-- ===== src/Worker/Pending.antt =====
-- The queue as the set of the work that is waiting.
use crates_io.Prelude.{
  ◌≡◌, ◌↔◌, ◌⊎◌, inl, inr, refl, sym, ◌∙◌, ap, Text, none, Bool, true, false, not, if◌then◌else◌,
  ◌&&◌, Any, here, there, any_iff, any-false, Distinct, keep, Any-keep, Any-imp, ℤ, pos, negsuc,
  ==_iff, &&_iff, text_eq, text_eq_iff,
}
use crates_io.Worker.{
  BackgroundJob, Queue, eqℤ, is_similar, new_job, enqueue_simple, similar_jobs,
  enqueue_deduplicated, some_id,
}

-- Work: a type of job, its data and its priority.
abbrev pub Work : Type 0
Work = Text × Text × ℤ

abbrev pub work_of : BackgroundJob → Work
work_of job = (job.job_type, job.data_, job.priority)

-- A job that no one has begun does the work.
abbrev pub Pending : Queue → Work → Type 0
Pending queue work =
    Any (λ job. (job.is_locked ≡ false) × (work_of job ≡ work)) queue.background_jobs

abbrev pub SameWork : BackgroundJob → BackgroundJob → Type 0
SameWork a b = work_of a ≡ work_of b

abbrev pub is_unlocked : BackgroundJob → Bool
is_unlocked job = not job.is_locked

-- No two jobs that wait do the same work.
abbrev pub OnceEach : Queue → Type 0
OnceEach queue = Distinct SameWork (keep is_unlocked queue.background_jobs)

eqℤ_iff : (a b : ℤ) → (eqℤ a b ≡ true) ↔ (a ≡ b)
eqℤ_iff (pos a) (pos b) = (λ h. ap pos ((==_iff a b).0 h), λ h. (==_iff a b).1 cc)
eqℤ_iff (pos a) (negsuc b) = (λ h. cc, λ h. cc)
eqℤ_iff (negsuc a) (pos b) = (λ h. cc, λ h. cc)
eqℤ_iff (negsuc a) (negsuc b) = (λ h. ap negsuc ((==_iff a b).0 h), λ h. (==_iff a b).1 cc)

not-true_iff : (b : Bool) → (not b ≡ true) ↔ (b ≡ false)
not-true_iff true = (λ h. cc, λ h. cc)
not-true_iff false = (λ h. refl, λ h. refl)

similar_iff :
    (t d : Text) (p : ℤ) (job : BackgroundJob)
    → ((not job.is_locked && is_similar t d p job) ≡ true)
      ↔ ((job.is_locked ≡ false) × (work_of job ≡ (t, d, p)))
similar_iff t d p job = (to, from)
  where
    to :
        (not job.is_locked && is_similar t d p job) ≡ true
        → (job.is_locked ≡ false) × (work_of job ≡ (t, d, p))
    to h =
        let (free, rest) = (&&_iff (not job.is_locked) (is_similar t d p job)).0 h in
        let (front, prio) =
          (&&_iff (text_eq job.job_type t && text_eq job.data_ d) (eqℤ job.priority p)).0 rest in
        let (typ, data_) = (&&_iff (text_eq job.job_type t) (text_eq job.data_ d)).0 front in
        let typ' = (text_eq_iff job.job_type t).0 typ in
        let data' = (text_eq_iff job.data_ d).0 data_ in
        let prio' = (eqℤ_iff job.priority p).0 prio in ((not-true_iff job.is_locked).0 free, cc)

    from :
        (job.is_locked ≡ false) × (work_of job ≡ (t, d, p))
        → (not job.is_locked && is_similar t d p job) ≡ true
    from (free, work) =
        rw
          (
            free,
            (text_eq_iff job.job_type t).1 (ap (λ w. w.0) work),
            (text_eq_iff job.data_ d).1 (ap (λ w. w.1) work),
            (eqℤ_iff job.priority p).1 (ap (λ w. w.2) work),
          )
          refl

-- If no work waits twice, then after a job is enqueued without duplicates, none waits twice either, and
-- the set of the waiting work has gained the work of that job and no other.
pub enqueue_deduplicated-Pending :
    (t d : Text) (p : ℤ) (queue : Queue)
    → OnceEach queue
    → OnceEach (enqueue_deduplicated t d p queue).1
      × ((work : Work)
          → Pending (enqueue_deduplicated t d p queue).1 work
            ↔ (Pending queue work ⊎ (work ≡ (t, d, p))))
unfolding enqueue_deduplicated enqueue_simple
enqueue_deduplicated-Pending t d p queue once =
    by_similar (similar_jobs t d p queue.background_jobs) refl
  where
    queued : Queue
    queued = (enqueue_simple t d p queue).1

    added : (work : Work) → Pending queued work ↔ (Pending queue work ⊎ (work ≡ (t, d, p)))
    added work = (
      λ a. elim a [ here h ↦ inr (sym h.1) | there h ↦ inl h ],
      λ s. elim s [ inl h ↦ there h | inr e ↦ here (refl, sym e) ],
    )

    fresh :
        similar_jobs t d p queue.background_jobs ≡ false
        → ¬ Any (SameWork (new_job queue.next_id t d p)) (keep is_unlocked queue.background_jobs)
    fresh e a =
        any-false (λ job. not job.is_locked && is_similar t d p job) queue.background_jobs
          (λ job h. (similar_iff t d p job).1 ((not-true_iff job.is_locked).0 h.0, sym h.1)) e
          ((Any-keep is_unlocked queue.background_jobs).0 a)

    by_similar :
        (b : Bool)
        → similar_jobs t d p queue.background_jobs ≡ b
        → OnceEach (if b then (none, queue) else some_id (enqueue_simple t d p queue)).1
          × ((work : Work)
              → Pending (if b then (none, queue) else some_id (enqueue_simple t d p queue)).1 work
                ↔ (Pending queue work ⊎ (work ≡ (t, d, p))))
    by_similar false e = ((fresh e, once), added)
    by_similar true e = (
      once,
      λ work. (
        inl,
        λ s. elim s [
          | inl h ↦ h
          | inr same ↦
              Any-imp
                (λ job h. let (free, does) = (similar_iff t d p job).0 h in (free, does ∙ sym same))
                ((any_iff (λ job. not job.is_locked && is_similar t d p job)
                    queue.background_jobs).0
                  e)
        ],
      ),
    )
