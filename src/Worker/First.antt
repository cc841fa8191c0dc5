-- ===== src/Worker/First.antt =====
-- The least of the jobs that pass the tests, in the order of the query.
use crates_io.Prelude.{
  ℕ, ◌≡◌, refl, Text, Option, none, some, List, [], ◌∷◌, Bool, true, false, if◌then◌else◌, ◌&&◌,
  ◌||◌, Any, All, here, there, All-imp, arith, ltb, ℤ, pos, negsuc,
}
use crates_io.Worker.{
  BackgroundJob, is_ready, is_before, first_of, find_next_unlocked_job, lessℤ, eqℤ,
}

-- A job of the table that may run now, before which no other such job comes.
abbrev pub IsFirst : List Text → ℕ → List BackgroundJob → BackgroundJob → Type 0
IsFirst job_types now jobs next =
    Any (λ job. (job ≡ next) × (is_ready job_types now job ≡ true)) jobs
    × All (λ job. (is_ready job_types now job && is_before job next) ≡ false) jobs

abbrev before : ℤ → ℕ → ℤ → ℕ → Bool
before p i q j = lessℤ q p || eqℤ q p && ltb i j

before-asym : (p q : ℤ) (i j : ℕ) → before p i q j ≡ true → before q j p i ≡ false
before-asym (pos a) (pos b) i j h = ground (arith, h)
before-asym (pos a) (negsuc b) i j h = ground (arith, h)
before-asym (negsuc a) (pos b) i j h = ground (arith, h)
before-asym (negsuc a) (negsuc b) i j h = ground (arith, h)

before-cotrans :
    (p q r : ℤ) (i j k : ℕ)
    → before p i q j ≡ false
    → before q j r k ≡ false
    → before p i r k ≡ false
before-cotrans (pos a) (pos b) (pos c) i j k h l = ground (arith, h, l)
before-cotrans (pos a) (pos b) (negsuc c) i j k h l = ground (arith, h, l)
before-cotrans (pos a) (negsuc b) (pos c) i j k h l = ground (arith, h, l)
before-cotrans (pos a) (negsuc b) (negsuc c) i j k h l = ground (arith, h, l)
before-cotrans (negsuc a) (pos b) (pos c) i j k h l = ground (arith, h, l)
before-cotrans (negsuc a) (pos b) (negsuc c) i j k h l = ground (arith, h, l)
before-cotrans (negsuc a) (negsuc b) (pos c) i j k h l = ground (arith, h, l)
before-cotrans (negsuc a) (negsuc b) (negsuc c) i j k h l = ground (arith, h, l)

before_irrefl : (p : ℤ) (i : ℕ) → before p i p i ≡ false
before_irrefl (pos a) i = ground arith
before_irrefl (negsuc a) i = ground arith

-- What the query returns: the next job, or none, where no job may run.
abbrev pub FirstIs : List Text → ℕ → List BackgroundJob → Option BackgroundJob → Type 0
FirstIs job_types now jobs none = All (λ job. is_ready job_types now job ≡ false) jobs
FirstIs job_types now jobs (some next) = IsFirst job_types now jobs next

&&-false : (b c : Bool) → c ≡ false → (b && c) ≡ false
&&-false true c e = e
&&-false false c e = refl

&&-later : (b x y : Bool) → (b && x) ≡ false → (x ≡ false → y ≡ false) → (b && y) ≡ false
&&-later true x y h f = f h
&&-later false x y h f = refl

module _ (job_types : List Text) (now : ℕ) (job : BackgroundJob) (jobs : List BackgroundJob) where
  behind :
      (xs : List BackgroundJob) (n : BackgroundJob)
      → is_before n job ≡ false
      → All (λ j. (is_ready job_types now j && is_before j n) ≡ false) xs
      → All (λ j. (is_ready job_types now j && is_before j job) ≡ false) xs
  behind xs n later =
      All-imp
        (λ j h.
          &&-later (is_ready job_types now j) (is_before j n) (is_before j job) h
            (λ k. before-cotrans j.priority n.priority job.priority j.id n.id job.id k later))
        xs

  choose :
      (c : Bool) (n : BackgroundJob)
      → is_ready job_types now job ≡ true
      → is_before n job ≡ c
      → IsFirst job_types now jobs n
      → IsFirst job_types now (job ∷ jobs) (if c then n else job)
  choose true n e f (found, first) = (
    there found,
    (&&-false _ (is_before job n) (before-asym n.priority job.priority n.id job.id f), first),
  )
  choose false n e f (found, first) = (
    here (refl, e),
    (&&-false _ (is_before job job) (before_irrefl job.priority job.id), behind jobs n f first),
  )

  step :
      (b : Bool) (rest : Option BackgroundJob)
      → is_ready job_types now job ≡ b
      → FirstIs job_types now jobs rest
      → FirstIs job_types now (job ∷ jobs) (if b then some (first_of job rest) else rest)
  step false none e h = (e, h)
  step false (some n) e (found, first) = (there found, (rw e refl, first))
  step true none e h = (
    here (refl, e),
    (
      &&-false _ (is_before job job) (before_irrefl job.priority job.id),
      All-imp (λ j k. rw k refl) jobs h,
    ),
  )
  step true (some n) e h = choose (is_before n job) n e refl h

pub find_next_unlocked_job-FirstIs :
    (job_types : List Text) (now : ℕ) (jobs : List BackgroundJob)
    → FirstIs job_types now jobs (find_next_unlocked_job job_types now jobs)
unfolding find_next_unlocked_job
find_next_unlocked_job-FirstIs job_types now [] = tt
find_next_unlocked_job-FirstIs job_types now (job ∷ jobs) =
    step job_types now job jobs (is_ready job_types now job)
      (find_next_unlocked_job job_types now jobs) refl
      (find_next_unlocked_job-FirstIs job_types now jobs)
