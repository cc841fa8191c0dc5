-- ===== src/RateLimiter/Retry.antt =====
-- The time that a refusal names.
use crates_io.Prelude.{
  ap, ℕ, ◌*◌, ◌+◌, ◌-◌, ◌≤◌, ◌<◌, ◌≡◌, refl, true, false, some, List, arith, ℤ, pos, negsuc,
  leb_iff, sym, ◌∙◌, is_ok, err,
}
use native.Mathlib.Nat.{le-div_iff_mul-le, div-mul-le_self}
use crates_io.Errors.{too_many_requests}
use crates_io.RateLimiter.{
  LimitedAction, Bucket, refill, RateLimiter, RateLimiterConfig, config_for_action, refill_rate,
  take_one, has_token, check_rate_limit,
}
use crates_io.RateLimiter.Buckets.{find_bucket, next_bucket, put_bucket, find_bucket-put_bucket}
use crates_io.RateLimiter.Steps.{
  rate_of, burst_of, check_rate_limit_lem, own_answer, next_bucket-some, refused_answer,
}

take_one-refused : (tokens : ℤ) → has_token tokens ≡ false → take_one tokens ≡ 0
take_one-refused (pos n) h = ground arith
take_one-refused (negsuc n) h = refl

-- A row with no token to take has one after a whole period.
refill-has_token :
    (burst rate later : ℕ) (b : Bucket)
    → has_token b.tokens ≡ false
    → 0 < rate
    → 0 < burst
    → b.last_refill + rate ≤ later
    → has_token (refill burst rate later b).tokens ≡ true
refill-has_token burst rate later b empty positive some_burst le =
    let past = (leb_iff b.last_refill later).1 (omega arith) in
    let none_left = take_one-refused b.tokens empty in
    let one_period =
      (le-div_iff_mul-le {k = rate} {x = 1} {y = later - b.last_refill} positive).1 (omega arith) in
    rw (past, none_left) (ground arith)

refill_rate_le : (config : RateLimiterConfig) → refill_rate config ≤ config.rate
refill_rate_le config = div-mul-le_self config.rate 1000

-- Every configured period is a positive whole number of seconds, as it is when it is read from the environment.
abbrev pub OfSeconds : RateLimiter → Type 0
OfSeconds limiter =
    (a : LimitedAction)
    → (seconds : ℕ) × (0 < seconds)
      × ((config_for_action limiter.config a).rate ≡ seconds * 1000000)

positive_rate :
    (limiter : RateLimiter) → OfSeconds limiter → (a : LimitedAction) → 0 < rate_of limiter a
unfolding rate_of
positive_rate limiter whole a = let (seconds, positive, e) = whole a in omega (arith, positive, e)

-- If every configured period is a positive whole number of seconds, a refused user who comes back
-- at the time that the refusal names, or later, and whose burst is positive then, is served.
pub retry-check_rate_limit :
    (limiter : RateLimiter)
    → OfSeconds limiter
    → (u : ℕ) (a : LimitedAction) (now later n retry : ℕ) (buckets after : List Bucket)
    → check_rate_limit limiter u a now buckets ≡ (err (too_many_requests n retry), after)
    → retry ≤ later
    → 0 < burst_of limiter u a later
    → is_ok (check_rate_limit limiter u a later after).0 ≡ true
unfolding rate_of
retry-check_rate_limit limiter whole u a now later n retry buckets after refused le burst =
    let positive = positive_rate limiter whole in
    let b =
      next_bucket (burst_of limiter u a now) (rate_of limiter a) now u a
        (find_bucket u a buckets) in
    let (empty, named, stored) =
      refused_answer limiter positive a buckets
        (put_bucket (burst_of limiter u a now) (rate_of limiter a) now u a buckets) after b n retry
        (sym (check_rate_limit_lem limiter positive u a now buckets) ∙ refused) in
    let row : find_bucket u a after ≡ some b =
      ap (find_bucket u a) (sym stored)
      ∙ find_bucket-put_bucket (burst_of limiter u a now) (rate_of limiter a) now u a buckets in
    (own_answer limiter positive u a later after).0
    ∙ ap (λ (c : Bucket). has_token c.tokens)
        (next_bucket-some limiter positive u a later after b row)
    ∙ refill-has_token (burst_of limiter u a later) (rate_of limiter a) later b empty (positive a)
        burst (omega (arith, refill_rate_le (config_for_action limiter.config a)))
