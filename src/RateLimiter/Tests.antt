-- ===== src/RateLimiter/Tests.antt =====
-- Requests of two users over ten minutes.
use crates_io.Prelude.{
  ℕ, ◌+◌, ◌*◌, ◌-◌, ◌/◌, ◌≤◌, ◌<◌, ◌≡◌, refl, some, List, [], ◌∷◌, err, is_ok, true, arith, pos,
}
use crates_io.Errors.{too_many_requests}
use crates_io.RateLimiter.{
  LimitedAction, publish_new, publish_update, yank_unyank, Bucket, RateLimiter, config_for_action,
  burst_for, upsert, take_token, check_rate_limit,
}
use crates_io.RateLimiter.Buckets.{find_bucket}
use crates_io.RateLimiter.Steps.{rate_of, burst_of}
use crates_io.RateLimiter.Requests.{Request, accepted}
use crates_io.RateLimiter.Limit.{accepted_le}
use crates_io.RateLimiter.Retry.{OfSeconds, retry-check_rate_limit}

run : Unit {0}
unfolding check_rate_limit take_token upsert burst_for config_for_action rate_of burst_of accepted
    find_bucket
run = tt

-- One crate a minute, at most two at once; user 9 may update five.
abbrev limiter : RateLimiter
limiter = record {
  config = (publish_new, record { rate = 60000000; burst = 2 }) ∷ [];
  overrides =
      record { user_id = 9; action = publish_update; burst = 5; expires_at = some 100000000 } ∷ [];
}

rate_positive : (a : LimitedAction) → 0 < rate_of limiter a
unfolding run
rate_positive publish_new = omega arith
rate_positive publish_update = omega arith
rate_positive yank_unyank = omega arith

whole_seconds : OfSeconds limiter
unfolding run
whole_seconds publish_new = (60, omega arith, refl)
whole_seconds publish_update = (60, omega arith, refl)
whole_seconds yank_unyank = (60, omega arith, refl)

abbrev request : ℕ → ℕ → Request
request u at_second = record { uploader = u; action = publish_new; at = at_second * 1000000 }

abbrev requests : List Request
requests = request 3 0 ∷ request 4 1 ∷ request 3 2 ∷ request 3 3 ∷ request 4 4 ∷ request 3 70 ∷ []

abbrev empty_bucket : Bucket
empty_bucket = record { user_id = 3; tokens = pos 0; last_refill = 0; action = publish_new }

served : accepted limiter 3 publish_new requests [] ≡ 3
unfolding run
served = refl

overridden :
    (burst_of limiter 9 publish_update 5 ≡ 5)
    × (burst_of limiter 9 publish_update 100000000 ≡ 30)
    × (rate_of limiter yank_unyank ≡ 60000000)
unfolding run
overridden = (refl, refl, refl)

burst_two : (t : ℕ) → burst_of limiter 3 publish_new t ≤ 2
unfolding run
burst_two t = omega arith

accepted_le_example :
    accepted limiter 3 publish_new requests [] ≤ 2 + (70000000 - 0) / rate_of limiter publish_new
accepted_le_example =
    accepted_le limiter rate_positive 3 publish_new 2 70000000 requests 0 [] burst_two
      (unfold find_bucket in refl) (omega arith)

refused :
    check_rate_limit limiter 3 publish_new 5 (empty_bucket ∷ [])
    ≡ (err (too_many_requests 0 60000000), empty_bucket ∷ [])
unfolding run
refused = refl

retry-check_rate_limit_example :
    is_ok (check_rate_limit limiter 3 publish_new 60000000 (empty_bucket ∷ [])).0 ≡ true
retry-check_rate_limit_example =
    retry-check_rate_limit limiter whole_seconds 3 publish_new 5 60000000 0 60000000
      (empty_bucket ∷ []) (empty_bucket ∷ []) refused (omega arith)
      (unfold burst_of config_for_action burst_for in omega arith)
