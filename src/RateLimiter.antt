-- ===== src/RateLimiter.antt =====
-- src/rate_limiter.rs: the token buckets of users, one for each limited action.
-- Times and durations are whole microseconds. The database subtracts times and divides by the period
-- as numbers of seconds in double precision. The quotient of natural numbers that stands for it here is the same for
-- periods of whole seconds, the only ones that src/config/server.rs configures, and times from 2004
-- to 2038, whose doubles are less than a quarter of a microsecond apart; the rounding of shorter periods, which only tests configure, is
-- not modelled.
pub mod Buckets
pub mod Steps
pub mod Requests
pub mod Limit
pub mod Retry
mod Tests
use crates_io.Prelude.{
  ℕ, zero, suc, ◌+◌, ◌-◌, ◌*◌, ◌/◌, Bool, true, false, ◌&&◌, Option, none, some, List, [], ◌∷◌,
  Result, ok, err, if◌then◌else◌, ltb, leb, ◌==◌, ℤ, pos, negsuc, min,
}
use crates_io.Errors.{AppError, AppResult, internal, too_many_requests}

pub data LimitedAction : Type 0 where
  publish_new publish_update yank_unyank : LimitedAction

-- The number of an action in the database.
abbrev pub action_number : LimitedAction → ℕ
action_number publish_new = 0
action_number publish_update = 1
action_number yank_unyank = 2

abbrev pub default_rate_seconds : LimitedAction → ℕ
default_rate_seconds publish_new = 10 * 60
default_rate_seconds publish_update = 60
default_rate_seconds yank_unyank = 60

abbrev pub default_burst : LimitedAction → ℕ
default_burst publish_new = 5
default_burst publish_update = 30
default_burst yank_unyank = 100

pub record RateLimiterConfig : Type 0 where
  pub rate : ℕ
  pub burst : ℕ

abbrev pub same_action : LimitedAction → LimitedAction → Bool
same_action a b = action_number a == action_number b

-- `RateLimiter::config_for_action`, on the configured actions.
unfoldable pub config_for_action :
    List (LimitedAction × RateLimiterConfig) → LimitedAction → RateLimiterConfig
config_for_action [] action = record {
  rate = default_rate_seconds action * 1000000;
  burst = default_burst action;
}
config_for_action ((a, config) ∷ configs) action =
    if same_action a action then config else config_for_action configs action

-- A row of `publish_limit_buckets`.
pub record Bucket : Type 0 where
  pub user_id : ℕ
  pub tokens : ℤ
  pub last_refill : ℕ
  pub action : LimitedAction

-- A row of `publish_rate_overrides`.
pub record RateOverride : Type 0 where
  pub user_id : ℕ
  pub action : LimitedAction
  pub burst : ℕ
  pub expires_at : Option ℕ

abbrev pub is_active : ℕ → Option ℕ → Bool
is_active now none = true
is_active now (some t) = ltb now t

-- The burst of the user's override, or the configured one.
unfoldable pub burst_for : List RateOverride → ℕ → LimitedAction → ℕ → ℕ → ℕ
burst_for [] uploader action now burst = burst
burst_for (o ∷ overrides) uploader action now burst =
    if o.user_id == uploader && same_action o.action action && is_active now o.expires_at
    then o.burst
    else burst_for overrides uploader action now burst

-- `config.rate.as_millis()`, as an interval.
abbrev pub refill_rate : RateLimiterConfig → ℕ
refill_rate config = config.rate / 1000 * 1000

-- `greatest(0, tokens - 1)`
abbrev pub take_one : ℤ → ℕ
take_one (pos n) = n - 1
take_one (negsuc n) = 0

-- `least(burst, a - b)`
abbrev pub least_minus : ℕ → ℕ → ℕ → ℤ
least_minus burst a b = if leb b a then pos (min burst (a - b)) else negsuc (b - a - 1)

-- The update of a row: `floor((now - last_refill) / rate)` tokens are added, a negative number if
-- the clock has gone back. The quotient is exact for periods of whole seconds.
abbrev pub refill : ℕ → ℕ → ℕ → Bucket → Bucket
refill burst rate now b =
    if leb b.last_refill now
    then record b {
      tokens = pos (min burst (take_one b.tokens + (now - b.last_refill) / rate));
      last_refill = b.last_refill + rate * ((now - b.last_refill) / rate);
    }
    else record b {
      tokens = least_minus burst (take_one b.tokens) ((b.last_refill - now + rate - 1) / rate);
      last_refill = b.last_refill - rate * ((b.last_refill - now + rate - 1) / rate);
    }

abbrev pub is_bucket : ℕ → LimitedAction → Bucket → Bool
is_bucket uploader action b = b.user_id == uploader && same_action b.action action

-- The insert, which updates the row that is there. `none` is the database's division by zero.
unfoldable pub upsert : ℕ → ℕ → ℕ → ℕ → LimitedAction → List Bucket → Option (Bucket × List Bucket)
upsert burst rate now uploader action [] =
    let b : Bucket = record {
      user_id = uploader;
      tokens = pos burst;
      last_refill = now;
      action = action;
    } in
    some (b, b ∷ [])
upsert burst rate now uploader action (b ∷ buckets) =
    let rest = upsert burst rate now uploader action buckets in
    if is_bucket uploader action b
    then (if rate == 0
        then none
        else some (refill burst rate now b, refill burst rate now b ∷ buckets))
    else elim rest [ none ↦ none | some (b', buckets') ↦ some (b', b ∷ buckets') ]

pub record RateLimiter : Type 0 where
  pub config : List (LimitedAction × RateLimiterConfig)
  pub overrides : List RateOverride

-- `RateLimiter::take_token`
unfoldable pub take_token :
    RateLimiter → ℕ → LimitedAction → ℕ → List Bucket → Option (Bucket × List Bucket)
unfolding upsert
take_token limiter uploader action now buckets =
    let config = config_for_action limiter.config action in
    upsert (burst_for limiter.overrides uploader action now config.burst) (refill_rate config) now
      uploader action buckets

abbrev pub has_token : ℤ → Bool
has_token (pos n) = leb 1 n
has_token (negsuc n) = false

abbrev answer :
    RateLimiter
    → LimitedAction
    → List Bucket
    → Option (Bucket × List Bucket)
    → AppResult (Unit {0}) × List Bucket
answer limiter action buckets none = (err (internal "division by zero" []), buckets)
answer limiter action buckets (some (bucket, buckets')) = (
  if has_token bucket.tokens
      then ok tt
      else err (
          too_many_requests (action_number action)
            (bucket.last_refill + (config_for_action limiter.config action).rate)),
  buckets',
)

-- `RateLimiter::check_rate_limit`
unfoldable pub check_rate_limit :
    RateLimiter → ℕ → LimitedAction → ℕ → List Bucket → AppResult (Unit {0}) × List Bucket
check_rate_limit limiter uploader action now buckets =
    answer limiter action buckets (take_token limiter uploader action now buckets)
