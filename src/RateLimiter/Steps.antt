-- ===== src/RateLimiter/Steps.antt =====
-- One request under the rate limiter: its answer, and the row that it leaves.
use crates_io.Prelude.{
  ap, ℕ, ◌+◌, ◌<◌, ◌≡◌, refl, inl, inr, false, some, List, arith, Bool-cases, ◌∙◌, is_ok, err,
}
use crates_io.Errors.{too_many_requests}
use crates_io.RateLimiter.{
  LimitedAction, Bucket, refill, RateLimiter, config_for_action, burst_for, refill_rate, take_token,
  has_token, answer, check_rate_limit,
}
use crates_io.RateLimiter.Buckets.{
  find_bucket, next_bucket, put_bucket, upsert-find_bucket, find_bucket-put_bucket,
}

-- The refill period of an action, and the burst of a user.
unfoldable pub rate_of : RateLimiter → LimitedAction → ℕ
rate_of limiter a = refill_rate (config_for_action limiter.config a)

unfoldable pub burst_of : RateLimiter → ℕ → LimitedAction → ℕ → ℕ
burst_of limiter u a t =
    burst_for limiter.overrides u a t (config_for_action limiter.config a).burst

module _ (limiter : RateLimiter) (positive : (a : LimitedAction) → 0 < rate_of limiter a) where
  -- The answer is that of the row that is stored.
  pub check_rate_limit_lem :
      (u : ℕ) (a : LimitedAction) (now : ℕ) (buckets : List Bucket)
      → check_rate_limit limiter u a now buckets
        ≡ answer limiter a buckets (
            some (
              next_bucket
                  (burst_of limiter u a now)
                  (rate_of limiter a)
                  now
                  u
                  a
                  (find_bucket u a buckets),
              put_bucket (burst_of limiter u a now) (rate_of limiter a) now u a buckets,
            ))
  unfolding check_rate_limit take_token rate_of burst_of
  check_rate_limit_lem u a now buckets =
      rw
        (upsert-find_bucket (burst_of limiter u a now) (rate_of limiter a) now u a buckets
          (positive a))
        refl

  is_ok-answer :
      (a : LimitedAction) (buckets buckets' : List Bucket) (b : Bucket)
      → is_ok (answer limiter a buckets (some (b, buckets'))).0 ≡ has_token b.tokens
  is_ok-answer a buckets buckets' b = elim (Bool-cases (has_token b.tokens)) [
    | inl e ↦ rw e refl
    | inr e ↦ rw e refl
  ]

  -- A request is accepted if its row keeps a token, and the row is found afterwards.
  pub own_answer :
      (u : ℕ) (a : LimitedAction) (now : ℕ) (buckets : List Bucket)
      → (is_ok (check_rate_limit limiter u a now buckets).0
          ≡ has_token
              (next_bucket
                (burst_of limiter u a now)
                (rate_of limiter a)
                now
                u
                a
                (find_bucket u a buckets)).tokens)
        × (find_bucket u a (check_rate_limit limiter u a now buckets).1
            ≡ some (
                next_bucket
                  (burst_of limiter u a now)
                  (rate_of limiter a)
                  now
                  u
                  a
                  (find_bucket u a buckets)))
  own_answer u a now buckets =
      let b =
        next_bucket (burst_of limiter u a now) (rate_of limiter a) now u a
          (find_bucket u a buckets) in
      let e = check_rate_limit_lem u a now buckets in
      (
        ap (λ r. is_ok r.0) e
            ∙ is_ok-answer a buckets
                (put_bucket (burst_of limiter u a now) (rate_of limiter a) now u a buckets) b,
        ap (λ r. find_bucket u a r.1) e
            ∙ find_bucket-put_bucket (burst_of limiter u a now) (rate_of limiter a) now u a buckets,
      )

  pub next_bucket-some :
      (u : ℕ) (a : LimitedAction) (now : ℕ) (buckets : List Bucket) (b : Bucket)
      → find_bucket u a buckets ≡ some b
      → next_bucket (burst_of limiter u a now) (rate_of limiter a) now u a (find_bucket u a buckets)
        ≡ refill (burst_of limiter u a now) (rate_of limiter a) now b
  unfolding next_bucket
  next_bucket-some u a now buckets b row =
      ap (next_bucket (burst_of limiter u a now) (rate_of limiter a) now u a) row

  -- A refusal names the time of the row's last refill and one period more.
  pub refused_answer :
      (a : LimitedAction) (buckets buckets' after : List Bucket) (b : Bucket) (n retry : ℕ)
      → answer limiter a buckets (some (b, buckets')) ≡ (err (too_many_requests n retry), after)
      → (has_token b.tokens ≡ false)
        × (b.last_refill + (config_for_action limiter.config a).rate ≡ retry)
        × (buckets' ≡ after)
  refused_answer a buckets buckets' after b n retry h = ground arith
