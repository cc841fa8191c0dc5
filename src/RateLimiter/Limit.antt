-- ===== src/RateLimiter/Limit.antt =====
-- How many requests of a user the rate limiter accepts over time, whatever other users do
-- meanwhile, and when a refused user is served again.
use crates_io.Prelude.{
  ap, ℕ, ◌+◌, ◌-◌, ◌/◌, ◌≤◌, ◌<◌, ◌≡◌, refl, inl, inr, true, false, none, some, List, [], ◌∷◌, ◌==◌,
  if◌then◌else◌, arith, Bool-cases, pos, leb, min, ◌∙◌, is_ok, &&_iff, ==_iff,
}
use crates_io.RateLimiter.{
  LimitedAction, Bucket, same_action, refill, RateLimiter, has_token, check_rate_limit,
}
use crates_io.RateLimiter.Steps.{
  rate_of, burst_of, check_rate_limit_lem, own_answer, next_bucket-some,
}
use crates_io.RateLimiter.Buckets.{find_bucket, next_bucket, find_bucket-put_bucket_other}
use crates_io.RateLimiter.Requests.{
  Request, Ascending, is_of, accepted, same_action_sound, periods_mono, spend, first_request,
  refill-past, Ascending-le,
}

module _ (limiter : RateLimiter) (positive : (a : LimitedAction) → 0 < rate_of limiter a) where
  is_of_sound :
      (u : ℕ) (a : LimitedAction) (r : Request)
      → is_of u a r ≡ true
      → (r.uploader ≡ u) × (r.action ≡ a)
  is_of_sound u a r h =
      let (same, act) = (&&_iff (r.uploader == u) (same_action r.action a)).0 h in
      ((==_iff r.uploader u).0 same, same_action_sound r.action a act)

  -- A request of another user, or for another action, leaves the row.
  other_request :
      (u : ℕ) (a : LimitedAction) (r : Request) (buckets : List Bucket)
      → is_of u a r ≡ false
      → find_bucket u a (check_rate_limit limiter r.uploader r.action r.at buckets).1
        ≡ find_bucket u a buckets
  other_request u a r buckets h =
      rw (check_rate_limit_lem limiter positive r.uploader r.action r.at buckets) (
        find_bucket-put_bucket_other (burst_of limiter r.uploader r.action r.at)
          (rate_of limiter r.action) r.at r.uploader r.action buckets u a h)

  own_request :
      (u : ℕ) (a : LimitedAction) (r : Request) (buckets : List Bucket)
      → is_of u a r ≡ true
      → check_rate_limit limiter r.uploader r.action r.at buckets
        ≡ check_rate_limit limiter u a r.at buckets
  own_request u a r buckets h = let (same, act) = is_of_sound u a r h in cc

  accepted-own :
      (u : ℕ) (a : LimitedAction) (r : Request) (requests : List Request) (buckets : List Bucket)
      (b : Bucket) (k : ℕ)
      → is_of u a r ≡ true
      → next_bucket
          (burst_of limiter u a r.at)
          (rate_of limiter a)
          r.at
          u
          a
          (find_bucket u a buckets)
        ≡ b
      → b.tokens ≡ pos k
      → accepted limiter u a (r ∷ requests) buckets
        ≡ (if leb 1 k then 1 else 0)
          + accepted limiter u a requests
              (check_rate_limit limiter r.uploader r.action r.at buckets).1
  unfolding accepted
  accepted-own u a r requests buckets b k mine same tokens =
      let passed =
        ap (λ c. is_ok c.0) (own_request u a r buckets mine)
        ∙ (own_answer limiter positive u a r.at buckets).0
        ∙ ap (λ (c : Bucket). has_token c.tokens) same
        ∙ ap has_token tokens in
      rw (mine, passed) refl

  own_row :
      (u : ℕ) (a : LimitedAction) (r : Request) (buckets : List Bucket) (b : Bucket)
      → is_of u a r ≡ true
      → next_bucket
          (burst_of limiter u a r.at)
          (rate_of limiter a)
          r.at
          u
          a
          (find_bucket u a buckets)
        ≡ b
      → find_bucket u a (check_rate_limit limiter r.uploader r.action r.at buckets).1 ≡ some b
  own_row u a r buckets b mine same =
      ap (λ c. find_bucket u a c.1) (own_request u a r buckets mine)
      ∙ (own_answer limiter positive u a r.at buckets).1
      ∙ ap some same

  -- From a row with `k` tokens on.
  accepted-some :
      (u : ℕ) (a : LimitedAction) (last : ℕ) (requests : List Request) (from : ℕ)
      (buckets : List Bucket) (b : Bucket) (k : ℕ)
      → find_bucket u a buckets ≡ some b
      → b.tokens ≡ pos k
      → b.last_refill ≤ from
      → Ascending from requests last
      → accepted limiter u a requests buckets ≤ k - 1 + (last - b.last_refill) / rate_of limiter a
  unfolding accepted
  accepted-some u a last [] from buckets b k row tokens past times = omega arith
  accepted-some u a last (r ∷ requests) from buckets b k row tokens past times =
      elim (Bool-cases (is_of u a r)) [
        | inr e ↦
            let rest =
              accepted-some u a last requests r.at
                (check_rate_limit limiter r.uploader r.action r.at buckets).1 b k
                (other_request u a r buckets e ∙ row) tokens (omega arith) times.1 in
            rw e (omega (arith, rest))
        | inl e ↦
            let burst = burst_of limiter u a r.at in
            let q = (r.at - b.last_refill) / rate_of limiter a in
            let b' = refill burst (rate_of limiter a) r.at b in
            let k' = min burst (k - 1 + q) in
            let (tokens', refilled, whole) =
              refill-past burst (rate_of limiter a) r.at b k tokens (omega arith) in
            let same = next_bucket-some limiter positive u a r.at buckets b row in
            let rest =
              accepted-some u a last requests r.at
                (check_rate_limit limiter r.uploader r.action r.at buckets).1 b' k'
                (own_row u a r buckets b' e same) tokens' (omega (arith, refilled)) times.1 in
            let until = Ascending-le r.at requests last times.1 in
            rw (accepted-own u a r requests buckets b' k' e same tokens') (
              spend k q k' (rate_of limiter a) b.last_refill last
                (accepted limiter u a requests
                  (check_rate_limit limiter r.uploader r.action r.at buckets).1)
                (positive a) (omega arith) (omega arith) (rw (← refilled) rest))
      ]

  -- Among the requests of all users, in the order of their times, a user without a row passes for
  -- an action at most as often as the highest burst, and once more for each whole refill period
  -- between the first time and the last, if every configured period is positive.
  pub accepted_le :
      (u : ℕ) (a : LimitedAction) (most last : ℕ) (requests : List Request) (from : ℕ)
      (buckets : List Bucket)
      → ((t : ℕ) → burst_of limiter u a t ≤ most)
      → find_bucket u a buckets ≡ none
      → Ascending from requests last
      → accepted limiter u a requests buckets ≤ most + (last - from) / rate_of limiter a
  unfolding accepted next_bucket
  accepted_le u a most last [] from buckets bursts row times = omega arith
  accepted_le u a most last (r ∷ requests) from buckets bursts row times =
      let until = Ascending-le r.at requests last times.1 in
      let mono =
        periods_mono (rate_of limiter a) (last - r.at) (last - from) (positive a) (omega arith) in
      elim (Bool-cases (is_of u a r)) [
        | inr e ↦
            let rest =
              accepted_le u a most last requests r.at
                (check_rate_limit limiter r.uploader r.action r.at buckets).1 bursts
                (other_request u a r buckets e ∙ row) times.1 in
            rw e (omega (arith, rest, mono))
        | inl e ↦
            let burst = burst_of limiter u a r.at in
            let b' = next_bucket burst (rate_of limiter a) r.at u a none in
            let same = ap (next_bucket burst (rate_of limiter a) r.at u a) row in
            let rest =
              accepted-some u a last requests r.at
                (check_rate_limit limiter r.uploader r.action r.at buckets).1 b' burst
                (own_row u a r buckets b' e same) refl (omega arith) times.1 in
            rw (accepted-own u a r requests buckets b' burst e same refl)
              (first_request burst most _ _ _ (bursts r.at) rest mono)
      ]
