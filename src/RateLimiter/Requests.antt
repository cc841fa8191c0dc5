-- ===== src/RateLimiter/Requests.antt =====
-- The requests that the rate limiter counts, and the periods between them.
use crates_io.Prelude.{
  ◌&&◌, ℕ, ◌+◌, ◌-◌, ◌*◌, ◌/◌, ◌≤◌, ◌<◌, ◌≡◌, refl, Bool, true, List, [], ◌∷◌, ◌==◌, if◌then◌else◌,
  arith, pos, leb, leb_iff, min, is_ok,
}
use native.Mathlib.Nat.{mul-add-div, mul-div-le, le-div_iff_mul-le}
use crates_io.RateLimiter.{
  LimitedAction, publish_new, publish_update, yank_unyank, Bucket, same_action, refill, RateLimiter,
  check_rate_limit,
}

pub record Request : Type 0 where
  pub uploader : ℕ
  pub action : LimitedAction
  pub at : ℕ

-- The requests come in the order of their times, between two times.
abbrev pub Ascending : ℕ → List Request → ℕ → Type 0
Ascending from [] last = from ≤ last
Ascending from (r ∷ requests) last = (from ≤ r.at) × Ascending r.at requests last

abbrev pub is_of : ℕ → LimitedAction → Request → Bool
is_of uploader action r = r.uploader == uploader && same_action r.action action

-- The number of requests of a user for an action that pass, among the requests of all users.
unfoldable pub accepted : RateLimiter → ℕ → LimitedAction → List Request → List Bucket → ℕ
accepted limiter uploader action [] buckets = 0
accepted limiter uploader action (r ∷ requests) buckets =
    let result = check_rate_limit limiter r.uploader r.action r.at buckets in
    (if is_of uploader action r && is_ok result.0 then 1 else 0)
    + accepted limiter uploader action requests result.1

pub same_action_sound : (a b : LimitedAction) → same_action a b ≡ true → a ≡ b
same_action_sound publish_new publish_new h = refl
same_action_sound publish_update publish_update h = refl
same_action_sound yank_unyank yank_unyank h = refl
same_action_sound publish_new publish_update h = cc
same_action_sound publish_new yank_unyank h = cc
same_action_sound publish_update publish_new h = cc
same_action_sound publish_update yank_unyank h = cc
same_action_sound yank_unyank publish_new h = cc
same_action_sound yank_unyank publish_update h = cc

-- Whole periods up to a time, and those behind them.
periods-add :
    (rate q from last : ℕ)
    → 0 < rate
    → from + rate * q ≤ last
    → (last - from) / rate ≡ q + (last - (from + rate * q)) / rate
periods-add rate q from last h le =
    let e : last - from ≡ rate * q + (last - (from + rate * q)) = omega arith in
    rw e (mul-add-div h q (last - (from + rate * q)))

pub periods_mono : (rate a b : ℕ) → 0 < rate → a ≤ b → a / rate ≤ b / rate
periods_mono rate a b h le =
    let (to, from) = le-div_iff_mul-le {k = rate} {x = a / rate} {y = a} h in
    (le-div_iff_mul-le h).1 (omega (arith, to (omega arith)))

-- The tokens that a row keeps, and those of the periods behind them, pay for what is accepted.
pub spend :
    (k q k' rate from last rest : ℕ)
    → 0 < rate
    → from + rate * q ≤ last
    → k' ≤ k - 1 + q
    → rest ≤ k' - 1 + (last - (from + rate * q)) / rate
    → (if leb 1 k' then 1 else 0) + rest ≤ k - 1 + (last - from) / rate
spend k q k' rate from last rest h le tokens bound =
    let e = periods-add rate q from last h le in ground arith

pub first_request :
    (burst most rest p q : ℕ)
    → burst ≤ most
    → rest ≤ burst - 1 + p
    → p ≤ q
    → (if leb 1 burst then 1 else 0) + rest ≤ most + q
first_request burst most rest p q le bound mono = ground arith

-- A row whose last refill is in the past, refilled.
pub refill-past :
    (burst rate now : ℕ) (b : Bucket) (k : ℕ)
    → b.tokens ≡ pos k
    → b.last_refill ≤ now
    → ((refill burst rate now b).tokens ≡ pos (min burst (k - 1 + (now - b.last_refill) / rate)))
      × ((refill burst rate now b).last_refill
          ≡ b.last_refill + rate * ((now - b.last_refill) / rate))
      × (b.last_refill + rate * ((now - b.last_refill) / rate) ≤ now)
refill-past burst rate now b k e le =
    let past = (leb_iff b.last_refill now).1 le in
    let whole = mul-div-le (now - b.last_refill) rate in
    (rw (past, e) refl, rw past refl, omega (arith, whole))

pub Ascending-le :
    (from : ℕ) (requests : List Request) (last : ℕ) → Ascending from requests last → from ≤ last
Ascending-le from [] last h = h
Ascending-le from (r ∷ requests) last h = omega (arith, h.0, Ascending-le r.at requests last h.1)
