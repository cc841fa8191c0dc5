-- ===== src/RateLimiter/Buckets.antt =====
-- The table of buckets under `take_token`: the row of a user and an action, and the other rows.
use crates_io.Prelude.{
  ap, ◌&&◌, ℕ, ◌<◌, ◌≡◌, refl, inl, inr, true, false, Option, none, some, List, [], ◌∷◌, ◌==◌,
  if◌then◌else◌, arith, Bool-cases, pos, leb,
}
use crates_io.RateLimiter.{LimitedAction, Bucket, is_bucket, same_action, refill, upsert}

-- The first row of a user and an action.
unfoldable pub find_bucket : ℕ → LimitedAction → List Bucket → Option Bucket
find_bucket uploader action [] = none
find_bucket uploader action (b ∷ buckets) =
    if is_bucket uploader action b then some b else find_bucket uploader action buckets

-- What the upsert makes of a row, or of its absence.
unfoldable pub next_bucket : ℕ → ℕ → ℕ → ℕ → LimitedAction → Option Bucket → Bucket
next_bucket burst rate now uploader action none = record {
  user_id = uploader;
  tokens = pos burst;
  last_refill = now;
  action = action;
}
next_bucket burst rate now uploader action (some b) = refill burst rate now b

refill-is_bucket :
    (burst rate now : ℕ) (b : Bucket) (uploader : ℕ) (action : LimitedAction)
    → is_bucket uploader action (refill burst rate now b) ≡ is_bucket uploader action b
refill-is_bucket burst rate now b uploader action = elim (Bool-cases (leb b.last_refill now)) [
  | inl e ↦ rw e
  | inr e ↦ rw e
]

-- The table after an upsert.
unfoldable pub put_bucket : ℕ → ℕ → ℕ → ℕ → LimitedAction → List Bucket → List Bucket
unfolding next_bucket
put_bucket burst rate now uploader action [] = next_bucket burst rate now uploader action none ∷ []
put_bucket burst rate now uploader action (b ∷ buckets) =
    if is_bucket uploader action b
    then refill burst rate now b ∷ buckets
    else b ∷ put_bucket burst rate now uploader action buckets

module _ (burst rate now uploader : ℕ) (action : LimitedAction) where
  -- The upsert returns the row that it stores.
  pub upsert-find_bucket :
      (buckets : List Bucket)
      → 0 < rate
      → upsert burst rate now uploader action buckets
        ≡ some (
          next_bucket burst rate now uploader action (find_bucket uploader action buckets),
          put_bucket burst rate now uploader action buckets,
        )
  unfolding upsert find_bucket next_bucket put_bucket
  upsert-find_bucket [] h = refl
  upsert-find_bucket (b ∷ buckets) h = elim (Bool-cases (is_bucket uploader action b)) [
    | inl e ↦ rw e (ground arith)
    | inr e ↦ rw (e, upsert-find_bucket buckets h) refl
  ]

  next_bucket-is_bucket :
      is_bucket uploader action (next_bucket burst rate now uploader action none) ≡ true
  unfolding next_bucket
  next_bucket-is_bucket = ground arith

  pub find_bucket-put_bucket :
      (buckets : List Bucket)
      → find_bucket uploader action (put_bucket burst rate now uploader action buckets)
        ≡ some (next_bucket burst rate now uploader action (find_bucket uploader action buckets))
  unfolding find_bucket next_bucket put_bucket
  find_bucket-put_bucket [] = unfold next_bucket in rw next_bucket-is_bucket refl
  find_bucket-put_bucket (b ∷ buckets) = elim (Bool-cases (is_bucket uploader action b)) [
    | inl e ↦ rw (e, refill-is_bucket burst rate now b uploader action, e) refl
    | inr e ↦ rw (e, e) (find_bucket-put_bucket buckets)
  ]

  same_row :
      (b : Bucket) (u : ℕ) (a : LimitedAction)
      → is_bucket uploader action b ≡ true
      → (uploader == u && same_action action a) ≡ false
      → is_bucket u a b ≡ false
  same_row b u a h other = ground arith

  pub find_bucket-put_bucket_other :
      (buckets : List Bucket) (u : ℕ) (a : LimitedAction)
      → (uploader == u && same_action action a) ≡ false
      → find_bucket u a (put_bucket burst rate now uploader action buckets)
        ≡ find_bucket u a buckets
  unfolding find_bucket next_bucket put_bucket
  find_bucket-put_bucket_other [] u a other = rw other refl
  find_bucket-put_bucket_other (b ∷ buckets) u a other =
      elim (Bool-cases (is_bucket uploader action b)) [
        | inl e ↦ rw (e, refill-is_bucket burst rate now b u a, same_row b u a e other) refl
        | inr e ↦ rw e (
            ap (λ o. if is_bucket u a b then some b else o)
              (find_bucket-put_bucket_other buckets u a other))
      ]
