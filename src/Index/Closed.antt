-- ===== src/Index/Closed.antt =====
-- What the split gives.
use crates_io.Prelude.{
  ℕ, zero, suc, ◌+◌, ◌≤◌, ◌≡◌, inl, inr, refl, ◌∙◌, Text, List, [], ◌∷◌, ◌++◌, keep, Bool, true,
  false, not, if◌then◌else◌, is_empty, length, All, All-imp, Any, here, there, any_iff, text_eq,
  text_eq_iff, arith, Bool-cases, length-append,
}
use crates_io.Index.{
  Feature, FeaturesMap, contains_key, uses_syntax, depends_on, split_loop, split_features,
}

-- A feature needs the newer syntax: a value has it, or names a feature that needs it.
pub data Needs (all_features : FeaturesMap) : Feature → Type 0 where
  by_syntax : (f : Feature) → uses_syntax f ≡ true → Needs all_features f
  by_value :
      (f g : Feature) (value : Text)
      → Any (λ v. v ≡ value) f.1
      → Any (λ h. h ≡ g) all_features
      → g.0 ≡ value
      → Needs all_features g
      → Needs all_features f

-- A feature that neither uses the newer syntax nor depends on a feature of the second map.
abbrev pub IsOld : FeaturesMap → Feature → Type 0
IsOld features2 f = (uses_syntax f ≡ false) × (depends_on features2 f ≡ false)

-- A feature of the map that needs the newer syntax.
abbrev pub IsNew : FeaturesMap → Feature → Type 0
IsNew all_features f = Any (λ h. h ≡ f) all_features × Needs all_features f

All-append : {A : Type 0} (P : A → Type 0) (xs ys : List A) → All P xs → All P ys → All P (xs ++ ys)
All-append P [] ys h k = k
All-append P (x ∷ xs) ys h k = (h.0, All-append P xs ys h.1 k)

All-keep :
    {A : Type 0} (P : A → Type 0) (p : A → Bool) (xs : List A)
    → All P xs
    → All (λ x. P x × (p x ≡ true)) (keep p xs)
All-keep P p [] h = tt
All-keep P p (x ∷ xs) h = elim (Bool-cases (p x)) [
  | inl e ↦ rw (keep, e) ((h.0, e), All-keep P p xs h.1)
  | inr e ↦ rw (keep, e) (All-keep P p xs h.1)
]

All-self : {A : Type 0} (xs : List A) → All (λ x. Any (λ y. y ≡ x) xs) xs
All-self [] = tt
All-self (x ∷ xs) = (here refl, All-imp (λ y a. there a) xs (All-self xs))

length-keeps :
    {A : Type 0} (p : A → Bool) (xs : List A)
    → length (keep (λ x. not (p x)) xs) + length (keep p xs) ≡ length xs
length-keeps p [] = refl
length-keeps p (x ∷ xs) = elim (Bool-cases (p x)) [
  | inl e ↦ rw (keep, e) (omega (arith, length-keeps p xs))
  | inr e ↦ rw (keep, e) (omega (arith, length-keeps p xs))
]

Any-pick :
    {A : Type 0} {P : A → Type 0} {Q : A → Type 0} (xs : List A)
    → Any P xs
    → All Q xs
    → (x : A) × P x × Q x × Any (λ y. y ≡ x) xs
Any-pick [] a h = elim a [ ]
Any-pick (x ∷ xs) (here p) h = (x, p, h.0, here refl)
Any-pick (x ∷ xs) (there a) h = let (y, p, q, in_xs) = Any-pick xs a h.1 in (y, p, q, there in_xs)

All-true : {A : Type 0} (xs : List A) → All (λ x. Unit {0}) xs
All-true [] = tt
All-true (x ∷ xs) = (tt, All-true xs)

not-true : (b : Bool) → not b ≡ true → b ≡ false
not-true true h = cc
not-true false h = refl

module _ (all_features : FeaturesMap) where
  -- A feature that depends on one that needs the newer syntax needs it too.
  depends_on-IsNew :
      (features2 : FeaturesMap) (f : Feature)
      → All (IsNew all_features) features2
      → depends_on features2 f ≡ true
      → Needs all_features f
  depends_on-IsNew features2 f new d =
      let (value, named, _, in_f) =
        Any-pick f.1 ((any_iff (contains_key features2) f.1).0 d) (All-true f.1) in
      let (g, key, is_new, _) =
        Any-pick features2 ((any_iff (λ h. text_eq h.0 value) features2).0 named) new in
      by_value f g value in_f is_new.0 ((text_eq_iff g.0 value).0 key) is_new.1

  -- What the loop keeps true of the features that are left.
  abbrev Left : FeaturesMap → Type 0
  Left = All (λ f. (uses_syntax f ≡ false) × Any (λ h. h ≡ f) all_features)

  -- The two maps that the loop ends with.
  abbrev pub Closed : ℕ → FeaturesMap × FeaturesMap → Type 0
  Closed size result =
      All (IsOld result.1) result.0
      × All (IsNew all_features) result.1
      × (length result.0 + length result.1 ≡ size)

  loop-Closed :
      (n : ℕ) (features features2 : FeaturesMap)
      → length features ≤ n
      → Left features
      → All (IsNew all_features) features2
      → Closed (length features + length features2) (split_loop n features features2)
  unfolding split_loop
  loop-Closed zero [] features2 few left new = (tt, new, refl)
  loop-Closed zero (f ∷ features) features2 few left new = absurd (omega (arith, few))
  loop-Closed (suc n) features features2 few left new =
      by_moved (keep (depends_on features2) features) refl
        (length-keeps (depends_on features2) features)
        (λ smaller.
          loop-Closed n (keep (λ f. not (depends_on features2 f)) features)
            (features2 ++ keep (depends_on features2) features) smaller
            (All-imp (λ f h. h.0) kept
              (All-keep P (λ f. not (depends_on features2 f)) features left))
            (All-append (IsNew all_features) features2 (keep (depends_on features2) features) new (
              All-imp (λ f h. (h.0.1, depends_on-IsNew features2 f new h.1))
                (keep (depends_on features2) features)
                (All-keep P (depends_on features2) features left))))
    where
      P : Feature → Type 0
      P f = (uses_syntax f ≡ false) × Any (λ h. h ≡ f) all_features

      kept : FeaturesMap
      kept = keep (λ f. not (depends_on features2 f)) features

      by_moved :
          (moved : FeaturesMap)
          → keep (depends_on features2) features ≡ moved
          → length kept + length moved ≡ length features
          → (length kept ≤ n
              → Closed
                  (length kept + length (features2 ++ moved))
                  (split_loop n kept (features2 ++ moved)))
          → Closed
              (length features + length features2)
              (if is_empty moved then (kept, features2) else split_loop n kept (features2 ++ moved))
      by_moved [] e size rest = (
        All-imp (λ f h. (h.0.0, not-true (depends_on features2 f) h.1)) kept
            (All-keep P (λ f. not (depends_on features2 f)) features left),
        new,
        omega (arith, size),
      )
      by_moved (m ∷ moved) e size rest =
          let (old, news, total) = rest (omega (arith, size, few)) in
          (old, news, total ∙ omega (arith, size, length-append features2 (m ∷ moved)))

-- If at most 100 features lack the newer syntax, the limit of 100 iterations is enough: no feature of
-- the first map uses the newer syntax or names a feature of the second, every feature of the second is
-- one of those given and needs the newer syntax, itself or through features that it names, and both
-- maps together have as many features as were given.
pub split_features-Closed :
    (features : FeaturesMap)
    → length (keep (λ f. not (uses_syntax f)) features) ≤ 100
    → Closed features (length features) (split_features features)
unfolding split_features
split_features-Closed features few =
    let (old, new, total) =
      loop-Closed features 100 (keep (λ f. not (uses_syntax f)) features)
        (keep uses_syntax features) few
        (All-imp (λ f h. (not-true (uses_syntax f) h.1, h.0))
          (keep (λ f. not (uses_syntax f)) features)
          (All-keep (λ f. Any (λ h. h ≡ f) features) (λ f. not (uses_syntax f)) features
            (All-self features)))
        (All-imp (λ f h. (h.0, by_syntax f h.1)) (keep uses_syntax features)
          (All-keep (λ f. Any (λ h. h ≡ f) features) uses_syntax features (All-self features))) in
    (old, new, total ∙ length-keeps uses_syntax features)
