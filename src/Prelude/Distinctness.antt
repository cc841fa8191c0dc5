-- ===== src/Prelude/Distinctness.antt =====
-- Lists whose items all differ.
use mathlib.Core.Logic.{inl, inr}
use mathlib.Core.Bool.{Bool}
use mathlib.Core.List.{map, List, [], ◌∷◌}
use crates_io.Prelude.Tests.{Bool-cases}
use crates_io.Prelude.Lists.{Any, Any-map, Any-imp, Any-over, Any-keep, keep}

-- No two items are the same.
abbrev pub Distinct {ℓ κ} : {A : Type ℓ} → (A → A → Type κ) → List A → Type (ℓ ⊔ κ)
Distinct Same [] = Unit
Distinct Same (x ∷ xs) = (¬ Any (Same x) xs) × Distinct Same xs

pub Distinct-map {ℓ κ} :
    {A : Type ℓ} {Same : A → A → Type κ} (f : A → A)
    → ((a b : A) → Same (f a) (f b) → Same a b)
    → (xs : List A) → Distinct Same xs
    → Distinct Same (map f xs)
Distinct-map f e [] h = tt
Distinct-map f e (x ∷ xs) h = (λ a. h.0 (Any-map f (e x) xs a), Distinct-map f e xs h.1)

pub Distinct-unmap {ℓ κ} :
    {A : Type ℓ} {Same : A → A → Type κ} (f : A → A)
    → ((a b : A) → Same a b → Same (f a) (f b))
    → (xs : List A) → Distinct Same (map f xs)
    → Distinct Same xs
Distinct-unmap f e [] h = tt
Distinct-unmap f e (x ∷ xs) h = (λ a. h.0 (Any-over f (e x) xs a), Distinct-unmap f e xs h.1)

pub Distinct-keep {ℓ κ} :
    {A : Type ℓ} (Same : A → A → Type κ) (p : A → Bool) (xs : List A)
    → Distinct Same xs
    → Distinct Same (keep p xs)
Distinct-keep Same p [] h = tt
Distinct-keep Same p (x ∷ xs) h =
    let rest = Distinct-keep Same p xs h.1 in
    elim (Bool-cases (p x)) [
      | inl e ↦ rw (keep, e) (λ a. h.0 (Any-imp (λ y q. q.1) ((Any-keep p xs).0 a)), rest)
      | inr e ↦ rw (keep, e) rest
    ]
