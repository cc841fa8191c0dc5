-- ===== src/Prelude/Lists.antt =====
-- Lists measured by native numbers, Boolean and propositional quantifiers over a list.
use Prim.Native.Nat.{ℕ, zero, suc, ◌+◌}
use mathlib.Core.Option.{Option, none, some}
use mathlib.Core.Path.{◌≡◌, refl, sym, ◌∙◌}
use mathlib.Core.Logic.{◌↔◌, inl, inr}
use mathlib.Core.Bool.{Bool, true, false, ◌&&◌, ◌||◌, false≢true}
use mathlib.Core.Logic.{◌↔◌}
use mathlib.Core.List.{map, List, [], ◌∷◌, ◌++◌}
use native.Mathlib.Omega.{arith}
use crates_io.Prelude.Tests.{Bool-cases}
use mathlib.Core.Logic.{inl, inr}

module _ {ℓ} {A : Type ℓ} where
  abbrev pub length : List A → ℕ
  length [] = 0
  length (x ∷ xs) = suc (length xs)

  abbrev pub is_empty : List A → Bool
  is_empty [] = true
  is_empty (x ∷ xs) = false

  abbrev pub all : (A → Bool) → List A → Bool
  all p [] = true
  all p (x ∷ xs) = p x && all p xs

  abbrev pub any : (A → Bool) → List A → Bool
  any p [] = false
  any p (x ∷ xs) = p x || any p xs

  -- `Iterator::take` and `nth`.
  abbrev pub take : ℕ → List A → List A
  take zero xs = []
  take (suc n) [] = []
  take (suc n) (x ∷ xs) = x ∷ take n xs

  abbrev pub nth : ℕ → List A → Option A
  nth n [] = none
  nth zero (x ∷ xs) = some x
  nth (suc n) (x ∷ xs) = nth n xs

  -- Items that pass the test, in order; `filter` of an iterator.
  abbrev pub keep : (A → Bool) → List A → List A
  keep p [] = []
  keep p (x ∷ xs) = elim (p x) [ true ↦ x ∷ keep p xs | false ↦ keep p xs ]

  pub length-append : (xs ys : List A) → length (xs ++ ys) ≡ length xs + length ys
  length-append [] ys = omega arith
  length-append (x ∷ xs) ys = omega (arith, length-append xs ys)

module _ {ℓ κ} {A : Type ℓ} where
  abbrev pub All : (A → Type κ) → List A → Type κ
  All P [] = Unit
  All P (x ∷ xs) = P x × All P xs

  -- One item of the list satisfies `P`.
  pub data Any (P : A → Type κ) : List A → Type (ℓ ⊔ κ) where
    here : {x : A} {xs : List A} → P x → Any P (x ∷ xs)
    there : {x : A} {xs : List A} → Any P xs → Any P (x ∷ xs)

pub All-iff {ℓ κ μ} :
    {A : Type ℓ} {P : A → Type κ} {Q : A → Type μ}
    → ((a : A) → P a ↔ Q a)
    → (s : List A) → All P s ↔ All Q s
All-iff e [] = (λ _. tt, λ _. tt)
All-iff e (x ∷ s) =
    (λ h. ((e x).0 h.0, (All-iff e s).0 h.1), λ h. ((e x).1 h.0, (All-iff e s).1 h.1))

pub Any-map {ℓ κ μ ν} :
    {A : Type ℓ} {B : Type κ} {P : A → Type μ} {Q : B → Type ν} (f : A → B)
    → ((a : A) → Q (f a) → P a)
    → (xs : List A) → Any Q (map f xs)
    → Any P xs
Any-map f e [] h = elim h [ ]
Any-map f e (x ∷ xs) (here q) = here (e x q)
Any-map f e (x ∷ xs) (there h) = there (Any-map f e xs h)

pub Any-imp {ℓ κ μ} :
    {A : Type ℓ} {P : A → Type κ} {Q : A → Type μ}
    → ((a : A) → P a → Q a)
    → {xs : List A} → Any P xs
    → Any Q xs
Any-imp f (here p) = here (f _ p)
Any-imp f (there h) = there (Any-imp f h)

any_sound {ℓ} :
    {A : Type ℓ} (p : A → Bool) (xs : List A) → any p xs ≡ true → Any (λ x. p x ≡ true) xs
any_sound p [] h = cc
any_sound p (x ∷ xs) h = elim (Bool-cases (p x)) [
  | inl e ↦ here e
  | inr e ↦ there (any_sound p xs (ground arith))
]

any_complete {ℓ} :
    {A : Type ℓ} (p : A → Bool) {xs : List A} → Any (λ x. p x ≡ true) xs → any p xs ≡ true
any_complete p (here e) = rw e
any_complete p (there h) = ground (arith, any_complete p h)

pub any_iff {ℓ} :
    {A : Type ℓ} (p : A → Bool) (xs : List A) → (any p xs ≡ true) ↔ Any (λ x. p x ≡ true) xs
any_iff p xs = (any_sound p xs, any_complete p)

pub all_iff {ℓ} :
    {A : Type ℓ} (p : A → Bool) (xs : List A) → (all p xs ≡ true) ↔ All (λ x. p x ≡ true) xs
all_iff p [] = (λ _. tt, λ _. refl)
all_iff p (x ∷ xs) =
    (λ h. (ground arith, (all_iff p xs).0 (ground arith)), λ h. rw h.0 ((all_iff p xs).1 h.1))

-- A first item and the rest, each taken over.
pub Any-cons {ℓ κ μ} :
    {A : Type ℓ} {P : A → Type κ} {Q : A → Type μ} (x : A) (xs ys : List A)
    → (P x → Q x)
    → (Any P xs → Any Q ys)
    → Any P (x ∷ xs)
    → Any Q (x ∷ ys)
Any-cons x xs ys f g (here h) = here (f h)
Any-cons x xs ys f g (there h) = there (g h)

-- What the items that a test keeps satisfy.
pub Any-keep {ℓ κ} :
    {A : Type ℓ} {P : A → Type κ} (p : A → Bool) (xs : List A)
    → Any P (keep p xs) ↔ Any (λ x. (p x ≡ true) × P x) xs
Any-keep p [] = (λ a. elim a [ ], λ a. elim a [ ])
Any-keep p (x ∷ xs) =
    let (to, from) = Any-keep p xs in
    elim (Bool-cases (p x)) [
      | inl e ↦
          rw (keep, e)
            (Any-cons x (keep p xs) xs (λ h. (e, h)) to, Any-cons x xs (keep p xs) (λ h. h.1) from)
      | inr e ↦
          rw (keep, e)
            (
              λ a. there (to a),
              λ a. elim a [ here h ↦ absurd (false≢true (sym e ∙ h.0)) | there h ↦ from h ],
            )
    ]

pub keep-true {ℓ} :
    {A : Type ℓ} (p : A → Bool) (x : A) (xs : List A) → p x ≡ true → keep p (x ∷ xs) ≡ x ∷ keep p xs
keep-true p x xs e = rw (keep, e) refl

pub keep-false {ℓ} :
    {A : Type ℓ} (p : A → Bool) (x : A) (xs : List A) → p x ≡ false → keep p (x ∷ xs) ≡ keep p xs
keep-false p x xs e = rw (keep, e) refl

pub All-map {ℓ κ μ} :
    {A : Type ℓ} {P : A → Type κ} (Q : A → Type μ) (f : A → A)
    → ((a : A) → P a → Q (f a))
    → (xs : List A) → All P xs
    → All Q (map f xs)
All-map Q f e [] h = tt
All-map Q f e (x ∷ xs) h = (e x h.0, All-map Q f e xs h.1)

pub All-imp {ℓ κ μ} :
    {A : Type ℓ} {P : A → Type κ} {Q : A → Type μ}
    → ((a : A) → P a → Q a)
    → (xs : List A) → All P xs
    → All Q xs
All-imp e [] h = tt
All-imp e (x ∷ xs) h = (e x h.0, All-imp e xs h.1)

pub Any-over {ℓ κ μ ν} :
    {A : Type ℓ} {B : Type κ} {P : A → Type μ} {Q : B → Type ν} (f : A → B)
    → ((a : A) → P a → Q (f a))
    → (xs : List A) → Any P xs
    → Any Q (map f xs)
Any-over f e [] a = elim a [ ]
Any-over f e (x ∷ xs) (here p) = here (e x p)
Any-over f e (x ∷ xs) (there a) = there (Any-over f e xs a)

pub All-keep {ℓ κ μ} :
    {A : Type ℓ} {P : A → Type κ} {Q : A → Type μ} (p : A → Bool)
    → ((x : A) → p x ≡ true → P x → Q x)
    → (xs : List A) → All P xs
    → All Q (keep p xs)
All-keep p f [] h = tt
All-keep p f (x ∷ xs) h = elim (Bool-cases (p x)) [
  | inl e ↦ rw (keep, e) (f x e h.0, All-keep p f xs h.1)
  | inr e ↦ rw (keep, e) (All-keep p f xs h.1)
]

pub All-unmap {ℓ κ μ ν} :
    {A : Type ℓ} {B : Type κ} {P : A → Type μ} (Q : B → Type ν) (f : A → B)
    → ((a : A) → Q (f a) → P a)
    → (xs : List A) → All Q (map f xs)
    → All P xs
All-unmap Q f e [] h = tt
All-unmap Q f e (x ∷ xs) h = (e x h.0, All-unmap Q f e xs h.1)

-- A test that fails on a list fails on each item.
pub any-false {ℓ κ} :
    {A : Type ℓ} {P : A → Type κ} (p : A → Bool) (xs : List A)
    → ((a : A) → P a → p a ≡ true)
    → any p xs ≡ false
    → ¬ Any P xs
any-false p [] e h a = elim a [ ]
any-false p (x ∷ xs) e h (here a) = false≢true (sym h ∙ any_complete p (here (e x a)))
any-false p (x ∷ xs) e h (there a) = any-false p xs e (ground (arith, h)) a
