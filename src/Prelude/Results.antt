-- ===== src/Prelude/Results.antt =====
-- Rust's `Result`, with `?` as the bind of a `do` block.
use mathlib.Core.Path.{◌≡◌, refl}
use mathlib.Core.Logic.{◌⊎◌, ◌↔◌, inl, inr}
use mathlib.Core.Bool.{Bool, true, false}
use mathlib.Core.List.{List, [], ◌∷◌}
use crates_io.Prelude.Lists.{All}
use crates_io.Prelude.Tests.{if◌then◌else◌}

pub data Result {ℓ κ} (A : Type ℓ) (E : Type κ) : Type (ℓ ⊔ κ) where
  ok : A → Result A E
  err : E → Result A E

-- `Result::and_then`: an error stops the chain.
abbrev pub and_then {ℓ κ μ} :
    {T : Type ℓ} {U : Type κ} {E : Type μ} → (T → Result U E) → Result T E → Result U E
and_then next (err e) = err e
and_then next (ok t) = next t

infixl 5 ◌>>=◌ ◌>>◌
abbrev pub ◌>>=◌ {ℓ κ μ} :
    {T : Type ℓ} {U : Type κ} {E : Type μ} → Result T E → (T → Result U E) → Result U E
r >>= next = and_then next r

abbrev pub ◌>>◌ {κ μ} : {U : Type κ} {E : Type μ} → Result (Unit {0}) E → Result U E → Result U E
check >> result = and_then (λ done. result) check

-- `map_err`, as the `?` operator applies `From`.
abbrev pub map_err {ℓ κ μ} :
    {A : Type ℓ} {E : Type κ} {F : Type μ} → (E → F) → Result A E → Result A F
map_err f (ok a) = ok a
map_err f (err e) = err (f e)

abbrev pub is_ok {ℓ κ} : {A : Type ℓ} {E : Type κ} → Result A E → Bool
is_ok (ok a) = true
is_ok (err e) = false

-- A loop whose body may return an error.
abbrev pub for_each {ℓ κ} :
    {A : Type ℓ} {E : Type κ} → (A → Result (Unit {0}) E) → List A → Result (Unit {0}) E
for_each f [] = ok tt
for_each f (x ∷ xs) = f x >> for_each f xs

pub Result-cases {ℓ κ} :
    {A : Type ℓ} {E : Type κ} (r : Result A E) → ((a : A) × (r ≡ ok a)) ⊎ ((e : E) × (r ≡ err e))
Result-cases (ok a) = inl (a, refl)
Result-cases (err e) = inr (e, refl)

-- A chain that succeeds went through a value of its first part.
pub >>=-eq-ok {ℓ κ μ} :
    {T : Type ℓ} {U : Type κ} {E : Type μ} (r : Result T E) (next : T → Result U E) {u : U}
    → (r >>= next) ≡ ok u
    → (t : T) × (r ≡ ok t) × (next t ≡ ok u)
>>=-eq-ok (err e) next chain = cc
>>=-eq-ok (ok t) next chain = (t, refl, chain)

-- A sequence succeeds exactly when both parts do.
pub >>-eq-ok_iff {κ} :
    {E : Type κ} (m k : Result (Unit {0}) E) → ((m >> k) ≡ ok tt) ↔ ((m ≡ ok tt) × (k ≡ ok tt))
>>-eq-ok_iff (ok tt) k = (λ h. (refl, h), λ h. h.1)
>>-eq-ok_iff (err e) k = (λ h. cc, λ h. cc)

-- A guard that returns an error was passed where there is a result.
pub if-eq-ok {ℓ κ} :
    {A : Type ℓ} {E : Type κ} (b : Bool) (e : E) (r : Result A E) (a : A)
    → (if b then err e else r) ≡ ok a
    → (b ≡ false) × (r ≡ ok a)
if-eq-ok true e r a h = cc
if-eq-ok false e r a h = (refl, h)

pub for_each-ok_iff {ℓ κ} :
    {A : Type ℓ} {E : Type κ} (f : A → Result (Unit {0}) E) (xs : List A)
    → (for_each f xs ≡ ok tt) ↔ All (λ x. f x ≡ ok tt) xs
for_each-ok_iff f [] = (λ _. tt, λ _. refl)
for_each-ok_iff f (x ∷ xs) =
    let (to, from) = >>-eq-ok_iff (f x) (for_each f xs) in
    let (inner, outer) = for_each-ok_iff f xs in
    (λ h. ((to h).0, inner (to h).1), λ h. from (h.0, outer h.1))

pub ok-eq {ℓ κ} : {A : Type ℓ} {E : Type κ} (a b : A) → ◌≡◌ {A = Result A E} (ok a) (ok b) → a ≡ b
ok-eq a b h = cc
