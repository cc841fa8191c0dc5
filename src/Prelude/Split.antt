-- ===== src/Prelude/Split.antt =====
-- What splitting and searching a text find: a first occurrence, and all of the text around it.
use crates_io.Prelude.Tests.{Option-cases}
use crates_io.Prelude.Lists.{All}
use crates_io.Prelude.Texts.{Text, strip_prefix, starts_with, strip_suffix_char, split_once}
use Prim.Native.Nat.{ℕ}
use mathlib.Core.Path.{◌≡◌, refl}
use mathlib.Core.Logic.{◌↔◌, ◌≢◌, inl, inr}
use mathlib.Core.Bool.{true}
use mathlib.Core.Option.{none, some}
use mathlib.Core.List.{[], ◌∷◌, ◌++◌}
use native.Mathlib.Omega.{arith}

-- The character does not occur.
abbrev pub Lacks : ℕ → Text → Type 0
Lacks c = All (λ x. x ≢ c)

pub split_once-some : (c : ℕ) (a b : Text) → Lacks c a → split_once c (a ++ c ∷ b) ≡ some (a, b)
unfolding split_once
split_once-some c [] b h = ground arith
split_once-some c (x ∷ a) b h = ground (arith, split_once-some c a b h.1)

pub split_once-none : (c : ℕ) (s : Text) → Lacks c s → split_once c s ≡ none
unfolding split_once
split_once-none c [] h = refl
split_once-none c (x ∷ s) h = ground (arith, split_once-none c s h.1)

pub split_once_sound :
    (c : ℕ) (s a b : Text) → split_once c s ≡ some (a, b) → (s ≡ a ++ c ∷ b) × Lacks c a
unfolding split_once
split_once_sound c [] a b h = cc
split_once_sound c (x ∷ s) [] b h = ground arith
split_once_sound c (x ∷ s) (y ∷ a) b h = ground (arith, split_once_sound c s a b)

pub Lacks-of_none : (c : ℕ) (s : Text) → split_once c s ≡ none → Lacks c s
unfolding split_once
Lacks-of_none c [] h = tt
Lacks-of_none c (x ∷ s) h = (ground arith, Lacks-of_none c s (ground arith))

pub strip_prefix_sound : (p s r : Text) → strip_prefix p s ≡ some r → s ≡ p ++ r
unfolding strip_prefix
strip_prefix_sound [] s r h = ground arith
strip_prefix_sound (x ∷ p) [] r h = cc
strip_prefix_sound (x ∷ p) (y ∷ s) r h = ground (arith, strip_prefix_sound p s r)

pub strip_prefix-append : (p r : Text) → strip_prefix p (p ++ r) ≡ some r
unfolding strip_prefix
strip_prefix-append [] r = refl
strip_prefix-append (x ∷ p) r = ground (arith, strip_prefix-append p r)

pub starts_with_sound : (p s : Text) → starts_with p s ≡ true → (r : Text) × (s ≡ p ++ r)
unfolding starts_with
starts_with_sound [] s h = (s, refl)
starts_with_sound (x ∷ p) [] h = cc
starts_with_sound (x ∷ p) (y ∷ s) h =
    let (r, e) = starts_with_sound p s (ground arith) in (r, ground arith)

pub starts_with-append : (p r : Text) → starts_with p (p ++ r) ≡ true
unfolding starts_with
starts_with-append [] r = refl
starts_with-append (x ∷ p) r = ground (arith, starts_with-append p r)

pub strip_suffix_char-append : (c : ℕ) (s : Text) → strip_suffix_char c (s ++ c ∷ []) ≡ some s
unfolding strip_suffix_char
strip_suffix_char-append c [] = ground arith
strip_suffix_char-append c (x ∷ []) = ground arith
strip_suffix_char-append c (x ∷ (y ∷ s)) = rw (strip_suffix_char-append c (y ∷ s))

pub strip_suffix_char_sound :
    (c : ℕ) (s r : Text) → strip_suffix_char c s ≡ some r → s ≡ r ++ c ∷ []
unfolding strip_suffix_char
strip_suffix_char_sound c [] r h = cc
strip_suffix_char_sound c (x ∷ []) r h = ground arith
strip_suffix_char_sound c (x ∷ (y ∷ s)) r h = elim (Option-cases (strip_suffix_char c (y ∷ s))) [
  | inl e ↦ cc
  | inr (t, e) ↦ ground (arith, strip_suffix_char_sound c (y ∷ s) t)
]

pub Lacks-append_iff : (c : ℕ) (a b : Text) → Lacks c (a ++ b) ↔ (Lacks c a × Lacks c b)
Lacks-append_iff c [] b = (λ h. (tt, h), λ h. h.1)
Lacks-append_iff c (x ∷ a) b =
    let (to, from) = Lacks-append_iff c a b in
    (λ h. ((h.0, (to h.1).0), (to h.1).1), λ h. (h.0.0, from (h.0.1, h.1)))

pub strip_suffix_char-none : (c : ℕ) (s : Text) → Lacks c s → strip_suffix_char c s ≡ none
strip_suffix_char-none c s h = elim (Option-cases (strip_suffix_char c s)) [
  | inl e ↦ e
  | inr (r, e) ↦
      let lacks = rw (strip_suffix_char_sound c s r e) at h in
      absurd (((Lacks-append_iff c r (c ∷ [])).0 lacks).1.0 refl)
]
