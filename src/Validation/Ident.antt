-- ===== src/Validation/Ident.antt =====
-- Classes of ASCII characters as propositions, and what the character loop of the validators finds.
use crates_io.Prelude.{
  Lacks, ℕ, ◌≤◌, ◌≡◌, refl, ◌↔◌, ◌⊎◌, inl, inr, Bool, true, false, [], ◌∷◌, ◌++◌, arith, All, Text,
  ok, err, is_ascii_digit, is_ascii_alphabetic, Bool-cases,
}
use crates_io.Validation.{is_name_char, check_chars}

abbrev pub IsDigit : ℕ → Type 0
IsDigit c = (b'0' ≤ c) × (c ≤ b'9')

abbrev pub IsLetter : ℕ → Type 0
IsLetter c = ((b'A' ≤ c) × (c ≤ b'Z')) ⊎ ((b'a' ≤ c) × (c ≤ b'z'))

-- An ASCII letter or digit, `-` or `_`.
abbrev pub IsNameChar : ℕ → Type 0
IsNameChar c = IsLetter c ⊎ (IsDigit c ⊎ ((c ≡ b'-') ⊎ (c ≡ b'_')))

pub is_ascii_digit_iff : (c : ℕ) → (is_ascii_digit c ≡ true) ↔ IsDigit c
is_ascii_digit_iff c = (λ e. ground arith, λ d. ground arith)

pub is_ascii_alphabetic_iff : (c : ℕ) → (is_ascii_alphabetic c ≡ true) ↔ IsLetter c
is_ascii_alphabetic_iff c = (λ e. ground arith, λ d. ground arith)

pub is_name_char_iff : (c : ℕ) → (is_name_char c ≡ true) ↔ IsNameChar c
is_name_char_iff c = (λ e. ground arith, λ d. ground arith)

module _ {ℓ} {E : Type ℓ} (test : ℕ → Bool) (error : ℕ → E) where
  pub check_chars_iff : (s : Text) → (check_chars test error s ≡ ok tt) ↔ All (λ c. test c ≡ true) s
  unfolding check_chars
  check_chars_iff [] = (λ _. tt, λ _. refl)
  check_chars_iff (c ∷ s) = (
    λ h. (ground arith, (check_chars_iff s).0 (ground arith)),
    λ h. rw h.0 ((check_chars_iff s).1 h.1),
  )

  -- The error names the first character that fails the test.
  pub check_chars_err :
      (s : Text) (e : E)
      → check_chars test error s ≡ err e
      → (pre : Text) × (c : ℕ) × (post : Text) × (s ≡ pre ++ c ∷ post)
        × All (λ x. test x ≡ true) pre
        × (test c ≡ false)
        × (e ≡ error c)
  unfolding check_chars
  check_chars_err [] e h = cc
  check_chars_err (c ∷ s) e h = elim (Bool-cases (test c)) [
    | inl t ↦
        let (pre, d, post, split, good, bad, same) = check_chars_err s e (ground arith) in
        (c ∷ pre, d, post, ground arith, (t, good), bad, same)
    | inr f ↦ ([], c, s, refl, tt, f, ground arith)
  ]

  pub check_chars_first :
      (pre post : Text) (c : ℕ)
      → All (λ x. test x ≡ true) pre
      → test c ≡ false
      → check_chars test error (pre ++ c ∷ post) ≡ err (error c)
  unfolding check_chars
  check_chars_first [] post c good bad = rw bad
  check_chars_first (x ∷ pre) post c good bad = rw good.0 (check_chars_first pre post c good.1 bad)

pub All-Lacks : (c : ℕ) → ¬ IsNameChar c → (s : Text) → All IsNameChar s → Lacks c s
All-Lacks c n [] h = tt
All-Lacks c n (x ∷ s) h = (λ e. n (rw (← e) h.0), All-Lacks c n s h.1)
