-- ===== src/Validation/Names.antt =====
-- The validators of crate names and of dependency names, against the rules for such names.
use crates_io.Prelude.{
  All-iff, Lacks, ℕ, ◌<◌, ◌≡◌, refl, ◌↔◌, ◌⊎◌, inl, inr, [], ◌∷◌, ◌++◌, arith, All, Text, ok, err,
  is_ascii_digit, is_ascii_alphabetic, Bool-cases, length, ltb, false_iff, ap,
}
use crates_io.Validation.{
  InvalidCrateName, InvalidDependencyName, max_name_length, is_name_char, check_chars,
  validate_create_ident, validate_crate_name, validate_dependency_ident, validate_dependency_name,
}
use crates_io.Validation.Ident.{
  All-Lacks, IsDigit, IsLetter, IsNameChar, is_ascii_digit_iff, is_ascii_alphabetic_iff,
  is_name_char_iff, check_chars_iff, check_chars_err, check_chars_first,
}

-- The rule for a crate name: a letter, then letters, digits, `-` and `_`, 64 characters in all.
abbrev pub IsCrateName : Text → Type 0
IsCrateName [] = ⊥
IsCrateName (c ∷ s) = IsLetter c × All IsNameChar s × (length s < max_name_length)

-- The rule for a dependency name, which may begin with `_` too.
abbrev pub IsDependencyName : Text → Type 0
IsDependencyName [] = ⊥
IsDependencyName (c ∷ s) =
    (IsLetter c ⊎ (c ≡ b'_')) × All IsNameChar s × (length s < max_name_length)

chars_iff {ℓ} :
    {E : Type ℓ} (error : ℕ → E) (s : Text)
    → (check_chars is_name_char error s ≡ ok tt) ↔ All IsNameChar s
chars_iff error s =
    let (to, from) = check_chars_iff is_name_char error s in
    let (there, back) = All-iff is_name_char_iff s in (λ e. there (to e), λ h. from (back h))

-- The validator accepts exactly the crate names.
pub validate_crate_name_iff :
    (what name : Text) → (validate_crate_name what name ≡ ok tt) ↔ IsCrateName name
unfolding validate_crate_name validate_create_ident
validate_crate_name_iff what [] = (λ e. cc, λ e. elim e [ ])
validate_crate_name_iff what (c ∷ s) =
    let (to, from) = chars_iff (λ x. InvalidCrateName.char x what (c ∷ s)) s in
    (λ e. (ground arith, to (ground arith), ground arith), λ h. ground (arith, from h.1))

-- The validator accepts exactly the dependency names.
pub validate_dependency_name_iff :
    (name : Text) → (validate_dependency_name name ≡ ok tt) ↔ IsDependencyName name
unfolding validate_dependency_name validate_dependency_ident
validate_dependency_name_iff [] = (λ e. cc, λ e. elim e [ ])
validate_dependency_name_iff (c ∷ s) =
    let (to, from) = chars_iff (λ x. InvalidDependencyName.char x (c ∷ s)) s in
    (λ e. (ground arith, to (ground arith), ground arith), λ h. ground (arith, from h.1))

-- The error for each name that is not a crate name: the first rule that it breaks, in the order
-- length, emptiness, leading digit, leading character, other characters.
pub data Rejects (what : Text) : Text → InvalidCrateName → Type 0 where
  too_long :
      {name : Text}
      → max_name_length < length name
      → Rejects what name (InvalidCrateName.too_long what name)
  empty : Rejects what [] (InvalidCrateName.empty what)
  start_with_digit :
      {c : ℕ} {s : Text}
      → length s < max_name_length
      → IsDigit c
      → Rejects what (c ∷ s) (InvalidCrateName.start_with_digit what (c ∷ s))
  start :
      {c : ℕ} {s : Text}
      → length s < max_name_length
      → ¬ IsDigit c
      → ¬ IsLetter c
      → Rejects what (c ∷ s) (InvalidCrateName.start c what (c ∷ s))
  char :
      {c d : ℕ} {s : Text} (pre post : Text)
      → length s < max_name_length
      → IsLetter c
      → s ≡ pre ++ d ∷ post
      → All IsNameChar pre
      → ¬ IsNameChar d
      → Rejects what (c ∷ s) (InvalidCrateName.char d what (c ∷ s))

chars_Rejects :
    (what : Text) (c : ℕ) (s : Text) (e : InvalidCrateName)
    → length s < max_name_length
    → IsLetter c
    → check_chars is_name_char (λ x. InvalidCrateName.char x what (c ∷ s)) s ≡ err e
    → Rejects what (c ∷ s) e
chars_Rejects what c s e short letter h =
    let (pre, d, post, split, good, bad, same) =
      check_chars_err is_name_char (λ x. InvalidCrateName.char x what (c ∷ s)) s e h in
    rw same (
      char pre post short letter split ((All-iff is_name_char_iff pre).0 good)
        ((false_iff _ (is_name_char_iff d)).0 bad))

ident_Rejects :
    (what : Text) (c : ℕ) (s : Text) (e : InvalidCrateName)
    → length s < max_name_length
    → validate_create_ident what (c ∷ s) ≡ err e
    → Rejects what (c ∷ s) e
unfolding validate_create_ident
ident_Rejects what c s e short h = elim (Bool-cases (is_ascii_digit c)) [
  | inl d ↦
      let same : e ≡ InvalidCrateName.start_with_digit what (c ∷ s) = ground arith in
      rw same (start_with_digit short ((is_ascii_digit_iff c).0 d))
  | inr nd ↦ elim (Bool-cases (is_ascii_alphabetic c)) [
    | inl l ↦ chars_Rejects what c s e short ((is_ascii_alphabetic_iff c).0 l) (ground arith)
    | inr nl ↦
        let same : e ≡ InvalidCrateName.start c what (c ∷ s) = ground arith in
        rw same (
          start short ((false_iff _ (is_ascii_digit_iff c)).0 nd)
            ((false_iff _ (is_ascii_alphabetic_iff c)).0 nl))
  ]
]

err-Rejects :
    (what name : Text) (e : InvalidCrateName)
    → validate_crate_name what name ≡ err e
    → Rejects what name e
unfolding validate_crate_name validate_create_ident
err-Rejects what [] e h = let same : e ≡ InvalidCrateName.empty what = ground arith in rw same empty
err-Rejects what (c ∷ s) e h = elim (Bool-cases (ltb max_name_length (length (c ∷ s)))) [
  | inl long ↦
      let same : e ≡ InvalidCrateName.too_long what (c ∷ s) = ground arith in
      rw same (too_long (ground arith))
  | inr short ↦
      ident_Rejects what c s e (ground arith) (unfold validate_create_ident in ground arith)
]

Rejects-err :
    (what name : Text) (e : InvalidCrateName)
    → Rejects what name e
    → validate_crate_name what name ≡ err e
unfolding validate_crate_name validate_create_ident
Rejects-err what name e (too_long h) = ground arith
Rejects-err what name e empty = refl
Rejects-err what name e (start_with_digit short d) = ground arith
Rejects-err what name e (start short nd nl) = ground arith
Rejects-err what name e (char {c} {d} {s} pre post short letter split good bad) =
    let error : ℕ → InvalidCrateName = λ x. InvalidCrateName.char x what (c ∷ s) in
    let loop : check_chars is_name_char error s ≡ err (error d) =
      rw (ap (check_chars is_name_char error) split) (
        check_chars_first is_name_char error pre post d ((All-iff is_name_char_iff pre).1 good)
          ((false_iff _ (is_name_char_iff d)).1 bad)) in
    ground (arith, loop)

-- The validator fails exactly with the error that `Rejects` gives the name.
pub validate_crate_name-err_iff :
    (what name : Text) (e : InvalidCrateName)
    → (validate_crate_name what name ≡ err e) ↔ Rejects what name e
validate_crate_name-err_iff what name e = (err-Rejects what name e, Rejects-err what name e)

-- The dependency names are the crate names and the texts of `_` and at most 63 further name
-- characters.
pub dependency_name-crate_name :
    (what : Text) (c : ℕ) (s : Text)
    → (validate_dependency_name (c ∷ s) ≡ ok tt) ↔ (
        (validate_crate_name what (c ∷ s) ≡ ok tt)
        ⊎ ((c ≡ b'_') × All IsNameChar s × (length s < max_name_length)))
dependency_name-crate_name what c s =
    let (dep, dep') = validate_dependency_name_iff (c ∷ s) in
    let (krate, krate') = validate_crate_name_iff what (c ∷ s) in
    (λ h. split (dep h) krate', join krate dep')
  where
    split :
        IsDependencyName (c ∷ s)
        → (IsCrateName (c ∷ s) → validate_crate_name what (c ∷ s) ≡ ok tt)
        → (validate_crate_name what (c ∷ s) ≡ ok tt)
          ⊎ ((c ≡ b'_') × All IsNameChar s × (length s < max_name_length))
    split (inl letter, chars, short) k = inl (k (letter, chars, short))
    split (inr score, chars, short) k = inr (score, chars, short)

    join :
        (validate_crate_name what (c ∷ s) ≡ ok tt → IsCrateName (c ∷ s))
        → (IsDependencyName (c ∷ s) → validate_dependency_name (c ∷ s) ≡ ok tt)
        → (validate_crate_name what (c ∷ s) ≡ ok tt)
          ⊎ ((c ≡ b'_') × All IsNameChar s × (length s < max_name_length))
        → validate_dependency_name (c ∷ s) ≡ ok tt
    join k d (inl e) = let (letter, chars, short) = k e in d (inl letter, chars, short)
    join k d (inr (score, chars, short)) = d (inr score, chars, short)

pub IsCrateName-Lacks : (c : ℕ) → ¬ IsNameChar c → (name : Text) → IsCrateName name → Lacks c name
IsCrateName-Lacks c n [] h = tt
IsCrateName-Lacks c n (x ∷ s) h = All-Lacks c n (x ∷ s) (inl h.0, h.1)
