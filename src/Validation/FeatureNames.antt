-- ===== src/Validation/FeatureNames.antt =====
-- What the validator of feature strings takes for a dependency, marked by a `?` or not, and for the name of a feature.
use crates_io.Prelude.{
  ℕ, sym, subst, ◌⊎◌, All-iff, Bool-cases, strip_suffix_char-none, strip_suffix_char-append, ◌≡◌,
  refl, ◌↔◌, inl, inr, true, [], ◌∷◌, ◌++◌, arith, All, Text, ok, strip_suffix_char,
  strip_suffix_char_sound, Option-cases,
}
use crates_io.Validation.{
  UnicodeXid, InvalidFeature, is_feature_start, is_feature_char, validate_feature_name,
  without_question_mark,
}
use crates_io.Validation.Ident.{IsDigit, All-Lacks, IsNameChar, check_chars_iff}
use crates_io.Validation.Names.{IsDependencyName}

pub IsDependencyName-chars : (name : Text) → IsDependencyName name → All IsNameChar name
IsDependencyName-chars [] h = tt
IsDependencyName-chars (c ∷ s) (inl letter, chars, short) = (inl letter, chars)
IsDependencyName-chars (c ∷ s) (inr score, chars, short) = (inr (inr (inr score)), chars)

feature_char : (xid : UnicodeXid) (c : ℕ) → IsNameChar c → is_feature_char xid c ≡ true
feature_char xid c h = let e = xid.ascii_continue c (omega arith) in rw e (ground arith)

pub plain :
    (xid : UnicodeXid) (name : Text)
    → IsDependencyName name
    → validate_feature_name xid name ≡ ok tt
unfolding validate_feature_name
plain xid [] h = absurd h
plain xid (c ∷ s) h =
    let start : is_feature_start xid c ≡ true =
      rw (xid.ascii_start c (ground arith)) (ground arith) in
    rw start ((check_chars_iff (is_feature_char xid) _ s).1 (each s h.1))
  where
    each : (s : Text) → All IsNameChar s → All (λ x. is_feature_char xid x ≡ true) s
    each [] k = tt
    each (x ∷ s) k = (feature_char xid x k.0, each s k.1)

-- A dependency's name, with a `?` behind it or not.
abbrev pub IsMarked : Text → Text → Type 0
IsMarked dep name = (dep ≡ name) ⊎ (dep ≡ name ++ b'?' ∷ [])

-- A name of a feature.
abbrev pub IsFeatureName : UnicodeXid → Text → Type 0
IsFeatureName xid [] = ⊥
IsFeatureName xid (c ∷ s) =
    ((xid.is_xid_start c ≡ true) ⊎ ((c ≡ b'_') ⊎ IsDigit c))
    × All (λ x. (xid.is_xid_continue x ≡ true) ⊎ ((x ≡ b'+') ⊎ ((x ≡ b'-') ⊎ (x ≡ b'.')))) s

pub without_question_mark_iff :
    (xid : UnicodeXid) (dep : Text)
    → IsDependencyName (without_question_mark xid dep)
      ↔ ((name : Text) × IsMarked dep name × IsDependencyName name)
without_question_mark_iff xid dep = (to, from)
  where
    to :
        IsDependencyName (without_question_mark xid dep)
        → (name : Text) × IsMarked dep name × IsDependencyName name
    to h = elim (Option-cases (strip_suffix_char b'?' dep)) [
      | inl e ↦ (dep, inl refl, (rw (e, without_question_mark) at h))
      | inr (r, e) ↦
          (r, inr (strip_suffix_char_sound b'?' dep r e), (rw (e, without_question_mark) at h))
    ]

    from :
        (name : Text) × IsMarked dep name × IsDependencyName name
        → IsDependencyName (without_question_mark xid dep)
    from (name, inl e, h) =
        let lacks = All-Lacks b'?' (omega arith) name (IsDependencyName-chars name h) in
        let bare : without_question_mark xid name ≡ name =
          rw (strip_suffix_char-none b'?' name lacks, without_question_mark) refl in
        rw e (subst IsDependencyName (sym bare) h)
    from (name, inr e, h) =
        let bare : without_question_mark xid (name ++ b'?' ∷ []) ≡ name =
          rw (strip_suffix_char-append b'?' name, without_question_mark) refl in
        rw e (subst IsDependencyName (sym bare) h)

start_iff :
    (xid : UnicodeXid) (c : ℕ)
    → (is_feature_start xid c ≡ true) ↔ ((xid.is_xid_start c ≡ true) ⊎ ((c ≡ b'_') ⊎ IsDigit c))
start_iff xid c = (λ e. ground arith, λ d. ground arith)

char_iff :
    (xid : UnicodeXid) (x : ℕ)
    → (is_feature_char xid x ≡ true)
      ↔ ((xid.is_xid_continue x ≡ true) ⊎ ((x ≡ b'+') ⊎ ((x ≡ b'-') ⊎ (x ≡ b'.'))))
char_iff xid x = (λ e. ground arith, λ d. ground arith)

pub validate_feature_name_iff :
    (xid : UnicodeXid) (feat : Text)
    → (validate_feature_name xid feat ≡ ok tt) ↔ IsFeatureName xid feat
unfolding validate_feature_name
validate_feature_name_iff xid [] = (λ h. cc, λ h. absurd h)
validate_feature_name_iff xid (c ∷ s) =
    let (to, from) = check_chars_iff (is_feature_char xid) (λ x. InvalidFeature.char x (c ∷ s)) s in
    let (each, back) = All-iff (char_iff xid) s in
    elim (Bool-cases (is_feature_start xid c)) [
      | inl e ↦ rw e (λ h. ((start_iff xid c).0 e, each (to h)), λ p. from (back p.1))
      | inr e ↦ rw e (λ h. cc, λ p. absurd (ground (arith, e, (start_iff xid c).1 p.0)))
    ]
