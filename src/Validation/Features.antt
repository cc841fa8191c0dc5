-- ===== src/Validation/Features.antt =====
-- The validator of feature strings: what each of the forms `feat`, `dep/feat`, `dep?/feat` and
-- `dep:name` is accepted for.
use crates_io.Prelude.{
  ℕ, ◌≡◌, refl, ap, ◌↔◌, inl, inr, [], ◌∷◌, ◌++◌, arith, Text, codes, Result, ok, err, map_err,
  Lacks, some, none, split_once, split_once-some, split_once_sound, split_once-none, strip_prefix,
  split_once_text, strip_suffix_char, cons_fst, >>-eq-ok_iff, Lacks-append_iff,
  strip_suffix_char_sound, append_assoc, Lacks-of_none, Option-cases,
}
use crates_io.Validation.{
  UnicodeXid, InvalidFeature, validate_dependency_name, validate_feature_name,
  without_question_mark, validate_feature,
}
use crates_io.Validation.Ident.{All-Lacks, IsNameChar}
use crates_io.Validation.Names.{IsDependencyName, validate_dependency_name_iff}
use crates_io.Validation.FeatureNames.{
  IsDependencyName-chars, plain, IsMarked, IsFeatureName, without_question_mark_iff,
  validate_feature_name_iff,
}

map_err-ok {ℓ κ} :
    {E : Type ℓ} {F : Type κ} (f : E → F) (r : Result (Unit {0}) E)
    → (map_err f r ≡ ok tt) ↔ (r ≡ ok tt)
map_err-ok f (ok tt) = (λ _. refl, λ _. refl)
map_err-ok f (err e) = (λ h. cc, λ h. cc)

-- No "dep:" starts before the first `:`.
no_early_dep :
    (x : ℕ) (s r : Text)
    → Lacks b':' s
    → strip_prefix (codes "dep:") (x ∷ (s ++ codes "dep:" ++ r)) ≡ none
unfolding strip_prefix
no_early_dep x [] r h = ground arith
no_early_dep x (y ∷ []) r h = ground arith
no_early_dep x (y ∷ (z ∷ [])) r h = ground arith
no_early_dep x (y ∷ (z ∷ (w ∷ s))) r h = ground arith

split-dep :
    (s r : Text)
    → Lacks b':' s
    → split_once_text (codes "dep:") (s ++ codes "dep:" ++ r) ≡ some (s, r)
unfolding split_once_text
split-dep [] r h = ground arith
split-dep (x ∷ s) r h = rw (no_early_dep x s r h.1) (ap (cons_fst x) (split-dep s r h.1))

no_dep : (s : Text) → Lacks b':' s → split_once_text (codes "dep:") s ≡ none
unfolding split_once_text strip_prefix
no_dep [] h = refl
no_dep (x ∷ []) h = ground arith
no_dep (x ∷ (y ∷ [])) h = ground arith
no_dep (x ∷ (y ∷ (z ∷ []))) h = ground arith
no_dep (x ∷ (y ∷ (z ∷ (w ∷ s)))) h = ground (arith, no_dep (y ∷ (z ∷ (w ∷ s))) h.1)

abbrev as_feature : Text → Result (Unit {0}) InvalidFeature
as_feature dep = map_err InvalidFeature.dependency_name (validate_dependency_name dep)

as_feature_iff :
    (dep : Text)
    → (map_err InvalidFeature.dependency_name (validate_dependency_name dep) ≡ ok tt)
      ↔ IsDependencyName dep
as_feature_iff dep =
    let (to, from) = map_err-ok InvalidFeature.dependency_name (validate_dependency_name dep) in
    let (there, back) = validate_dependency_name_iff dep in (λ e. there (to e), λ h. from (back h))

Lacks-slash :
    (before name : Text)
    → Lacks b'/' before
    → Lacks b'/' name
    → Lacks b'/' (before ++ codes "dep:" ++ name)
Lacks-slash before name h k =
    (Lacks-append_iff b'/' (before ++ codes "dep:") name).1
      ((Lacks-append_iff b'/' before (codes "dep:")).1 (h, omega arith), k)

colon_remains :
    (xid : UnicodeXid) (dep : Text) → Lacks b':' (without_question_mark xid dep) → Lacks b':' dep
colon_remains xid dep h = elim (Option-cases (strip_suffix_char b'?' dep)) [
  | inl e ↦ rw (e, without_question_mark) at h
  | inr (r, e) ↦
      rw (strip_suffix_char_sound b'?' dep r e) (
        (Lacks-append_iff b':' r (b'?' ∷ [])).1 ((rw (e, without_question_mark) at h), omega arith))
]

not-IsDependencyName : (c : ℕ) → ¬ IsNameChar c → (a b : Text) → ¬ IsDependencyName (a ++ c ∷ b)
not-IsDependencyName c n a b h =
    ((Lacks-append_iff c a (c ∷ b)).0 (All-Lacks c n _ (IsDependencyName-chars (a ++ c ∷ b) h))).1.0
      refl

module _ (xid : UnicodeXid) where
  slash_iff :
      (dep feat : Text)
      → Lacks b'/' dep
      → (validate_feature xid (dep ++ b'/' ∷ feat) ≡ ok tt) ↔ (
          IsDependencyName (without_question_mark xid dep)
          × (validate_feature_name xid feat ≡ ok tt))
  unfolding validate_feature
  slash_iff dep feat h = rw (split_once-some b'/' dep feat h) (
      let (both, seq) =
        >>-eq-ok_iff (as_feature (without_question_mark xid dep))
          (validate_feature_name xid feat) in
      let (to, from) = as_feature_iff (without_question_mark xid dep) in
      (λ e. (to (both e).0, (both e).1), λ p. seq (from p.0, p.1)))

  -- A text with a `/` is accepted as a feature exactly when the text before the first one is a dependency name, with a
  -- `?` behind it or not, and the text behind it is a character as an identifier of Unicode starts with, `_` or a digit,
  -- followed by characters as an identifier of Unicode continues with, `+`, `-` or `.`.
  pub validate_feature_slash :
      (dep feat : Text)
      → Lacks b'/' dep
      → (validate_feature xid (dep ++ b'/' ∷ feat) ≡ ok tt)
        ↔ (((name : Text) × IsMarked dep name × IsDependencyName name) × IsFeatureName xid feat)
  validate_feature_slash dep feat h =
      let (to, from) = slash_iff dep feat h in
      let (marked, back) = without_question_mark_iff xid dep in
      let (named, unnamed) = validate_feature_name_iff xid feat in
      (λ e. (marked (to e).0, named (to e).1), λ p. from (back p.0, unnamed p.1))

  slashed_dep :
      (before a b : Text)
      → Lacks b'/' before
      → Lacks b'/' a
      → ¬ (validate_feature xid (before ++ codes "dep:" ++ (a ++ b'/' ∷ b)) ≡ ok tt)
  slashed_dep before a b h k e =
      let dep : Text = before ++ codes "dep:" ++ a in
      let good = ((slash_iff dep b (Lacks-slash before a h k)).0 (rw (← append_assoc) at e)).0 in
      let lacks =
        colon_remains xid dep (All-Lacks b':' (omega arith) _ (IsDependencyName-chars _ good)) in
      let marked = (Lacks-append_iff b':' (before ++ codes "dep:") a).0 lacks in
      ((Lacks-append_iff b':' before (codes "dep:")).0 marked.0).1.1.1.1.0 refl

  -- Without a `/`, "dep:" is looked for anywhere, and what stands before it is not checked.
  pub validate_feature_dep :
      (before name : Text)
      → Lacks b'/' before
      → Lacks b':' before
      → (validate_feature xid (before ++ codes "dep:" ++ name) ≡ ok tt) ↔ IsDependencyName name
  unfolding validate_feature
  validate_feature_dep before name slash colon = elim (Option-cases (split_once b'/' name)) [
    | inl lacks ↦
        rw (split_once-none b'/' _ (Lacks-slash before name slash (Lacks-of_none b'/' name lacks)))
          (rw (split-dep before name colon) (as_feature_iff name))
    | inr ((a, b), found) ↦
        let (split, lacks) = split_once_sound b'/' name a b found in
        (
          λ e. absurd (slashed_dep before a b slash lacks (rw split at e)),
          λ d. absurd (not-IsDependencyName b'/' (omega arith) a b (rw split at d)),
        )
  ]

  -- Every dependency name, and so every crate name, is a feature.
  pub dependency_name-validate_feature :
      (name : Text) → IsDependencyName name → validate_feature xid name ≡ ok tt
  unfolding validate_feature
  dependency_name-validate_feature name h =
      let chars = IsDependencyName-chars name h in
      rw (split_once-none b'/' name (All-Lacks b'/' (omega arith) name chars))
        (rw (no_dep name (All-Lacks b':' (omega arith) name chars)) (plain xid name h))
