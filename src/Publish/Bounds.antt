-- ===== src/Publish/Bounds.antt =====
-- The limits that every published version keeps.
use crates_io.Prelude.{
  ℕ, ◌≤◌, ◌≡◌, refl, Text, Option, none, some, List, Bool, true, false, not, ok, >>=-eq-ok,
  if-eq-ok, map_err, codes, arith, for_each-ok_iff, All, All-imp, all, all_iff, &&_iff, ◌∷◌, [],
  ◌⊎◌, is_ascii_alphanumeric, length, byte_length, ltb,
}
use crates_io.Validation.{validate_feature_name}
use crates_io.Validation.Ident.{IsDigit, IsLetter, IsNameChar}
use crates_io.Publish.Manifest.{
  Manifest, Parsers, check_required, check_description, check_license, validate_url,
  validate_rust_version, max_description_length, feature_error,
}
use crates_io.Publish.Checks.{
  or_empty, is_keyword_char, valid_name, check_keyword, check_keywords, check_categories,
  check_feature, check_features,
}
use crates_io.Publish.Tables.{App, Request}
use crates_io.Publish.Handler.{crate_max_features, ensure_equal, check_manifest}

abbrev pub description_length : Option Text → ℕ
description_length none = 0
description_length (some description) = byte_length description

-- A letter or a digit, followed by such, `_`, `-` and `+`.
abbrev pub IsKeyword : Text → Type 0
IsKeyword [] = ⊥
IsKeyword (c ∷ s) = (IsLetter c ⊎ IsDigit c) × All (λ x. IsNameChar x ⊎ (x ≡ b'+')) s

-- The limits on what a version stores of its manifest.
pub record WithinLimits (max_features : ℕ) (description : Option Text)
    (keywords categories : List Text) (features : List (Text × List Text)) : Type 0 where
  pub short_description : description_length description ≤ 1000
  pub few_keywords : length keywords ≤ 5
  pub short_keywords : All (λ k. (byte_length k ≤ 20) × IsKeyword k) keywords
  pub few_categories : length categories ≤ 5
  pub few_features : length features ≤ max_features
  pub few_values : All (λ f. length f.1 ≤ max_features) features

ltb-false : (m n : ℕ) → ltb m n ≡ false → n ≤ m
ltb-false m n h = ground arith

check_description-le : (o : Option Text) → check_description o ≡ ok tt → description_length o ≤ 1000
unfolding check_description
check_description-le none h = omega arith
check_description-le (some d) h =
    let (short, _) = if-eq-ok (ltb max_description_length (byte_length d)) _ (ok tt) tt h in
    ltb-false 1000 (byte_length d) short

not-false : (b : Bool) → not b ≡ false → b ≡ true
not-false true h = refl
not-false false h = cc

keyword_char : (c : ℕ) → is_keyword_char c ≡ true → IsNameChar c ⊎ (c ≡ b'+')
keyword_char c h = ground (arith, h)

alphanumeric : (c : ℕ) → is_ascii_alphanumeric c ≡ true → IsLetter c ⊎ IsDigit c
alphanumeric c h = ground (arith, h)

valid_name-IsKeyword : (k : Text) → valid_name k ≡ true → IsKeyword k
unfolding valid_name
valid_name-IsKeyword [] h = cc
valid_name-IsKeyword (c ∷ s) h =
    let (first, rest) = (&&_iff (is_ascii_alphanumeric c) (all is_keyword_char s)).0 h in
    (alphanumeric c first, All-imp keyword_char s ((all_iff is_keyword_char s).0 rest))

check_keyword-le : (k : Text) → check_keyword k ≡ ok tt → (byte_length k ≤ 20) × IsKeyword k
check_keyword-le k h =
    let (short, h₁) = if-eq-ok (ltb 20 (byte_length k)) _ _ tt h in
    let (valid, _) = if-eq-ok (not (valid_name k)) _ (ok tt) tt h₁ in
    (ltb-false 20 (byte_length k) short, valid_name-IsKeyword k (not-false (valid_name k) valid))

check_keywords-le :
    (keywords : List Text)
    → check_keywords keywords ≡ ok tt
    → (length keywords ≤ 5) × All (λ k. (byte_length k ≤ 20) × IsKeyword k) keywords
unfolding check_keywords
check_keywords-le keywords h =
    let (few, h₁) = if-eq-ok (ltb 5 (length keywords)) _ _ tt h in
    (
      ltb-false 5 (length keywords) few,
      All-imp check_keyword-le keywords ((for_each-ok_iff check_keyword keywords).0 h₁),
    )

check_categories-le :
    (categories : List Text) → check_categories categories ≡ ok tt → length categories ≤ 5
unfolding check_categories
check_categories-le categories h =
    let (few, _) = if-eq-ok (ltb 5 (length categories)) _ (ok tt) tt h in
    ltb-false 5 (length categories) few

check_feature-le :
    (parsers : Parsers) (m : ℕ) (f : Text × List Text)
    → check_feature parsers m f ≡ ok tt
    → length f.1 ≤ m
check_feature-le parsers m (key, values) h =
    let (_, named, h₁) =
      >>=-eq-ok (map_err feature_error (validate_feature_name parsers.xid key)) _ h in
    let (few, _) = if-eq-ok (ltb m (length values)) _ _ tt h₁ in ltb-false m (length values) few

check_features-le :
    (parsers : Parsers) (m : ℕ) (features : List (Text × List Text))
    → check_features parsers m features ≡ ok tt
    → (length features ≤ m) × All (λ f. length f.1 ≤ m) features
unfolding check_features
check_features-le parsers m features h =
    let (few, h₁) = if-eq-ok (ltb m (length features)) _ _ tt h in
    (
      ltb-false m (length features) few,
      All-imp (check_feature-le parsers m) features
          ((for_each-ok_iff (check_feature parsers m) features).0 h₁),
    )

-- A manifest that passes is within the limits.
pub check_manifest-WithinLimits :
    (app : App) (request : Request) (manifest : Manifest) (license : Option Text)
    → check_manifest app request manifest ≡ ok license
    → WithinLimits
        (crate_max_features request.existing_crate app.max_features)
        manifest.pkg.description
        (or_empty manifest.pkg.keywords)
        (or_empty manifest.pkg.categories)
        (or_empty manifest.features)
unfolding check_manifest
check_manifest-WithinLimits app request manifest license h =
    let pkg = manifest.pkg in
    let (_, _, h) =
      >>=-eq-ok
        (ensure_equal "metadata name `{}` does not match manifest name `{}`" request.metadata.name
          pkg.name)
        _ h in
    let (_, _, h) =
      >>=-eq-ok
        (ensure_equal "metadata version `{}` does not match manifest version `{manifest_version}`"
          request.metadata.vers pkg.version)
        _ h in
    let (_, _, h) = >>=-eq-ok (check_required pkg) _ h in
    let (_, described, h) = >>=-eq-ok (check_description pkg.description) _ h in
    let (l, _, h) = >>=-eq-ok (check_license app.parsers pkg.license pkg.license_file) _ h in
    let (_, _, h) = >>=-eq-ok (validate_url app.parsers pkg.homepage (codes "homepage")) _ h in
    let (_, _, h) =
      >>=-eq-ok (validate_url app.parsers pkg.documentation (codes "documentation")) _ h in
    let (_, _, h) = >>=-eq-ok (validate_url app.parsers pkg.repository (codes "repository")) _ h in
    let (_, _, h) = >>=-eq-ok (validate_rust_version app.parsers pkg.rust_version) _ h in
    let (_, keyed, h) = >>=-eq-ok (check_keywords (or_empty pkg.keywords)) _ h in
    let (_, categorized, h) = >>=-eq-ok (check_categories (or_empty pkg.categories)) _ h in
    let (_, featured, h) =
      >>=-eq-ok
        (check_features app.parsers (crate_max_features request.existing_crate app.max_features)
          (or_empty manifest.features))
        _ h in
    let (few_keywords, short_keywords) = check_keywords-le (or_empty pkg.keywords) keyed in
    let (few_features, few_values) =
      check_features-le app.parsers (crate_max_features request.existing_crate app.max_features)
        (or_empty manifest.features) featured in
    record {
      short_description = check_description-le pkg.description described;
      few_keywords = few_keywords;
      short_keywords = short_keywords;
      few_categories = check_categories-le (or_empty pkg.categories) categorized;
      few_features = few_features;
      few_values = few_values;
    }
