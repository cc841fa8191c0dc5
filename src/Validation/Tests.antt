-- ===== src/Validation/Tests.antt =====
-- Names and features from the tests of crates/crates_io_validation/src/lib.rs, and the theorems at
-- such names.
use crates_io.Prelude.{
  ℕ, ◌<◌, ◌≡◌, refl, ◌↔◌, ◌⊎◌, ◌||◌, true, arith, All, Text, codes, ok, err, split_once,
  split_once_text, strip_suffix_char, length, is_ascii_alphabetic, is_ascii_alphanumeric, ◌==◌,
}
use crates_io.Validation.{
  InvalidCrateName, InvalidDependencyName, InvalidFeature, max_name_length, check_chars,
  validate_create_ident, validate_crate_name, validate_dependency_ident, validate_dependency_name,
  UnicodeXid, validate_feature_name, validate_feature,
}
use crates_io.Validation.Ident.{IsNameChar}
use crates_io.Validation.Names.{
  IsDependencyName, Rejects, validate_dependency_name_iff, validate_crate_name-err_iff,
  dependency_name-crate_name,
}
use crates_io.Validation.FeatureNames.{IsMarked, IsFeatureName}
use crates_io.Validation.Features.{validate_feature_slash}

abbrev what : Text
what = codes "crate"

crate_names :
    (validate_crate_name what (codes "foo-bar_1") ≡ ok tt)
    × (validate_crate_name what (codes "") ≡ err (InvalidCrateName.empty what))
    × (validate_crate_name what (codes "foo+plus")
        ≡ err (InvalidCrateName.char b'+' what (codes "foo+plus")))
    × (validate_crate_name what (codes "_foo")
        ≡ err (InvalidCrateName.start b'_' what (codes "_foo")))
    × (validate_crate_name what (codes "05-foo")
        ≡ err (InvalidCrateName.start_with_digit what (codes "05-foo")))
unfolding validate_crate_name validate_create_ident check_chars
crate_names = (refl, refl, refl, refl, refl)

dependency_names :
    (validate_dependency_name (codes "_foo") ≡ ok tt)
    × (validate_dependency_name (codes "-foo")
        ≡ err (InvalidDependencyName.start b'-' (codes "-foo")))
unfolding validate_dependency_name validate_dependency_ident check_chars
dependency_names = (refl, refl)

-- The Unicode tables cut down to ASCII.
ascii_continues :
    (c : ℕ) → is_ascii_alphabetic c ≡ true → (is_ascii_alphanumeric c || c == b'_') ≡ true
ascii_continues c h = ground arith

abbrev ascii : UnicodeXid
ascii = record {
  is_xid_start = is_ascii_alphabetic;
  is_xid_continue = λ c. is_ascii_alphanumeric c || c == b'_';
  start_continues = ascii_continues;
  ascii_start = λ c h. refl;
  ascii_continue = λ c h. refl;
}

-- The last one is accepted although "x y" is no part of a feature.
features :
    (validate_feature ascii (codes "foo?/1.0+x") ≡ ok tt)
    × (validate_feature ascii (codes "dep:foo") ≡ ok tt)
    × (validate_feature ascii (codes "dep:foo?")
        ≡ err (InvalidFeature.dependency_name (InvalidDependencyName.char b'?' (codes "foo?"))))
    × (validate_feature ascii (codes "a b") ≡ err (InvalidFeature.char 32 (codes "a b")))
    × (validate_feature ascii (codes "x ydep:foo") ≡ ok tt)
unfolding validate_feature validate_feature_name validate_dependency_name validate_dependency_ident
    check_chars split_once split_once_text strip_suffix_char
features = (refl, refl, refl, refl, refl)

validate_crate_name-err_iff_example :
    (validate_crate_name what (codes "05-foo")
      ≡ err (InvalidCrateName.start_with_digit what (codes "05-foo")))
    ↔ Rejects what (codes "05-foo") (InvalidCrateName.start_with_digit what (codes "05-foo"))
validate_crate_name-err_iff_example =
    validate_crate_name-err_iff what (codes "05-foo")
      (InvalidCrateName.start_with_digit what (codes "05-foo"))

validate_dependency_name_iff_example :
    (validate_dependency_name (codes "_foo") ≡ ok tt) ↔ IsDependencyName (codes "_foo")
validate_dependency_name_iff_example = validate_dependency_name_iff (codes "_foo")

dependency_name-crate_name_example : (validate_dependency_name (codes "_foo") ≡ ok tt) ↔ (
    (validate_crate_name what (codes "_foo") ≡ ok tt)
    ⊎ (◌≡◌ {A = ℕ} b'_' b'_'
        × All IsNameChar (codes "foo")
        × (length (codes "foo") < max_name_length)))
dependency_name-crate_name_example = dependency_name-crate_name what b'_' (codes "foo")

validate_feature_slash_example : (validate_feature ascii (codes "foo?/bar") ≡ ok tt) ↔ (
    ((name : Text) × IsMarked (codes "foo?") name × IsDependencyName name)
    × IsFeatureName ascii (codes "bar"))
validate_feature_slash_example =
    validate_feature_slash ascii (codes "foo?") (codes "bar") (omega arith)
