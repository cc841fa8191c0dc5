-- ===== src/Publish/Checks.antt =====
-- src/controllers/krate/publish.rs, the limits on keywords, categories and features, and
-- `Keyword::valid_name` of crates/crates_io_database/src/models/keyword.rs.
use crates_io.Prelude.{
  ℕ, suc, ◌-◌, ◌^◌, ℤ, pos, negsuc, Text, Option, none, some, List, [], ◌∷◌, Bool, false, not, ◌&&◌,
  ◌||◌, ok, err, ltb, ◌==◌, if◌then◌else◌, map_err, ◌>>◌, all, length, byte_length,
  is_ascii_alphanumeric, for_each,
}
use crates_io.Errors.{AppResult, bad_request}
use crates_io.Validation.{validate_feature, validate_feature_name}
use crates_io.Publish.Manifest.{Parsers, feature_error}

abbrev pub or_empty {ℓ} : {A : Type ℓ} → Option (List A) → List A
or_empty none = []
or_empty (some xs) = xs

abbrev pub is_keyword_char : ℕ → Bool
is_keyword_char c = is_ascii_alphanumeric c || c == b'_' || c == b'-' || c == b'+'

-- `Keyword::valid_name`
unfoldable pub valid_name : Text → Bool
valid_name [] = false
valid_name (first ∷ chars) = is_ascii_alphanumeric first && all is_keyword_char chars

abbrev pub check_keyword : Text → AppResult (Unit {0})
check_keyword keyword =
    if ltb 20 (byte_length keyword)
    then err (
        bad_request
          "\"{keyword}\" is an invalid keyword (keywords must have less than 20 characters)"
          (keyword ∷ []))
    else if not (valid_name keyword)
    then err (bad_request "\"{keyword}\" is an invalid keyword" (keyword ∷ []))
    else ok tt

unfoldable pub check_keywords : List Text → AppResult (Unit {0})
unfolding valid_name
check_keywords keywords =
    if ltb 5 (length keywords)
    then err (bad_request "expected at most 5 keywords per crate" [])
    else for_each check_keyword keywords

unfoldable pub check_categories : List Text → AppResult (Unit {0})
check_categories categories =
    if ltb 5 (length categories)
    then err (bad_request "expected at most 5 categories per crate" [])
    else ok tt

-- `as usize`, of a machine with 64 bits.
abbrev pub as_usize : ℤ → ℕ
as_usize (pos n) = n
as_usize (negsuc n) = 2 ^ 64 - suc n

abbrev pub max_features_of : Option ℤ → ℕ → ℕ
max_features_of none limit = limit
max_features_of (some mf) limit = as_usize mf

module _ (parsers : Parsers) where
  abbrev pub check_feature : ℕ → Text × List Text → AppResult (Unit {0})
  check_feature max_features (key, values) = do
    map_err feature_error (validate_feature_name parsers.xid key)
    if ltb max_features (length values)
        then err (
            bad_request
              "crates.io only allows a maximum number of {max_features} features or dependencies that another feature can enable, but the \"{key}\" feature of your crate is enabling {num_features} features or dependencies."
              ((max_features ∷ []) ∷ key ∷ (length values ∷ []) ∷ []))
        else for_each (λ value. map_err feature_error (validate_feature parsers.xid value)) values

  unfoldable pub check_features : ℕ → List (Text × List Text) → AppResult (Unit {0})
  unfolding feature_error
  check_features max_features features =
      if ltb max_features (length features)
      then err (
          bad_request
            "crates.io only allows a maximum number of {max_features} features, but your crate is declaring {num_features} features."
            ((max_features ∷ []) ∷ (length features ∷ []) ∷ []))
      else for_each (check_feature max_features) features
