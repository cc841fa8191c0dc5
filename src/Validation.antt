-- ===== src/Validation.antt =====
-- crates/crates_io_validation/src/lib.rs: the names of crates, dependencies and features.
-- A name is the list of its `chars()`. The Unicode tables of the crate `unicode_xid` are a
-- parameter, `UnicodeXid`.
pub mod Ident
pub mod Names
pub mod FeatureNames
pub mod Features
mod Tests
use crates_io.Prelude.{
  ℕ, ◌≡◌, ◌↔◌, Bool, true, false, not, ◌&&◌, ◌||◌, Option, none, some, List, [], ◌∷◌, ltb, ◌<◌,
  ◌==◌, if◌then◌else◌, length, Text, codes, Result, ok, err, ◌>>=◌, ◌>>◌, map_err, is_ascii_digit,
  is_ascii_alphabetic, is_ascii_alphanumeric, split_once, split_once_text, strip_suffix_char,
}

abbrev pub max_name_length : ℕ
max_name_length = 64

pub data InvalidDependencyName : Type 0 where
  too_long : Text → InvalidDependencyName
  empty : InvalidDependencyName
  start_with_digit : Text → InvalidDependencyName
  start char : ℕ → Text → InvalidDependencyName

pub data InvalidFeature : Type 0 where
  empty : InvalidFeature
  start char : ℕ → Text → InvalidFeature
  dependency_name : InvalidDependencyName → InvalidFeature

-- The fields `what` and `name` come in this order.
pub data InvalidCrateName : Type 0 where
  too_long : Text → Text → InvalidCrateName
  empty : Text → InvalidCrateName
  start_with_digit : Text → Text → InvalidCrateName
  start char : ℕ → Text → Text → InvalidCrateName

-- The test of a character behind the first, in names of crates and of dependencies.
abbrev pub is_name_char : ℕ → Bool
is_name_char ch = is_ascii_alphanumeric ch || ch == b'-' || ch == b'_'

-- The loop `for ch in chars`, which stops at the first character that fails the test.
unfoldable pub check_chars {ℓ} : {E : Type ℓ} → (ℕ → Bool) → (ℕ → E) → Text → Result (Unit {0}) E
check_chars test error [] = ok tt
check_chars test error (ch ∷ chars) =
    if test ch then check_chars test error chars else err (error ch)

unfoldable pub validate_create_ident : Text → Text → Result (Unit {0}) InvalidCrateName
validate_create_ident for_what [] = err (InvalidCrateName.empty for_what)
validate_create_ident for_what (ch ∷ chars) =
    let name : Text = ch ∷ chars in
    if is_ascii_digit ch
    then err (InvalidCrateName.start_with_digit for_what name)
    else if not (is_ascii_alphabetic ch)
    then err (InvalidCrateName.start ch for_what name)
    else check_chars is_name_char (λ c. InvalidCrateName.char c for_what name) chars

unfoldable pub validate_crate_name : Text → Text → Result (Unit {0}) InvalidCrateName
validate_crate_name for_what name =
    if ltb max_name_length (length name)
    then err (InvalidCrateName.too_long for_what name)
    else validate_create_ident for_what name

unfoldable pub validate_dependency_ident : Text → Result (Unit {0}) InvalidDependencyName
validate_dependency_ident [] = err InvalidDependencyName.empty
validate_dependency_ident (ch ∷ chars) =
    let name : Text = ch ∷ chars in
    if is_ascii_digit ch
    then err (InvalidDependencyName.start_with_digit name)
    else if not (is_ascii_alphabetic ch || ch == b'_')
    then err (InvalidDependencyName.start ch name)
    else check_chars is_name_char (λ c. InvalidDependencyName.char c name) chars

unfoldable pub validate_dependency_name : Text → Result (Unit {0}) InvalidDependencyName
validate_dependency_name name =
    if ltb max_name_length (length name)
    then err (InvalidDependencyName.too_long name)
    else validate_dependency_ident name

-- The functions of `unicode_xid::UnicodeXID`, with what Unicode fixes of them: a start character
-- may continue an identifier, and among ASCII the letters start one, and the letters, the digits
-- and `_` continue one.
pub record UnicodeXid : Type 0 where
  pub is_xid_start : ℕ → Bool
  pub is_xid_continue : ℕ → Bool
  pub start_continues : (c : ℕ) → is_xid_start c ≡ true → is_xid_continue c ≡ true
  pub ascii_start : (c : ℕ) → c < 128 → is_xid_start c ≡ is_ascii_alphabetic c
  pub ascii_continue :
      (c : ℕ) → c < 128 → is_xid_continue c ≡ (is_ascii_alphanumeric c || c == b'_')

module _ (xid : UnicodeXid) where
  abbrev pub is_feature_start : ℕ → Bool
  is_feature_start ch = xid.is_xid_start ch || ch == b'_' || is_ascii_digit ch

  abbrev pub is_feature_char : ℕ → Bool
  is_feature_char ch = xid.is_xid_continue ch || ch == b'+' || ch == b'-' || ch == b'.'

  unfoldable pub validate_feature_name : Text → Result (Unit {0}) InvalidFeature
  validate_feature_name [] = err InvalidFeature.empty
  validate_feature_name (ch ∷ chars) =
      let name : Text = ch ∷ chars in
      if not (is_feature_start ch)
      then err (InvalidFeature.start ch name)
      else check_chars is_feature_char (λ c. InvalidFeature.char c name) chars

  -- `dep.strip_suffix('?').unwrap_or(dep)`
  abbrev pub without_question_mark : Text → Text
  without_question_mark dep = elim (strip_suffix_char b'?' dep) [ none ↦ dep | some d ↦ d ]

  -- The arms of the `if let` chain behind the first, on the result of `split_once("dep:")`.
  abbrev pub validate_unslashed : Text → Option (Text × Text) → Result (Unit {0}) InvalidFeature
  validate_unslashed name (some (before, dep)) =
      map_err InvalidFeature.dependency_name (validate_dependency_name dep)
  validate_unslashed name none = validate_feature_name name

  abbrev pub validate_split : Text → Option (Text × Text) → Result (Unit {0}) InvalidFeature
  validate_split name (some (dep, dep_feat)) = do
    map_err InvalidFeature.dependency_name (validate_dependency_name (without_question_mark dep))
    validate_feature_name dep_feat
  validate_split name none = validate_unslashed name (split_once_text (codes "dep:") name)

  unfoldable pub validate_feature : Text → Result (Unit {0}) InvalidFeature
  validate_feature name = validate_split name (split_once b'/' name)
