-- ===== src/Publish/Manifest.antt =====
-- src/controllers/krate/publish.rs: what a manifest holds, and the tests that a publish request makes
-- of it before any row is written. The types are those of the package cargo_manifest, of whose
-- values a manifest that passed `process_tarball` has no inherited ones.
use crates_io.Prelude.{
  ℕ, Text, Option, none, some, List, [], ◌∷◌, Bool, true, false, not, ◌&&◌, ◌||◌, Result, ok, err,
  ltb, ◌==◌, if◌then◌else◌, map_err, ◌>>=◌, codes, is_empty, all, byte_length, starts_with,
  is_ascii_digit,
}
use crates_io.Errors.{AppError, AppResult, bad_request}
use crates_io.Validation.{InvalidFeature, InvalidDependencyName, InvalidCrateName, UnicodeXid}

pub record DependencyDetail : Type 0 where
  pub package_name : Option Text
  pub optional : Option Bool
  pub default_features : Option Bool
  pub features : Option (List Text)
  pub registry : Option Text

-- What `req` and `detail` of a dependency return.
pub record Dependency : Type 0 where
  pub req : Text
  pub detail : Option DependencyDetail

abbrev pub DepsSet : Type 0
DepsSet = List (Text × Dependency)

pub record TargetDeps : Type 0 where
  pub dependencies : DepsSet
  pub dev_dependencies : DepsSet
  pub build_dependencies : DepsSet

pub record Package : Type 0 where
  pub name : Text
  pub version : Text
  pub description : Option Text
  pub license : Option Text
  pub license_file : Option Text
  pub homepage : Option Text
  pub documentation : Option Text
  pub repository : Option Text
  pub rust_version : Option Text
  pub edition : Option Text
  pub keywords : Option (List Text)
  pub categories : Option (List Text)
  pub links : Option Text

pub record Manifest : Type 0 where
  pub pkg : Package
  pub features : Option (List (Text × List Text))
  pub dependencies : Option DepsSet
  pub dev_dependencies : Option DepsSet
  pub build_dependencies : Option DepsSet
  pub target : Option (List (Text × TargetDeps))
  -- The library target, with its name if it has one, and the names of the programs.
  pub lib : Option (Option Text)
  pub bin : List (Option Text)

pub record TarballInfo : Type 0 where
  pub manifest : Manifest
  pub path_in_vcs : Option Text

-- The libraries that texts are parsed with. A semantic version, a version requirement, and a
-- license are the text that they display as; what is no valid one has none, or an error.
pub record Parsers : Type 0 where
  pub version : Text → Option Text
  pub is_prerelease : Text → Bool
  -- The order of semantic versions.
  pub version_lt : Text → Text → Bool
  pub version_req : Text → Option Text
  pub url : Text → Bool
  pub license_expr : Text → Result Text Text
  pub xid : UnicodeXid

-- The error's text is its format string with what fills it in.
unfoldable pub crate_name_error : InvalidCrateName → AppError
crate_name_error (InvalidCrateName.too_long what name) =
    bad_request "the {what} name `{name}` is too long (max {MAX_NAME_LENGTH} characters)"
      (what ∷ name ∷ [])
crate_name_error (InvalidCrateName.empty what) =
    bad_request "{what} name cannot be empty" (what ∷ [])
crate_name_error (InvalidCrateName.start_with_digit what name) =
    bad_request
      "the name `{name}` cannot be used as a {what} name, the name cannot start with a digit"
      (name ∷ what ∷ [])
crate_name_error (InvalidCrateName.start first_char what name) =
    bad_request
      "invalid character `{first_char}` in {what} name: `{name}`, the first character must be an ASCII character"
      ((first_char ∷ []) ∷ what ∷ name ∷ [])
crate_name_error (InvalidCrateName.char ch what name) =
    bad_request
      "invalid character `{ch}` in {what} name: `{name}`, characters must be an ASCII alphanumeric characters, `-`, or `_`"
      ((ch ∷ []) ∷ what ∷ name ∷ [])

unfoldable pub dependency_name_error : InvalidDependencyName → AppError
dependency_name_error (InvalidDependencyName.too_long name) =
    bad_request "the dependency name `{0}` is too long (max {MAX_NAME_LENGTH} characters)"
      (name ∷ [])
dependency_name_error InvalidDependencyName.empty = bad_request "dependency name cannot be empty" []
dependency_name_error (InvalidDependencyName.start_with_digit name) =
    bad_request
      "the name `{0}` cannot be used as a dependency name, the name cannot start with a digit"
      (name ∷ [])
dependency_name_error (InvalidDependencyName.start ch name) =
    bad_request
      "invalid character `{0}` in dependency name: `{1}`, the first character must be an ASCII character, or `_`"
      ((ch ∷ []) ∷ name ∷ [])
dependency_name_error (InvalidDependencyName.char ch name) =
    bad_request
      "invalid character `{0}` in dependency name: `{1}`, characters must be an ASCII alphanumeric characters, `-`, or `_`"
      ((ch ∷ []) ∷ name ∷ [])

unfoldable pub feature_error : InvalidFeature → AppError
unfolding dependency_name_error
feature_error InvalidFeature.empty = bad_request "feature cannot be empty" []
feature_error (InvalidFeature.start ch name) =
    bad_request
      "invalid character `{0}` in feature `{1}`, the first character must be a Unicode XID start character or digit (most letters or `_` or `0` to `9`)"
      ((ch ∷ []) ∷ name ∷ [])
feature_error (InvalidFeature.char ch name) =
    bad_request
      "invalid character `{0}` in feature `{1}`, characters must be Unicode XID characters, `+`, `-`, or `.` (numbers, `+`, `-`, `_`, `.`, or most letters)"
      ((ch ∷ []) ∷ name ∷ [])
feature_error (InvalidFeature.dependency_name e) = dependency_name_error e

-- `empty`
abbrev pub empty : Option Text → Bool
empty none = true
empty (some s) = is_empty s

abbrev pub push_if : Bool → Text → List Text → List Text
push_if true s rest = s ∷ rest
push_if false s rest = rest

abbrev pub missing_fields : Package → List Text
missing_fields pkg =
    push_if (empty pkg.description) (codes "description")
      (push_if (empty pkg.license && empty pkg.license_file) (codes "license") [])

unfoldable pub check_required : Package → AppResult (Unit {0})
check_required pkg =
    if not (is_empty (missing_fields pkg))
    then err (
        bad_request
          "missing or empty metadata fields: {}. Please see https://doc.rust-lang.org/cargo/reference/manifest.html for more information on configuring these fields"
          (missing_fields pkg))
    else ok tt

abbrev pub max_description_length : ℕ
max_description_length = 1000

unfoldable pub check_description : Option Text → AppResult (Unit {0})
check_description none = ok tt
check_description (some description) =
    if ltb max_description_length (byte_length description)
    then err (
        bad_request
          "The `description` is too long. A maximum of {MAX_DESCRIPTION_LENGTH} characters are currently allowed."
          [])
    else ok tt

-- The license that the version gets.
unfoldable pub check_license : Parsers → Option Text → Option Text → AppResult (Option Text)
check_license parsers (some license) license_file = do
  parsed ←
      map_err (λ e. bad_request "unknown or invalid license expression\n{e}" (e ∷ []))
        (parsers.license_expr license)
  ok (some license)
check_license parsers none (some file) = ok (some (codes "non-standard"))
check_license parsers none none = ok none

unfoldable pub validate_url : Parsers → Option Text → Text → AppResult (Unit {0})
validate_url parsers none field = ok tt
validate_url parsers (some url) field =
    if not (starts_with (codes "http://") url) && not (starts_with (codes "https://") url)
    then err (
        bad_request "URL for field `{field}` must begin with http:// or https:// (url: {url})"
          (field ∷ url ∷ []))
    else if not (parsers.url url)
    then err (bad_request "`{field}` is not a valid url: `{url}`" (field ∷ url ∷ []))
    else ok tt

abbrev pub is_version_char : ℕ → Bool
is_version_char c = is_ascii_digit c || c == b'.'

abbrev pub is_parsed : Option Text → Bool
is_parsed none = false
is_parsed (some req) = true

unfoldable pub validate_rust_version : Parsers → Option Text → AppResult (Unit {0})
validate_rust_version parsers none = ok tt
validate_rust_version parsers (some value) =
    if is_parsed (parsers.version_req value) && all is_version_char value
    then ok tt
    else err (
        bad_request "failed to parse `Cargo.toml` manifest file\n\ninvalid `rust-version` value" [])
