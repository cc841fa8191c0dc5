-- ===== src/Publish/Tables.antt =====
-- src/controllers/krate/publish.rs: what a publish request reads, writes and calls.
use crates_io.Prelude.{ℕ, Text, Option, List, Bool, Result, [], ◌∷◌}
use crates_io.Errors.{AppError, bad_request, internal}
use crates_io.Database.Krate.{Crate}
use crates_io.Auth.{Authentication}
use crates_io.RateLimiter.{RateLimiter}
use crates_io.Owners.Base.{Server}
use crates_io.Yank.{Registry, Job}
use crates_io.Publish.Body.{PublishMetadata}
use crates_io.Publish.Manifest.{Parsers, TarballInfo}
use crates_io.Publish.Dependencies.{DependencyKind}

pub record DeletedCrate : Type 0 where
  pub name : Text
  pub available_at : ℕ

-- A row of `trustpub_tokens`; the digest stands for the token.
pub record TrustpubToken : Type 0 where
  pub hashed_token : Text
  pub crate_ids : List (Option ℕ)
  pub expires_at : ℕ
  pub trustpub_data : Option Text

-- A row of `dependencies`.
pub record DependencyRow : Type 0 where
  pub version_id : ℕ
  pub crate_id : ℕ
  pub req : Text
  pub kind : DependencyKind
  pub optional : Bool
  pub default_features : Bool
  pub features : List Text
  pub target : Option Text
  pub explicit_name : Option Text

pub record DefaultVersionRow : Type 0 where
  pub crate_id : ℕ
  pub version_id : ℕ
  pub num_versions : Option ℕ

-- A row of `keywords`, or of `categories` with its slug.
pub record Label : Type 0 where
  pub id : ℕ
  pub label : Text

-- The crate, and the keyword or category.
abbrev pub Labelled : Type 0
Labelled = ℕ × ℕ

-- The tables, the next values of the sequences of ids, and the uploaded tarballs with crate and
-- version.
pub record Tables : Type 0 where
  pub registry : Registry
  pub next_crate_id : ℕ
  pub next_version_id : ℕ
  pub next_keyword_id : ℕ
  pub deleted_crates : List DeletedCrate
  pub trustpub_tokens : List TrustpubToken
  pub reserved_crate_names : List Text
  -- The version, and the address that it was published with.
  pub versions_published_by : List (ℕ × Text)
  pub dependencies : List DependencyRow
  pub default_versions : List DefaultVersionRow
  pub keywords : List Label
  pub crates_keywords : List Labelled
  pub categories : List Label
  pub crates_categories : List Labelled
  pub uploads : List (Text × Text × List ℕ)

pub data TarballError : Type 0 where
  malformed malformed_pax_size size_mismatch missing_manifest : TarballError
  invalid_path unexpected_symlink unexpected_device : Text → TarballError
  invalid_manifest incorrectly_cased_manifest io : Text → TarballError
  too_many_manifests : List Text → TarballError

-- `From<TarballError> for BoxedAppError`
unfoldable pub tarball_error : TarballError → AppError
tarball_error TarballError.malformed =
    bad_request "uploaded tarball is malformed or too large when decompressed" []
tarball_error TarballError.malformed_pax_size = bad_request "uploaded tarball is malformed" []
tarball_error TarballError.size_mismatch = bad_request "uploaded tarball is malformed" []
tarball_error (TarballError.invalid_path path) =
    bad_request "invalid path found: {path}" (path ∷ [])
tarball_error (TarballError.unexpected_symlink path) =
    bad_request "unexpected symlink or hard link found: {path}" (path ∷ [])
tarball_error (TarballError.unexpected_device path) =
    bad_request "unexpected device file found: {path}" (path ∷ [])
tarball_error (TarballError.io e) = internal "{error}" (e ∷ [])
tarball_error TarballError.missing_manifest =
    bad_request "uploaded tarball is missing a `Cargo.toml` manifest file" []
tarball_error (TarballError.incorrectly_cased_manifest name) =
    bad_request
      "uploaded tarball is missing a `Cargo.toml` manifest file; `{name}` was found, but must be named `Cargo.toml` with that exact casing"
      (name ∷ [])
tarball_error (TarballError.too_many_manifests paths) =
    bad_request
      "uploaded tarball contains more than one `Cargo.toml` manifest file; found `{paths}`" paths
tarball_error (TarballError.invalid_manifest e) =
    bad_request "failed to parse `Cargo.toml` manifest file\n\n{err}" (e ∷ [])

-- The application: its configuration, and what it calls.
pub record App : Type 0 where
  pub server : Server
  pub rate_limiter : RateLimiter
  pub parsers : Parsers
  pub from_slice : List ℕ → Result PublishMetadata Text
  -- The name of the package's folder, the tarball, and the limit on what it unpacks to.
  pub process_tarball : Text → List ℕ → ℕ → Result TarballInfo TarballError
  pub hex_sha256 : List ℕ → Text
  -- Whether the storage takes a tarball, and the error if it does not.
  pub upload_crate_file : Text → Text → List ℕ → Result (Unit {0}) Text
  -- The error of the database, if any, that refuses the jobs of a request, given all that wait then.
  pub enqueue_error : List Job → Option Text
  pub max_upload_size : ℕ
  pub max_unpack_size : ℕ
  pub max_features : ℕ
  pub max_dependencies : ℕ
  pub new_version_rate_limit : Option ℕ
  pub domain_name : Text

pub data AuthType : Type 0 where
  regular : Authentication → AuthType
  trust_pub : Option Text → AuthType

-- What the tests before the transaction leave.
pub record Request : Type 0 where
  pub metadata : PublishMetadata
  -- The version number in its normal spelling.
  pub version_string : Text
  pub existing_crate : Option Crate

pub record Upload : Type 0 where
  pub tarball_bytes : List ℕ
  pub tarball_info : TarballInfo
  pub license : Option Text

-- The response, without the top versions and the downloads.
pub record GoodCrate : Type 0 where
  pub krate : Crate
  pub default_version : Text
  pub num_versions : ℕ
