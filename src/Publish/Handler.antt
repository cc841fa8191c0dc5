-- ===== src/Publish/Handler.antt =====
-- src/controllers/krate/publish.rs: the handler `publish`, in the order of its steps: tests without a
-- user, the authentication, the tests of the user and the rate limit, the tests of the tarball,
-- the transaction.
use crates_io.Prelude.{
  ℕ, max, Text, Option, none, some, List, [], ◌∷◌, ◌++◌, not, ◌&&◌, ltb, if◌then◌else◌, ok, err,
  String, ◌>>=◌, ◌>>◌, codes, map_err, text_eq, ℤ, pos, negsuc,
}
use crates_io.Errors.{AppResult, bad_request}
use crates_io.Validation.{validate_crate_name}
use crates_io.Database.Krate.{Crate, by_name, canon_crate_name}
use crates_io.Database.Owners.{verified_email}
use crates_io.Auth.{Parts}
use crates_io.RateLimiter.{Bucket, check_rate_limit}
use crates_io.Publish.Body.{Reader, read_json_metadata, read_tarball_bytes}
use crates_io.Publish.Manifest.{
  Manifest, crate_name_error, check_required, check_description, check_license, validate_url,
  validate_rust_version,
}
use crates_io.Publish.Checks.{
  or_empty, check_keywords, check_categories, max_features_of, check_features,
}
use crates_io.Publish.Dependencies.{convert_dependencies, check_dependencies}
use crates_io.Publish.Tables.{
  Tables, App, AuthType, Request, Upload, GoodCrate, DeletedCrate, tarball_error,
}
use crates_io.Publish.Access.{authorize, ensure_trustpub_only, verified, limit}
use crates_io.Publish.Transaction.{store}

abbrev pub max_json_length : ℕ
max_json_length = 1048576

unfoldable pub recently_deleted : (Text → Text) → ℕ → List DeletedCrate → Text → Option DeletedCrate
unfolding canon_crate_name text_eq
recently_deleted lower now [] name = none
recently_deleted lower now (row ∷ rows) name =
    if text_eq (canon_crate_name lower row.name) (canon_crate_name lower name)
      && ltb now row.available_at
    then some row
    else recently_deleted lower now rows name

abbrev pub ensure_not_deleted : Option DeletedCrate → AppResult (Unit {0})
ensure_not_deleted none = ok tt
ensure_not_deleted (some row) = err (
    bad_request
      "A crate with the name `{}` was recently deleted. Reuse of this name will be available after {}."
      (row.name ∷ (row.available_at ∷ []) ∷ []))

abbrev pub parsed_version : Text → Option Text → AppResult Text
parsed_version vers none = err (bad_request "\"{}\" is an invalid semver version" (vers ∷ []))
parsed_version vers (some version_string) = ok version_string

-- The steps before the authentication, with what the body still holds.
unfoldable pub begin : App → ℕ → Reader → Tables → AppResult (Request × Reader)
unfolding read_json_metadata crate_name_error recently_deleted by_name
begin app now reader s = do
  (metadata, rest) ← read_json_metadata app.from_slice max_json_length reader
  map_err crate_name_error (validate_crate_name (codes "crate") metadata.name)
  version_string ← parsed_version metadata.vers (app.parsers.version metadata.vers)
  ensure_not_deleted (recently_deleted app.server.lower now s.deleted_crates metadata.name)
  ok (
    record {
      metadata = metadata;
      version_string = version_string;
      existing_crate = by_name app.server.lower s.registry.rows.crates metadata.name;
    },
    rest,
  )

abbrev pub upload_size : Option ℤ → Option ℕ
upload_size none = none
upload_size (some (pos n)) = some n
upload_size (some (negsuc n)) = none

-- `Crate::max_upload_size` of the existing crate, or the configured limit.
abbrev pub max_upload_size_of : Option Crate → ℕ → ℕ
max_upload_size_of none limit = limit
max_upload_size_of (some krate) limit = elim (upload_size krate.max_upload_size) [
  | none ↦ limit
  | some n ↦ n
]

abbrev pub crate_max_features : Option Crate → ℕ → ℕ
crate_max_features none limit = limit
crate_max_features (some krate) limit = max_features_of krate.max_features limit

abbrev pub ensure_equal : String → Text → Text → AppResult (Unit {0})
ensure_equal message a b =
    if not (text_eq b a) then err (bad_request message (a ∷ b ∷ [])) else ok tt

-- The tests of the manifest.
unfoldable pub check_manifest : App → Request → Manifest → AppResult (Option Text)
unfolding check_required check_description check_license validate_url validate_rust_version
    check_keywords check_categories check_features convert_dependencies check_dependencies
check_manifest app request manifest = do
  let pkg = manifest.pkg
  ensure_equal "metadata name `{}` does not match manifest name `{}`" request.metadata.name pkg.name
  ensure_equal "metadata version `{}` does not match manifest version `{manifest_version}`"
      request.metadata.vers pkg.version
  check_required pkg
  check_description pkg.description
  license ← check_license app.parsers pkg.license pkg.license_file
  validate_url app.parsers pkg.homepage (codes "homepage")
  validate_url app.parsers pkg.documentation (codes "documentation")
  validate_url app.parsers pkg.repository (codes "repository")
  validate_rust_version app.parsers pkg.rust_version
  check_keywords (or_empty pkg.keywords)
  check_categories (or_empty pkg.categories)
  check_features app.parsers (crate_max_features request.existing_crate app.max_features)
      (or_empty manifest.features)
  check_dependencies app.parsers app.max_dependencies (convert_dependencies app.parsers manifest)
  ok license

abbrev pub pkg_name : Text → Text → Text
pkg_name name version = name ++ (codes "-" ++ version)

-- The tarball, read, unpacked and tested.
unfoldable pub prepare : App → Request → Reader → AppResult Upload
unfolding read_tarball_bytes tarball_error check_manifest
prepare app request reader = do
  let max_upload_size = max_upload_size_of request.existing_crate app.max_upload_size
  (tarball_bytes, rest) ← read_tarball_bytes max_upload_size reader
  tarball_info ← map_err tarball_error (
      app.process_tarball (pkg_name request.metadata.name request.version_string) tarball_bytes
        (max app.max_unpack_size max_upload_size))
  license ← check_manifest app request tarball_info.manifest
  ok (record { tarball_bytes = tarball_bytes; tarball_info = tarball_info; license = license })

abbrev pub after_prepare :
    App
    → ℕ
    → AuthType
    → Option Text
    → Request
    → Tables
    → AppResult Upload
    → AppResult GoodCrate × Tables
after_prepare app now auth email request s (err e) = (err e, s)
after_prepare app now auth email request s (ok upload) = store app now auth email request upload s

abbrev pub set_buckets : List Bucket → Tables → Tables
set_buckets buckets s = record s { registry = record s.registry { buckets = buckets } }

abbrev pub after_limit :
    App
    → ℕ
    → AuthType
    → Option Text
    → Request
    → Reader
    → Tables
    → AppResult (Unit {0}) × List Bucket
    → AppResult GoodCrate × Tables
after_limit app now auth email request reader s (err e, buckets) = (err e, set_buckets buckets s)
after_limit app now auth email request reader s (ok _, buckets) =
    after_prepare app now auth email request (set_buckets buckets s) (prepare app request reader)

abbrev pub after_verified :
    App
    → ℕ
    → AuthType
    → Request
    → Reader
    → Tables
    → AppResult (Option Text)
    → AppResult GoodCrate × Tables
after_verified app now auth request reader s (err e) = (err e, s)
after_verified app now auth request reader s (ok email) =
    after_limit app now auth email request reader s
      (limit app now auth request.existing_crate s.registry.buckets)

abbrev pub verify : App → AuthType → Request → Tables → AppResult (Option Text)
verify app auth request s = do
  ensure_trustpub_only request.existing_crate auth
  verified app auth s.registry.rows.emails

abbrev pub after_authorize :
    App → ℕ → Request → Reader → AppResult AuthType × Tables → AppResult GoodCrate × Tables
after_authorize app now request reader (err e, s) = (err e, s)
after_authorize app now request reader (ok auth, s) =
    after_verified app now auth request reader s (verify app auth request s)

abbrev pub after_begin :
    App → ℕ → Parts → Tables → AppResult (Request × Reader) → AppResult GoodCrate × Tables
after_begin app now parts s (err e) = (err e, s)
after_begin app now parts s (ok (request, reader)) =
    after_authorize app now request reader (authorize app now parts request s)

-- `publish`
unfoldable pub publish : App → ℕ → Parts → Reader → Tables → AppResult GoodCrate × Tables
unfolding begin authorize prepare store check_rate_limit verified_email
publish app now parts reader s = after_begin app now parts s (begin app now reader s)
