-- ===== src/Publish/Examples.antt =====
-- A registry without crates, and a request that publishes one.
use crates_io.Prelude.{
  ◌≡◌, refl, false, none, some, [], ◌∷◌, codes, ok, starts_with, split_once, split_once_text,
  text_eq, trim_ascii, eq_ignore_ascii_case, parse_i32, strip_suffix_char, arith,
}
use crates_io.Validation.{
  validate_crate_name, validate_create_ident, check_chars, validate_dependency_name,
  validate_dependency_ident, validate_feature, validate_feature_name,
}
use crates_io.Database.User.{find}
use crates_io.Database.Krate.{by_name, canon_crate_name}
use crates_io.Database.Token.{matches, find_by_api_token, parse_token}
use crates_io.Database.Owners.{
  insert, owners, join_users, join_teams, by_owner, insert_by_owner, find_team, verified_email,
  split_login,
}
use crates_io.Auth.{
  check, optional_from_request_parts, verify_origin, ensure_not_locked, authenticate,
  authenticate_via_cookie, authenticate_via_token, check_token, endpoint_scope_matches,
  crate_scope_matches,
}
use crates_io.Rights.{get, best_rights}
use crates_io.RateLimiter.{check_rate_limit, take_token, upsert, burst_for, config_for_action}
use crates_io.Trustpub.AccessToken.{from_str, finalize, checksum, xor_bytes}
use crates_io.Publish.Body.{
  Reader, read_u32_le, split_bytes, read_exact, read_json_metadata, read_tarball_bytes,
}
use crates_io.Publish.Framing.{encode_body}
use crates_io.Publish.Manifest.{
  check_required, check_description, check_license, validate_url, validate_rust_version,
  crate_name_error, feature_error, dependency_name_error,
}
use crates_io.Publish.Checks.{valid_name, check_keywords, check_categories, check_features}
use crates_io.Publish.Dependencies.{
  convert_dependency, convert_dependencies, validate_dependency, check_dependencies,
}
use crates_io.Publish.Tables.{App, Tables, tarball_error}
use crates_io.Publish.Rows.{
  update, create, persist_crate, strip_build_metadata, count_version, save, exact_id,
  dependency_rows, add_dependencies,
}
use crates_io.Publish.Labels.{insert_keywords, update_keywords, update_categories, version_lt}
use crates_io.Publish.Store.{
  is_reserved_name, count_versions_published_today, find_default, version_by_id,
  existing_default_version, replace_default,
}
use crates_io.Publish.Transaction.{persist_version, link_version, store}
use crates_io.Publish.Access.{trustpub_token, find_token, authorize}
use crates_io.Publish.Handler.{recently_deleted, begin, check_manifest, prepare, publish}
use crates_io.Prelude.{
  ℕ, ◌+◌, ◌≡◌, refl, true, false, ◌||◌, ◌==◌, ltb, none, some, List, [], ◌∷◌, Text, codes, map, ok,
  pos, ascii_lowercase, is_ascii_alphabetic, is_ascii_alphanumeric, arith,
}
use crates_io.Validation.{UnicodeXid}
use crates_io.Database.User.{User}
use crates_io.Github.{GitHubClient}
use crates_io.Auth.{Parts}
use crates_io.Owners.Base.{Server}
use crates_io.Publish.Body.{Reader, PublishMetadata}
use crates_io.Publish.Framing.{encode_body}
use crates_io.Publish.Manifest.{Package, Manifest, Parsers}
use crates_io.Publish.Tables.{App, Tables}

-- Names all that a publish request runs.
unfoldable pub run_publish : Unit {0}
unfolding split_once_text check authenticate authenticate_via_cookie authenticate_via_token
    verify_origin ensure_not_locked check_token endpoint_scope_matches crate_scope_matches matches
    find find_by_api_token parse_token optional_from_request_parts parse_i32 text_eq trim_ascii
    eq_ignore_ascii_case split_once starts_with strip_suffix_char insert owners join_users
    join_teams by_owner insert_by_owner find_team verified_email by_name canon_crate_name get
    best_rights split_login check_rate_limit take_token upsert burst_for config_for_action from_str
    finalize checksum xor_bytes read_u32_le split_bytes read_exact read_json_metadata
    read_tarball_bytes check_required check_description check_license validate_url
    validate_rust_version crate_name_error feature_error dependency_name_error valid_name
    check_keywords check_categories check_features convert_dependency convert_dependencies
    validate_dependency check_dependencies tarball_error update create persist_crate
    strip_build_metadata count_version save exact_id dependency_rows add_dependencies
    insert_keywords update_keywords update_categories version_lt is_reserved_name
    count_versions_published_today find_default version_by_id existing_default_version
    replace_default persist_version link_version store trustpub_token find_token authorize
    recently_deleted begin check_manifest prepare publish validate_crate_name validate_create_ident
    check_chars validate_dependency_name validate_dependency_ident validate_feature
    validate_feature_name
run_publish = tt

abbrev ann : User
ann = record {
  id = 3;
  gh_id = pos 30;
  gh_login = codes "ann";
  gh_encrypted_token = [];
  account_lock_reason = none;
  account_lock_until = none;
  is_admin = false;
}

abbrev github : GitHubClient
github = record {
  team_by_name = λ org name token. ok (record { id = 70; name = none; organization_id = 7 });
  team_membership = λ org team login token. ok none;
  org_membership = λ org login token. ok none;
  org_by_name = λ org token. ok (record { id = 7; avatar_url = none });
}

abbrev pub lower : Text → Text
lower = map ascii_lowercase

abbrev server : Server
server = record {
  sha256 = λ s. s;
  allowed_origins = [];
  lower = lower;
  to_lowercase = lower;
  decrypt = λ s. some s;
  github = github;
  ownership_invitations_expiration = 100;
  new_token = λ user krate. codes "secret";
}

pub ascii_continues :
    (c : ℕ) → is_ascii_alphabetic c ≡ true → (is_ascii_alphanumeric c || c == b'_') ≡ true
ascii_continues c h = ground (arith, h)

abbrev ascii : UnicodeXid
ascii = record {
  is_xid_start = is_ascii_alphabetic;
  is_xid_continue = λ c. is_ascii_alphanumeric c || c == b'_';
  start_continues = ascii_continues;
  ascii_start = λ c h. refl;
  ascii_continue = λ c h. refl;
}

abbrev weight : Text → ℕ
weight [] = 0
weight (c ∷ s) = c + weight s

-- All versions are valid, and in the order of the sums of their characters, which is enough here.
abbrev parsers : Parsers
parsers = record {
  version = λ s. some s;
  is_prerelease = λ s. false;
  version_lt = λ a b. ltb (weight a) (weight b);
  version_req = λ s. some s;
  url = λ s. true;
  license_expr = λ s. ok s;
  xid = ascii;
}

abbrev pub json : List ℕ
json = 123 ∷ 125 ∷ []

abbrev pub metadata : PublishMetadata
metadata = record { name = codes "foo"; vers = codes "1.0.0"; readme = none; readme_file = none }

abbrev pub pkg : Package
pkg = record {
  name = codes "foo";
  version = codes "1.0.0";
  description = some (codes "A crate");
  license = some (codes "MIT");
  license_file = none;
  homepage = none;
  documentation = none;
  repository = some (codes "https://example.com/foo");
  rust_version = none;
  edition = none;
  keywords = some (codes "http" ∷ []);
  categories = none;
  links = none;
}

abbrev pub manifest : Manifest
manifest = record {
  pkg = pkg;
  features = some ((codes "default", codes "std" ∷ []) ∷ []);
  dependencies = none;
  dev_dependencies = none;
  build_dependencies = none;
  target = none;
  lib = some none;
  bin = [];
}

abbrev pub app : App
app = record {
  server = server;
  rate_limiter = record { config = []; overrides = [] };
  parsers = parsers;
  from_slice = λ bytes. ok metadata;
  process_tarball = λ name tarball limit. ok (record { manifest = manifest; path_in_vcs = none });
  hex_sha256 = λ bytes. codes "00";
  upload_crate_file = λ krate version tarball. ok tt;
  enqueue_error = λ jobs. none;
  max_upload_size = 100;
  max_unpack_size = 1000;
  max_features = 300;
  max_dependencies = 500;
  new_version_rate_limit = some 5;
  domain_name = codes "crates.io";
}

abbrev pub session : Parts
session = record { origins = []; authorization = none; session_user_id = some (codes "3") }

abbrev pub body : Reader
body = record { bytes = encode_body json (31 ∷ 139 ∷ 8 ∷ []); breaks_off = false }

abbrev pub no_crates : Tables
no_crates = record {
  registry = record {
    rows = record {
      conn = record { users = ann ∷ []; api_tokens = []; read_only = false };
      emails = record { user_id = 3; email = codes "ann@example.com"; verified = true } ∷ [];
      crates = [];
      teams = [];
      next_team_id = 1;
      crate_owners = [];
      crate_owner_invitations = [];
    };
    versions = [];
    version_owner_actions = [];
    jobs = [];
    buckets = [];
  };
  next_crate_id = 1;
  next_version_id = 1;
  next_keyword_id = 1;
  deleted_crates = [];
  trustpub_tokens = [];
  reserved_crate_names = [];
  versions_published_by = [];
  dependencies = [];
  default_versions = [];
  keywords = [];
  crates_keywords = [];
  categories = [];
  crates_categories = [];
  uploads = [];
}
