-- ===== src/Publish/Store.antt =====
-- src/controllers/krate/publish.rs: the transaction of a publish request. An error gives back the
-- tables from before; the sequences of ids, which the database does not set back, start over too.
use crates_io.Prelude.{
  ℕ, ◌+◌, ◌*◌, ◌-◌, ◌^◌, ◌%◌, ℤ, pos, negsuc, Text, Option, none, some, List, [], ◌∷◌, ◌++◌, map,
  any, keep, length, Bool, true, false, not, ◌&&◌, ◌==◌, ltb, leb, if◌then◌else◌, text_eq, ok, err,
  is_empty,
}
use crates_io.Errors.{AppResult, bad_request, custom, internal}
use crates_io.Database.Krate.{canon_crate_name}
use crates_io.Auth.{Authentication, api_token}
use crates_io.Auth
use crates_io.Yank.{Version, publish_action, Job, update_default_version, token_id}
use crates_io.Publish.Manifest.{Parsers}
use crates_io.Publish.Checks.{or_empty}
use crates_io.Publish.Tables.{
  Tables, App, DefaultVersionRow, AuthType, regular, trust_pub, Request, Upload,
}
use crates_io.Publish.Rows.{strip_build_metadata}
use crates_io.Publish.Labels.{DefaultVersion, version_lt}

-- `is_reserved_name`
unfoldable pub is_reserved_name : (Text → Text) → List Text → Text → Bool
unfolding canon_crate_name text_eq
is_reserved_name lower reserved name =
    any (λ row. text_eq (canon_crate_name lower row) (canon_crate_name lower name)) reserved

abbrev pub ensure_not_reserved : Bool → AppResult (Unit {0})
ensure_not_reserved reserved =
    if reserved then err (bad_request "cannot upload a crate with a reserved name" []) else ok tt

abbrev pub ensure_same_name : Text → Text → AppResult (Unit {0})
ensure_same_name krate_name name =
    if not (text_eq krate_name name)
    then err (bad_request "crate was previously named `{}`" (krate_name ∷ []))
    else ok tt

-- `count_versions_published_today`; times are microseconds.
unfoldable pub count_versions_published_today : ℕ → ℕ → List Version → ℕ
count_versions_published_today now crate_id versions =
    length (keep (λ v. v.crate_id == crate_id && ltb now (v.created_at + 24 * 3600000000)) versions)

abbrev pub ensure_daily_limit : Option ℕ → ℕ → AppResult (Unit {0})
ensure_daily_limit none published_today = ok tt
ensure_daily_limit (some limit) published_today =
    if leb limit published_today
    then err
        (custom 429 "You have published too many versions of this crate in the last 24 hours" [])
    else ok tt

abbrev pub dash_to_underscore : ℕ → ℕ
dash_to_underscore c = if c == b'-' then b'_' else c

abbrev pub lib_name_of : Text → Option (Option Text) → Option Text
lib_name_of name none = none
lib_name_of name (some none) = some (map dash_to_underscore name)
lib_name_of name (some (some lib_name)) = some lib_name

abbrev pub present : List (Option Text) → List Text
present [] = []
present (none ∷ names) = present names
present (some name ∷ names) = name ∷ present names

abbrev pub is_given : Option (Option Text) → Bool
is_given none = false
is_given (some lib) = true

-- `as i32`
abbrev pub as_i32 : ℕ → ℤ
as_i32 n = let low = n % 2 ^ 32 in if ltb low (2 ^ 31) then pos low else negsuc (2 ^ 32 - 1 - low)

abbrev pub user_id_of : AuthType → Option ℕ
user_id_of (regular auth) = some (Auth.user auth).id
user_id_of (trust_pub data_) = none

abbrev pub trustpub_data_of : AuthType → Option Text
trustpub_data_of (regular auth) = none
trustpub_data_of (trust_pub data_) = data_

-- The row that `NewVersion::builder` builds.
abbrev pub new_version : App → ℕ → AuthType → Request → Upload → ℕ → ℕ → Version
new_version app now auth request upload crate_id id =
    let manifest = upload.tarball_info.manifest in
    let pkg = manifest.pkg in
    record {
      id = id;
      crate_id = crate_id;
      num = request.version_string;
      num_no_build = strip_build_metadata request.version_string;
      created_at = now;
      features = or_empty manifest.features;
      yanked = false;
      license = upload.license;
      crate_size = as_i32 (length upload.tarball_bytes);
      published_by = user_id_of auth;
      checksum = app.hex_sha256 upload.tarball_bytes;
      links = pkg.links;
      rust_version = pkg.rust_version;
      has_lib = is_given manifest.lib;
      lib_name = lib_name_of pkg.name manifest.lib;
      bin_names = present manifest.bin;
      yank_message = none;
      edition = pkg.edition;
      description = pkg.description;
      homepage = pkg.homepage;
      documentation = pkg.documentation;
      repository = pkg.repository;
      categories = or_empty pkg.categories;
      keywords = or_empty pkg.keywords;
      trustpub_data = trustpub_data_of auth;
    }

abbrev pub set_published_by : Option Text → ℕ → Tables → Tables
set_published_by none version_id s = s
set_published_by (some email) version_id s = record s {
  versions_published_by = (version_id, email) ∷ s.versions_published_by;
}

abbrev pub record_action : AuthType → ℕ → Tables → Tables
record_action (trust_pub data_) version_id s = s
record_action (regular auth) version_id s = record s {
  registry = record s.registry {
    version_owner_actions =
        record {
          version_id = version_id;
          user_id = (Auth.user auth).id;
          api_token_id = token_id (api_token auth);
          action = publish_action;
        }
        ∷ s.registry.version_owner_actions;
  };
}

abbrev pub enqueue : List Job → Tables → Tables
enqueue jobs s = record s { registry = record s.registry { jobs = jobs ++ s.registry.jobs } }

unfoldable pub find_default : ℕ → List DefaultVersionRow → Option DefaultVersionRow
find_default crate_id [] = none
find_default crate_id (row ∷ rows) =
    if row.crate_id == crate_id then some row else find_default crate_id rows

unfoldable pub version_by_id : ℕ → List Version → Option Version
version_by_id id [] = none
version_by_id id (v ∷ versions) = if v.id == id then some v else version_by_id id versions

abbrev pub loaded : Parsers → Version → Option ℕ → AppResult (Option (DefaultVersion × ℕ))
loaded parsers v count = elim (parsers.version v.num) [
  | none ↦ err (internal "{error}" [])
  | some num ↦ ok (
      some
        (record { id = v.id; num = num; yanked = v.yanked }, elim count [ none ↦ 0 | some n ↦ n ]))
]

abbrev pub joined :
    Parsers → Option DefaultVersionRow → List Version → AppResult (Option (DefaultVersion × ℕ))
joined parsers none versions = ok none
joined parsers (some row) versions = elim (version_by_id row.version_id versions) [
  | none ↦ ok none
  | some v ↦ loaded parsers v row.num_versions
]

-- The default version of the crate, and the number of its versions.
unfoldable pub existing_default_version :
    Parsers → ℕ → Tables → AppResult (Option (DefaultVersion × ℕ))
unfolding find_default version_by_id
existing_default_version parsers crate_id s =
    joined parsers (find_default crate_id s.default_versions) s.registry.versions

abbrev pub set_default : ℕ → ℕ → DefaultVersionRow → DefaultVersionRow
set_default crate_id version_id row =
    if row.crate_id == crate_id then record row { version_id = version_id } else row

-- The default version after the published one, and, if it stays, its number for the response.
unfoldable pub replace_default :
    Parsers → DefaultVersion → Option (DefaultVersion × ℕ) → ℕ → Tables → Option Text × Tables
unfolding version_lt
replace_default parsers published none crate_id s = (none, s)
replace_default parsers published (some (existing, count)) crate_id s =
    if version_lt parsers existing published
    then (
      none,
      enqueue (update_default_version crate_id ∷ []) (record s {
        default_versions = map (set_default crate_id published.id) s.default_versions;
      }),
    )
    else (some existing.num, enqueue (update_default_version crate_id ∷ []) s)

abbrev pub ensure_known : Text → List Text → AppResult (Unit {0})
ensure_known domain unknown_categories =
    if not (is_empty unknown_categories)
    then err (
        bad_request
          "The following category slugs are not currently supported on crates.io: {unknown_categories}\n\nSee https://{domain}/category_slugs for a list of supported slugs."
          (domain ∷ unknown_categories))
    else ok tt
