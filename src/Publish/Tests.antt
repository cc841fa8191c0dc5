-- ===== src/Publish/Tests.antt =====
-- Ann publishes a crate, and then a version of it.
use crates_io.Prelude.{◌≡◌, refl, false, none, some, [], ◌∷◌, codes, ok, Result, ◌⊎◌, arith}
use crates_io.Errors.{AppError}
use crates_io.Database.Krate.{Crate, by_name}
use crates_io.Publish.Body.{Reader, read_json_metadata, read_tarball_bytes}
use crates_io.Publish.Framing.{encode_body, read-encode_body}
use crates_io.Publish.Tables.{App, Tables, GoodCrate}
use crates_io.Publish.Handler.{publish}
use crates_io.Publish.Refused.{marked}
use crates_io.Publish.Allowed.{TokenFor}
use crates_io.Publish.Existing.{UserFor, publish-existing}
use crates_io.Publish.Creator.{CreatedBy, publish-new}
use crates_io.Publish.Examples.{
  run_publish, lower, json, metadata, pkg, manifest, app, session, body, no_crates,
}

abbrev first : Result GoodCrate AppError × Tables
first = publish app 0 session body no_crates

abbrev foo : Crate
foo = record {
  id = 1;
  name = codes "foo";
  description = some (codes "A crate");
  homepage = none;
  documentation = none;
  readme = none;
  repository = some (codes "https://example.com/foo");
  max_upload_size = none;
  max_features = none;
  trustpub_only = false;
}

abbrev good : GoodCrate
good = record { krate = foo; default_version = codes "1.0.0"; num_versions = 1 }

published : first.0 ≡ ok good
unfolding run_publish
published = refl

abbrev tables : Tables
tables = first.1

abbrev next_app : App
next_app = record app {
  from_slice = λ bytes. ok (record metadata { vers = codes "1.1.0" });
  process_tarball = λ name tarball limit. ok (record {
    manifest = record manifest { pkg = record pkg { version = codes "1.1.0" } };
    path_in_vcs = none;
  });
}

abbrev again : GoodCrate
again = record good { default_version = codes "1.1.0"; num_versions = 2 }

published_again : (publish next_app 9 session body tables).0 ≡ ok again
unfolding run_publish
published_again = refl

found : by_name lower tables.registry.rows.crates (codes "foo") ≡ some foo
unfolding run_publish
found = refl

publish-existing_example :
    (foo.id ≡ foo.id)
    × (TokenFor next_app 9 session foo tables.trustpub_tokens
        ⊎ UserFor next_app 9 session (codes "foo") foo tables)
publish-existing_example =
    publish-existing next_app 9 session body tables again foo published_again found

missing : by_name lower no_crates.registry.rows.crates (codes "foo") ≡ none
unfolding run_publish
missing = refl

publish-new_example :
    (foo.id ≡ no_crates.next_crate_id)
    × (tables.registry.rows.crates ≡ foo ∷ [])
    × CreatedBy app 0 session (codes "foo") no_crates tables 1
publish-new_example = publish-new app 0 session body no_crates good published missing

-- The database takes no jobs: no crate is there, but the tarball is.
abbrev full : App
full = record app { enqueue_error = λ jobs. some (codes "disk full") }

left :
    (publish full 0 session body no_crates).1
    ≡ record (marked first.1.registry.rows.conn first.1.registry.buckets no_crates) {
      uploads = first.1.uploads;
    }
unfolding run_publish
left = refl

read-encode_body_example :
    (rest : Reader) × (read_json_metadata
        (λ bytes. ok metadata)
        10
        (record { bytes = encode_body json (31 ∷ 139 ∷ []); breaks_off = false })
      ≡ ok (metadata, rest))
    × (read_tarball_bytes 2 rest ≡ ok (31 ∷ 139 ∷ [], record { bytes = []; breaks_off = false }))
read-encode_body_example =
    read-encode_body (λ bytes. ok metadata) 10 2 json (31 ∷ 139 ∷ []) metadata (omega arith)
      (omega arith) refl
