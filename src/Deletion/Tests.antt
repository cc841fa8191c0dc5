-- ===== src/Deletion/Tests.antt =====
-- Ann deletes a crate, by another spelling of its name, and publishes another one.
use crates_io.Prelude.{
  ℕ, ◌≡◌, ◌+◌, ◌*◌, refl, false, none, some, [], ◌∷◌, here, codes, ok, err, pos, arith, ◌≢◌,
}
use crates_io.Errors.{custom}
use crates_io.Database.User.{User}
use crates_io.Database.Krate.{Crate, canon_crate_name}
use crates_io.Database.Owners.{CrateOwner, user_kind}
use crates_io.Auth.{cookie, only_cookie, check}
use crates_io.Yank.{sync_to_git_index, sync_to_sparse_index, delete_crate_from_storage}
use crates_io.Tokens.{email}
use crates_io.Publish.Tables.{Tables, GoodCrate}
use crates_io.Publish.Handler.{publish}
use crates_io.Publish.Examples.{run_publish, app, session, body, no_crates}
use crates_io.Deletion.{
  Archive, hour, max_downloads, get_crate_downloads, has_rev_dep, deletable, without_owners,
  without_versions, delete_rows, delete_crate,
}
use crates_io.Deletion.Allowed.{Deletable, delete_crate-Deletable}
use crates_io.Deletion.Rows.{RefersTo}
use crates_io.Deletion.Referential.{Outcome, delete_crate-IsReferential}
use crates_io.Deletion.Reserved.{delete_crate-Reserved}

run : Unit {0}
unfolding run_publish max_downloads get_crate_downloads has_rev_dep deletable without_owners
    without_versions delete_rows delete_crate email
run = tt

abbrev bar : Crate
bar = record {
  id = 4;
  name = codes "bar-x";
  description = none;
  homepage = none;
  documentation = none;
  readme = none;
  repository = none;
  max_upload_size = none;
  max_features = none;
  trustpub_only = false;
}

abbrev owner_row : CrateOwner
owner_row = record {
  crate_id = 4;
  owner_id = 3;
  created_by = 3;
  owner_kind = user_kind;
  deleted = false;
}

abbrev archive : Archive
archive = record {
  tables = record no_crates {
    registry = record no_crates.registry {
      rows = record no_crates.registry.rows { crates = bar ∷ []; crate_owners = owner_row ∷ [] };
    };
    next_crate_id = 5;
  };
  created_at = λ id. 0;
  crate_downloads = (4, pos 2000) ∷ [];
  sent = [];
}

-- Twenty days later, one month has begun.
abbrev at_time : ℕ
at_time = 480 * hour

too_popular :
    (delete_crate app.server at_time (codes "BAR_X") session archive).0
    ≡ err (
        custom 422
          "only crates with less than 1000 downloads per month can be deleted after 72 hours" [])
unfolding run
too_popular = refl

abbrev unpopular : Archive
unpopular = record archive { crate_downloads = (4, pos 1000) ∷ [] }

deleted : (delete_crate app.server at_time (codes "BAR_X") session unpopular).0 ≡ ok tt
unfolding run
deleted = refl

-- The crate is bar-x, the files to delete are those of BAR_X.
jobs :
    (delete_crate app.server at_time (codes "BAR_X") session unpopular).1.tables.registry.jobs
    ≡ delete_crate_from_storage (codes "BAR_X")
      ∷ sync_to_sparse_index (codes "bar-x")
      ∷ sync_to_git_index (codes "bar-x")
      ∷ []
unfolding run
jobs = refl

delete_crate-Deletable_example :
    (u : User) × (krate : Crate) × ((check app.server.sha256 app.server.allowed_origins at_time
        only_cookie session unpopular.tables.registry.rows.conn).0
      ≡ ok (cookie u))
    × Deletable app.server at_time (codes "BAR_X") u unpopular krate
delete_crate-Deletable_example =
    delete_crate-Deletable app.server at_time (codes "BAR_X") session unpopular deleted

delete_crate-IsReferential_example :
    RefersTo (delete_crate app.server at_time (codes "BAR_X") session unpopular).1
    × Outcome app.server at_time
        (codes "BAR_X")
        unpopular
        (delete_crate app.server at_time (codes "BAR_X") session unpopular).0
        (delete_crate app.server at_time (codes "BAR_X") session unpopular).1
delete_crate-IsReferential_example =
    delete_crate-IsReferential app.server at_time (codes "BAR_X") session unpopular (
      record {
        owners = (here refl, tt);
        invitations = tt;
        versions = tt;
        actions = tt;
        publishers = tt;
        dependencies = tt;
        defaults = tt;
        keywords = tt;
        categories = tt;
      },
      (here refl, tt),
    )

abbrev afterwards : Tables
afterwards = record no_crates {
  deleted_crates =
      (delete_crate app.server at_time (codes "BAR_X") session unpopular).1.tables.deleted_crates;
}

abbrev foo : Crate
foo = record bar {
  id = 1;
  name = codes "foo";
  description = some (codes "A crate");
  repository = some (codes "https://example.com/foo");
}

abbrev good : GoodCrate
good = record { krate = foo; default_version = codes "1.0.0"; num_versions = 1 }

published : (publish app (at_time + hour) session body afterwards).0 ≡ ok good
unfolding run
published = refl

delete_crate-Reserved_example :
    canon_crate_name app.server.lower (codes "foo")
    ≢ canon_crate_name app.server.lower (codes "BAR_X")
delete_crate-Reserved_example =
    delete_crate-Reserved app at_time (codes "BAR_X") session unpopular deleted (at_time + hour)
      session body afterwards good (omega arith) refl published
