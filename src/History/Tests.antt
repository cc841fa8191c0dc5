-- ===== src/History/Tests.antt =====
-- A crate is published, yanked and deleted.
use crates_io.Prelude.{◌≡◌, refl, true, [], ◌∷◌, codes, map}
use crates_io.Yank.Refused.{modify, served}
use crates_io.Publish.Tables.{Tables}
use crates_io.Publish.Handler.{publish}
use crates_io.Publish.Unique.{IsWellFormed}
use crates_io.Publish.Examples.{run_publish, app, session, body, no_crates, lower}
use crates_io.Deletion.{
  Archive, max_downloads, get_crate_downloads, has_rev_dep, deletable, without_owners,
  without_versions, delete_rows, delete_crate,
}
use crates_io.Tokens.{email}
use crates_io.Yank.{load_version_and_crate, find_version, perform_version_yank_update}
use crates_io.Yank.Requests.{modify_yank, yank_authenticated}
use crates_io.History.{Steps, publishes, yanks, deletes, done, next}
use crates_io.History.Keeps.{Keeps}
use crates_io.History.Permanent.{Steps-Keeps}
use crates_io.History.Numbers.{Steps-WellFormed}

run : Unit {0}
unfolding run_publish max_downloads get_crate_downloads has_rev_dep deletable without_owners
    without_versions delete_rows delete_crate email modify_yank yank_authenticated
    load_version_and_crate find_version perform_version_yank_update
run = tt

abbrev published : Tables
published = (publish app 0 session body no_crates).1

abbrev withdrawn : Tables
withdrawn = record published {
  registry =
      (served app.server app.rate_limiter 1 (codes "foo") (codes "1.0.0") session (modify true)
        published.registry).1;
}

-- The version is yanked.
yanked : map (λ v. v.yanked) withdrawn.registry.versions ≡ true ∷ []
unfolding run
yanked = refl

abbrev archive : Archive
archive = record { tables = withdrawn; created_at = λ id. 0; crate_downloads = []; sent = [] }

abbrev left : Tables
left = (delete_crate app.server 2 (codes "Foo") session archive).1.tables

-- Nothing is left of the crate.
deleted : left.registry.versions ≡ []
unfolding run
deleted = refl

afterwards : Steps app published left
afterwards =
    next {t = withdrawn} 1 (yanks (codes "foo") (codes "1.0.0") session (modify true) refl)
      (next {t = left} 2 (deletes (codes "Foo") session archive refl refl) done)

Steps-Keeps_example : Keeps published left
Steps-Keeps_example = Steps-Keeps app published left afterwards

Steps-WellFormed_example : IsWellFormed lower left
Steps-WellFormed_example =
    Steps-WellFormed app no_crates left
      (next {t = published} 0 (publishes session body refl) afterwards) ((tt, tt), (tt, tt, tt))
