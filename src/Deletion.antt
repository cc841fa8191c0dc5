-- ===== src/Deletion.antt =====
-- src/controllers/krate/delete.rs: a crate is deleted. The rows that refer to the crate go with it, as the foreign keys of
-- migrations/20170708133715_ensure_crate_id_foreign_keys_cascade and 20170708135123_ensure_version_id_foreign_keys_cascade
-- say. Of a row of `deleted_crates` only the columns that publishing reads are kept. Times are microseconds. Of the
-- e-mail, whose failure changes nothing, only the recipient and the crate are kept.
-- The deferred constraint of `default_versions` on versions, which holds where a default version is of its own crate, is
-- not tried.
pub mod Allowed
pub mod Rows
pub mod Referential
pub mod Reserved
mod Tests
use crates_io.Prelude.{
  ℕ, ◌+◌, ◌-◌, ◌*◌, ◌/◌, ◌^◌, Text, Option, none, some, List, [], ◌∷◌, keep, any, length, Bool,
  true, false, not, ◌&&◌, ◌||◌, ◌==◌, ltb, if◌then◌else◌, text_eq, Result, ok, err, ◌>>=◌, ◌>>◌, ℤ,
  pos, negsuc,
}
use crates_io.Errors.{AppResult, custom}
use crates_io.Database.User.{User}
use crates_io.Database.Krate.{Crate, by_name}
use crates_io.Database.Owners.{Owner, Email, owners}
use crates_io.Auth.{Parts, Conn, Authentication, check, only_cookie}
use crates_io.Auth
use crates_io.Rights.{Rights, no_rights, publish, full, get}
use crates_io.Owners.Base.{Server, State}
use crates_io.Owners.Modify.{find_crate}
use crates_io.Yank.{
  Version, Registry, sync_to_git_index, sync_to_sparse_index, delete_crate_from_storage,
}
use crates_io.Publish.Tables.{Tables, DeletedCrate, DependencyRow}
use crates_io.Tokens.{email}

-- The tables, with the column `created_at` of `crates` by id, and the crates' numbers of downloads.
pub record Archive : Type 0 where
  pub tables : Tables
  pub created_at : ℕ → ℕ
  pub crate_downloads : List (ℕ × ℤ)
  -- The e-mails about deletions, newest first: recipient and crate.
  pub sent : List (Text × Text)

abbrev pub hour : ℕ
hour = 3600000000

abbrev pub downloads_per_month_limit : ℕ
downloads_per_month_limit = 1000

abbrev pub available_after : ℕ
available_after = 24 * hour

abbrev pub find_downloads : List (ℕ × ℤ) → ℕ → Option ℤ
find_downloads [] crate_id = none
find_downloads ((id, downloads) ∷ rows) crate_id =
    if id == crate_id then some downloads else find_downloads rows crate_id

-- `to_u64().unwrap_or(u64::MAX)`, of no row zero.
abbrev pub to_u64 : Option ℤ → ℕ
to_u64 none = 0
to_u64 (some (pos n)) = n
to_u64 (some (negsuc n)) = 2 ^ 64 - 1

-- `get_crate_downloads`
unfoldable pub get_crate_downloads : List (ℕ × ℤ) → ℕ → ℕ
get_crate_downloads rows crate_id = to_u64 (find_downloads rows crate_id)

-- `max_downloads`: each 30 days that have begun count, in whole days.
unfoldable pub max_downloads : ℕ → ℕ
max_downloads age = downloads_per_month_limit * ((age / (24 * hour) + 29) / 30)

-- `has_rev_dep`
unfoldable pub has_rev_dep : List DependencyRow → ℕ → Bool
has_rev_dep rows crate_id = any (λ (d : DependencyRow). d.crate_id == crate_id) rows

abbrev pub ensure_owner : Rights → AppResult (Unit {0})
ensure_owner full = ok tt
ensure_owner publish = err (custom 403 "team members don't have permission to delete crates" [])
ensure_owner no_rights = err (custom 403 "only owners have permission to delete crates" [])

-- The tests of a crate that is older than 72 hours.
abbrev pub ensure_unused : ℕ → ℕ → ℕ → AppResult (Unit {0})
ensure_unused age owner_count downloads =
    if ltb 1 owner_count
    then err (custom 422 "only crates with a single owner can be deleted after 72 hours" [])
    else if ltb (max_downloads age) downloads
    then err (
        custom 422
          "only crates with less than 1000 downloads per month can be deleted after 72 hours" [])
    else ok tt

abbrev pub ensure_young : ℕ → ℕ → ℕ → AppResult (Unit {0})
ensure_young age owner_count downloads =
    if ltb (72 * hour) age then ensure_unused age owner_count downloads else ok tt

abbrev pub ensure_no_rev_dep : Bool → AppResult (Unit {0})
ensure_no_rev_dep true =
    err (custom 422 "only crates without reverse dependencies can be deleted" [])
ensure_no_rev_dep false = ok tt

-- The tests of `delete_crate` behind the authentication.
unfoldable pub deletable : Server → ℕ → Text → User → Archive → AppResult Crate
unfolding by_name owners get get_crate_downloads max_downloads has_rev_dep
deletable server now name u s = do
  let rows = s.tables.registry.rows
  krate ← find_crate name (by_name server.lower rows.crates name)
  let list = owners rows.conn.users rows.teams rows.crate_owners krate.id
  rights ← get server.decrypt server.github u list
  ensure_owner rights
  ensure_young (now - s.created_at krate.id) (length list)
      (get_crate_downloads s.crate_downloads krate.id)
  ensure_no_rev_dep (has_rev_dep s.tables.dependencies krate.id)
  ok krate

abbrev pub is_version_id : ℕ → List Version → ℕ → Bool
is_version_id crate_id versions id =
    any (λ (v : Version). v.id == id && v.crate_id == crate_id) versions

-- The rows of `crates` and what belongs to it, without the crate.
unfoldable pub without_owners : ℕ → State → State
without_owners id rows = record rows {
  crates = keep (λ (k : Crate). not (k.id == id)) rows.crates;
  crate_owners = keep (λ o. not (o.crate_id == id)) rows.crate_owners;
  crate_owner_invitations = keep (λ i. not (i.crate_id == id)) rows.crate_owner_invitations;
}

unfoldable pub without_versions : ℕ → Registry → Registry
unfolding without_owners
without_versions id r = record r {
  rows = without_owners id r.rows;
  versions = keep (λ (v : Version). not (v.crate_id == id)) r.versions;
  version_owner_actions =
      keep (λ a. not (is_version_id id r.versions a.version_id)) r.version_owner_actions;
}

-- The deletion from `crates`, with what follows by the foreign keys.
unfoldable pub delete_rows : ℕ → Tables → Tables
unfolding without_versions
delete_rows id s = record s {
  registry = without_versions id s.registry;
  versions_published_by =
      keep (λ row. not (is_version_id id s.registry.versions row.0)) s.versions_published_by;
  dependencies =
      keep
        (λ (d : DependencyRow).
          not (d.crate_id == id || is_version_id id s.registry.versions d.version_id))
        s.dependencies;
  default_versions = keep (λ row. not (row.crate_id == id)) s.default_versions;
  crates_keywords = keep (λ row. not (row.0 == id)) s.crates_keywords;
  crates_categories = keep (λ row. not (row.0 == id)) s.crates_categories;
}

-- The rest of the transaction: the name is kept back for a day, and three jobs are enqueued.
abbrev pub record_deletion : ℕ → Text → Crate → Tables → Tables
record_deletion now name krate s = record s {
  registry = record s.registry {
    jobs =
        delete_crate_from_storage name
        ∷ sync_to_sparse_index krate.name
        ∷ sync_to_git_index krate.name
        ∷ s.registry.jobs;
  };
  deleted_crates =
      record { name = krate.name; available_at = now + available_after } ∷ s.deleted_crates;
}

abbrev pub mail : Option Text → Crate → Archive → Archive
mail none krate s = s
mail (some recipient) krate s = record s { sent = (recipient, krate.name) ∷ s.sent }

abbrev pub delete_found :
    ℕ → Text → User → AppResult Crate → Archive → AppResult (Unit {0}) × Archive
delete_found now name u (err e) s = (err e, s)
delete_found now name u (ok krate) s = (
  ok tt,
  mail (email s.tables.registry.rows.emails u.id) krate (record s {
    tables = record_deletion now name krate (delete_rows krate.id s.tables);
    crate_downloads = keep (λ row. not (row.0 == krate.id)) s.crate_downloads;
  }),
)

abbrev pub delete_as :
    Server → ℕ → Text → AppResult Authentication → Archive → AppResult (Unit {0}) × Archive
delete_as server now name (err e) s = (err e, s)
delete_as server now name (ok auth) s =
    delete_found now name (Auth.user auth) (deletable server now name (Auth.user auth) s) s

abbrev pub set_conn : Conn → Archive → Archive
set_conn conn s = record s {
  tables = record s.tables {
    registry = record s.tables.registry { rows = record s.tables.registry.rows { conn = conn } };
  };
}

-- `delete_crate`
unfoldable pub delete_crate : Server → ℕ → Text → Parts → Archive → AppResult (Unit {0}) × Archive
unfolding check deletable delete_rows email
delete_crate server now name parts s =
    let (auth, conn) =
      check server.sha256 server.allowed_origins now only_cookie parts
        s.tables.registry.rows.conn in
    delete_as server now name auth (set_conn conn s)
