-- ===== src/Deletion/Referential.antt =====
-- A deletion leaves no row that refers to what is gone.
use crates_io.Prelude.{
  ◌+◌, ◌∷◌, keep, not, ◌==◌, ap, ◌∙◌, ℤ, ℕ, ◌≡◌, refl, sym, subst, Text, some, ok, err,
}
use crates_io.Errors.{AppResult}
use crates_io.Database.User.{User}
use crates_io.Database.Krate.{Crate, by_name}
use crates_io.Auth.{Parts, Conn, Authentication, check, only_cookie}
use crates_io.Auth
use crates_io.Auth.Writes.{check-writes}
use crates_io.Owners.Base.{Server}
use crates_io.Publish.Refused.{SameConn}
use crates_io.Deletion.Allowed.{deletable_sound}
use crates_io.Tokens.{email}
use crates_io.Publish.Tables.{Tables}
use crates_io.Deletion.{
  available_after, Archive, mail, deletable, delete_rows, record_deletion, delete_found, delete_as,
  set_conn, delete_crate,
}
use crates_io.Yank.{sync_to_git_index, sync_to_sparse_index, delete_crate_from_storage}
use crates_io.Deletion.Rows.{
  RefersTo, HasCrates, delete_rows-HasCrates, mail-downloads, HasCrate, IsReferential,
  delete_rows-IsReferential, gone, mail-tables,
}

-- What each outcome leaves: no crate with the id of the deleted one, its name kept back, and three jobs; or, behind an
-- error, the archive as it was but for what the check of the request writes.
abbrev pub Outcome : Server → ℕ → Text → Archive → AppResult (Unit {0}) → Archive → Type 0
Outcome server now name s (ok _) s' =
    (krate : Crate) × (by_name server.lower s.tables.registry.rows.crates name ≡ some krate)
    × (¬ HasCrate s'.tables krate.id)
    × (s'.tables.deleted_crates
        ≡ record { name = krate.name; available_at = now + available_after }
          ∷ s.tables.deleted_crates)
    × (s'.tables.registry.jobs
        ≡ delete_crate_from_storage name
          ∷ sync_to_sparse_index krate.name
          ∷ sync_to_git_index krate.name
          ∷ s.tables.registry.jobs)
Outcome server now name s (err e) s' =
    (conn : Conn) × SameConn s.tables.registry.rows.conn conn × (s' ≡ set_conn conn s)

set_conn-IsReferential :
    (conn : Conn) (s : Archive) → IsReferential s.tables → IsReferential (set_conn conn s).tables
set_conn-IsReferential conn s r = record {
  owners = r.owners;
  invitations = r.invitations;
  versions = r.versions;
  actions = r.actions;
  publishers = r.publishers;
  dependencies = r.dependencies;
  defaults = r.defaults;
  keywords = r.keywords;
  categories = r.categories;
}

record_deletion-IsReferential :
    (now : ℕ) (name : Text) (krate : Crate) (s : Tables)
    → IsReferential s
    → IsReferential (record_deletion now name krate s)
record_deletion-IsReferential now name krate s r = record {
  owners = r.owners;
  invitations = r.invitations;
  versions = r.versions;
  actions = r.actions;
  publishers = r.publishers;
  dependencies = r.dependencies;
  defaults = r.defaults;
  keywords = r.keywords;
  categories = r.categories;
}

deletion-gone :
    (now : ℕ) (name : Text) (krate : Crate) (s : Tables)
    → ¬ HasCrate (record_deletion now name krate (delete_rows krate.id s)) krate.id
deletion-gone now name krate s a = gone krate.id s a

module _ (server : Server) (now : ℕ) (name : Text) (s : Archive) (conn : Conn)
    (same : SameConn s.tables.registry.rows.conn conn) (before : RefersTo s) where
  abbrev Holds : AppResult (Unit {0}) × Archive → Type 0
  Holds (r, s') = RefersTo s' × Outcome server now name s r s'

  delete_found-Holds :
      (u : User) (r : AppResult Crate)
      → deletable server now name u (set_conn conn s) ≡ r
      → Holds (delete_found now name u r (set_conn conn s))
  delete_found-Holds u (err e) found =
      ((set_conn-IsReferential conn s before.0, before.1), (conn, same, refl))
  delete_found-Holds u (ok krate) found =
      let start = (set_conn conn s).tables in
      let after = record_deletion now name krate (delete_rows krate.id start) in
      let downloads = keep (λ (row : ℕ × ℤ). not (row.0 == krate.id)) s.crate_downloads in
      let to = email s.tables.registry.rows.emails u.id in
      let left : Archive = record (set_conn conn s) {
        tables = after;
        crate_downloads = downloads;
      } in
      let mailed = mail-tables to krate left in
      (
        (
          subst IsReferential (sym mailed) (
              record_deletion-IsReferential now name krate (delete_rows krate.id start) (
                delete_rows-IsReferential krate.id start (set_conn-IsReferential conn s before.0))),
          subst (λ t. HasCrates t (mail to krate left).crate_downloads) (sym mailed)
              (subst (HasCrates after) (sym (mail-downloads to krate left))
                (delete_rows-HasCrates krate.id start s.crate_downloads before.1)),
        ),
        (
          krate,
          (deletable_sound server now name u (set_conn conn s) krate found).0,
          subst (λ (t : Tables). ¬ HasCrate t krate.id) (sym mailed)
              (deletion-gone now name krate start),
          ap (λ (t : Tables). t.deleted_crates) mailed ∙ unfold delete_rows in refl,
          ap (λ (t : Tables). t.registry.jobs) mailed ∙ unfold delete_rows in refl,
        ),
      )

  delete_as-Holds :
      (auth : AppResult Authentication) → Holds (delete_as server now name auth (set_conn conn s))
  delete_as-Holds (err e) = ((set_conn-IsReferential conn s before.0, before.1), (conn, same, refl))
  delete_as-Holds (ok a) =
      delete_found-Holds (Auth.user a) (deletable server now name (Auth.user a) (set_conn conn s))
        refl

-- The rows of owners, invitations, versions, their recorded actions and publishers, dependencies, default versions,
-- keywords, categories and numbers of downloads all name crates and versions that there are, and default versions are of
-- their crates: then so it is after a request to delete a crate. A request that succeeds leaves no crate with the id of
-- the one that the name found, so that none of those rows refers to it, keeps the crate's own name back for 24
-- hours, and enqueues three jobs: those of the index by the crate's own name, that of the storage by the name as the request
-- spelt it. One that fails leaves everything as it was, but for the times that tokens were last used at.
pub delete_crate-IsReferential :
    (server : Server) (now : ℕ) (name : Text) (parts : Parts) (s : Archive)
    → RefersTo s
    → RefersTo (delete_crate server now name parts s).1
      × Outcome server now name s
          (delete_crate server now name parts s).0
          (delete_crate server now name parts s).1
unfolding delete_crate
delete_crate-IsReferential server now name parts s before =
    let conn = s.tables.registry.rows.conn in
    let checked = check server.sha256 server.allowed_origins now only_cookie parts conn in
    delete_as-Holds server now name s checked.1
      (check-writes server.sha256 server.allowed_origins now only_cookie parts conn) before
      checked.0
