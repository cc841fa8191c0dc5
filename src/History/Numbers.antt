-- ===== src/History/Numbers.antt =====
-- Names of crates and numbers of versions are taken once, whatever is requested.
use crates_io.Prelude.{
  ℕ, ◌<◌, ◌≡◌, refl, sym, subst, Text, List, map, not, ◌==◌, ok, err, All, All-map, All-unmap,
  All-keep, Distinct, Distinct-map, Distinct-unmap, Distinct-keep,
}
use crates_io.Errors.{AppResult}
use crates_io.Database.User.{User}
use crates_io.Database.Krate.{Crate}
use crates_io.Auth.{Parts, Authentication, check, only_cookie}
use crates_io.Auth
use crates_io.Owners.Base.{Server}
use crates_io.Yank.{Version}
use crates_io.Yank.Refused.{served}
use crates_io.Publish.Tables.{Tables, App}
use crates_io.Publish.Numbers.{IsStripped, SameNumber}
use crates_io.Publish.Unique.{SameName, VersionsWellFormed, IsWellFormed, publish-WellFormed}
use crates_io.Tokens.{email}
use crates_io.Deletion.{
  Archive, deletable, without_owners, without_versions, delete_rows, record_deletion, delete_found,
  delete_as, set_conn, delete_crate,
}
use crates_io.Deletion.Rows.{mail-tables}
use crates_io.History.{Step, Steps, publishes, yanks, deletes, done, next}
use crates_io.History.Keeps.{settle}
use crates_io.History.Yanked.{served-Settled}

-- Versions that differ in what is yanked only.
settled-WellFormed :
    (s s' : Tables)
    → map settle s'.registry.versions ≡ map settle s.registry.versions
    → s'.next_version_id ≡ s.next_version_id
    → VersionsWellFormed s
    → VersionsWellFormed s'
settled-WellFormed s s' e same_next (distinct, below, columns) = (
  Distinct-unmap {Same = SameNumber} settle (λ a b h. h) s'.registry.versions
      (subst (Distinct SameNumber) (sym e)
        (Distinct-map settle (λ a b h. h) s.registry.versions distinct)),
  All-unmap (λ v. v.id < s'.next_version_id) settle (λ a h. h) s'.registry.versions
      (subst (All (λ v. v.id < s'.next_version_id)) (sym e) (
        All-map (λ v. v.id < s'.next_version_id) settle
          (λ a h. subst (λ n. a.id < n) (sym same_next) h) s.registry.versions below)),
  All-unmap (λ v. IsStripped v.num v.num_no_build) settle (λ a h. h) s'.registry.versions
      (subst (All (λ v. IsStripped v.num v.num_no_build)) (sym e) (
        All-map (λ v. IsStripped v.num v.num_no_build) settle (λ a h. h) s.registry.versions
          columns)),
)

delete_rows-WellFormed :
    (lower : Text → Text) (now : ℕ) (name : Text) (krate : Crate) (s : Tables)
    → IsWellFormed lower s
    → IsWellFormed lower (record_deletion now name krate (delete_rows krate.id s))
unfolding delete_rows without_versions without_owners
delete_rows-WellFormed lower now name krate s
      ((names, crates_below), (numbers, versions_below, columns)) =
    (
      (
        Distinct-keep (SameName lower) (λ (k : Crate). not (k.id == krate.id))
            s.registry.rows.crates names,
        All-keep (λ (k : Crate). not (k.id == krate.id)) (λ k e h. h) s.registry.rows.crates
            crates_below,
      ),
      (
        Distinct-keep SameNumber (λ (v : Version). not (v.crate_id == krate.id)) s.registry.versions
            numbers,
        All-keep (λ (v : Version). not (v.crate_id == krate.id)) (λ v e h. h) s.registry.versions
            versions_below,
        All-keep (λ (v : Version). not (v.crate_id == krate.id)) (λ v e h. h) s.registry.versions
            columns,
      ),
    )

delete_found-WellFormed :
    (lower : Text → Text) (now : ℕ) (name : Text) (u : User) (found : AppResult Crate) (s : Archive)
    → IsWellFormed lower s.tables
    → IsWellFormed lower (delete_found now name u found s).1.tables
delete_found-WellFormed lower now name u (err e) s w = w
delete_found-WellFormed lower now name u (ok krate) s w =
    subst (IsWellFormed lower)
      (sym (mail-tables (email s.tables.registry.rows.emails u.id) krate _))
      (delete_rows-WellFormed lower now name krate s.tables w)

delete_as-WellFormed :
    (server : Server) (now : ℕ) (name : Text) (auth : AppResult Authentication) (s : Archive)
    → IsWellFormed server.lower s.tables
    → IsWellFormed server.lower (delete_as server now name auth s).1.tables
delete_as-WellFormed server now name (err e) s w = w
delete_as-WellFormed server now name (ok a) s w =
    delete_found-WellFormed server.lower now name (Auth.user a)
      (deletable server now name (Auth.user a) s) s w

delete_crate-WellFormed :
    (server : Server) (now : ℕ) (name : Text) (parts : Parts) (s : Archive)
    → IsWellFormed server.lower s.tables
    → IsWellFormed server.lower (delete_crate server now name parts s).1.tables
unfolding delete_crate
delete_crate-WellFormed server now name parts s w =
    let checked =
      check server.sha256 server.allowed_origins now only_cookie parts
        s.tables.registry.rows.conn in
    delete_as-WellFormed server now name checked.0 (set_conn checked.1 s) w

Step-WellFormed :
    (app : App) (now : ℕ) (s s' : Tables)
    → Step app now s s'
    → IsWellFormed app.server.lower s
    → IsWellFormed app.server.lower s'
Step-WellFormed app now s s' (publishes parts reader e) w =
    subst (IsWellFormed app.server.lower) e (publish-WellFormed app now parts reader s w)
Step-WellFormed app now s s' (yanks name num parts endpoint e) (crates, versions) =
    let t : Tables = record s {
      registry = (served app.server app.rate_limiter now name num parts endpoint s.registry).1;
    } in
    let (same, settled) =
      served-Settled app.server app.rate_limiter now name num parts endpoint s.registry in
    subst (IsWellFormed app.server.lower) e (
      subst
          (λ (ks : List Crate).
            Distinct (SameName app.server.lower) ks × All (λ k. k.id < s.next_crate_id) ks)
          (sym same) crates,
      settled-WellFormed s t settled refl versions,
    )
Step-WellFormed app now s s' (deletes name parts a e e') w =
    subst (IsWellFormed app.server.lower) e' (
      delete_crate-WellFormed app.server now name parts a
        (subst (IsWellFormed app.server.lower) (sym e) w))

-- Whatever is published, yanked and deleted, one request after another and with any outcome: it is still so that no two
-- crates have names that differ only in case, dashes and underscores, that no crate has two versions whose numbers
-- differ in build metadata only or not at all, that the column num_no_build is the number without build metadata, which
-- follow a +, and that the ids given are below the next ones.
pub Steps-WellFormed :
    (app : App) (s t : Tables)
    → Steps app s t
    → IsWellFormed app.server.lower s
    → IsWellFormed app.server.lower t
Steps-WellFormed app s t done w = w
Steps-WellFormed app s t (next {t = m} now first rest) w =
    Steps-WellFormed app m t rest (Step-WellFormed app now s m first w)
