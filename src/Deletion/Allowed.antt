-- ===== src/Deletion/Allowed.antt =====
-- Who deletes which crates.
use crates_io.Prelude.{
  ℕ, ◌≤◌, ◌-◌, ◌*◌, ◌≡◌, ◌≢◌, refl, ◌∙◌, ap, subst, ◌⊎◌, inl, inr, Text, Option, none, some, List,
  [], ◌∷◌, length, Bool-cases, All, ok, err, arith, ◌==◌, ltb, >>=-eq-ok, if-eq-ok, ok-eq,
}
use crates_io.Errors.{AppResult}
use crates_io.Database.User.{User}
use crates_io.Database.Krate.{Crate, by_name}
use crates_io.Database.Owners.{owners}
use crates_io.Database.Owners.Live.{IsUserOwner}
use crates_io.Auth.{Parts, Conn, Authentication, cookie, token, check, only_cookie}
use crates_io.Auth
use crates_io.Auth.Sessions.{Passes, check-Genuine}
use crates_io.Auth.Writes.{check-writes}
use crates_io.Rights.{Rights, no_rights, publish, full, get}
use crates_io.Rights.Grant.{get-full_sound}
use crates_io.Owners.Base.{Server}
use crates_io.Owners.Modify.{find_crate}
use crates_io.Publish.Tables.{DependencyRow}
use crates_io.Deletion.{
  Archive, hour, get_crate_downloads, max_downloads, has_rev_dep, ensure_owner, ensure_unused,
  ensure_young, ensure_no_rev_dep, deletable, delete_found, delete_as, set_conn, delete_crate,
}

ensure_owner-ok : (r : Rights) → ensure_owner r ≡ ok tt → r ≡ full
ensure_owner-ok full e = refl
ensure_owner-ok publish e = cc
ensure_owner-ok no_rights e = cc

-- Young, or with one owner and few downloads.
abbrev pub IsUnused : ℕ → ℕ → ℕ → Type 0
IsUnused age owner_count downloads =
    (age ≤ 72 * hour) ⊎ ((owner_count ≤ 1) × (downloads ≤ max_downloads age))

ensure_young-ok :
    (age owner_count downloads : ℕ)
    → ensure_young age owner_count downloads ≡ ok tt
    → IsUnused age owner_count downloads
ensure_young-ok age owner_count downloads h = elim (Bool-cases (ltb (72 * hour) age)) [
  | inl e ↦
      let unused : ensure_unused age owner_count downloads ≡ ok tt = ground (arith, h, e) in
      let (few, rest) = if-eq-ok (ltb 1 owner_count) _ _ tt unused in
      let (rare, _) = if-eq-ok (ltb (max_downloads age) downloads) _ (ok tt) tt rest in
      inr (ground (arith, few), ground (arith, rare))
  | inr e ↦ inl (ground (arith, e))
]

no_rev_dep :
    (rows : List DependencyRow) (id : ℕ)
    → ensure_no_rev_dep (has_rev_dep rows id) ≡ ok tt
    → All (λ (d : DependencyRow). d.crate_id ≢ id) rows
unfolding has_rev_dep
no_rev_dep [] id h = tt
no_rev_dep (d ∷ rows) id h = elim (Bool-cases (d.crate_id == id)) [
  | inl e ↦ absurd (ground (arith, h, e))
  | inr e ↦ (λ same. ground (arith, e, same), no_rev_dep rows id (ground (arith, h, e)))
]

-- What the tests behind the authentication show.
abbrev DeletableBy : List User → Server → ℕ → Text → User → Archive → Crate → Type 0
DeletableBy users server now name u s krate =
    (by_name server.lower s.tables.registry.rows.crates name ≡ some krate)
    × IsUserOwner krate.id u.id s.tables.registry.rows.crate_owners
    × All (λ (d : DependencyRow). d.crate_id ≢ krate.id) s.tables.dependencies
    × IsUnused (now - s.created_at krate.id)
        (length
          (owners users s.tables.registry.rows.teams s.tables.registry.rows.crate_owners krate.id))
        (get_crate_downloads s.crate_downloads krate.id)

abbrev pub Deletable : Server → ℕ → Text → User → Archive → Crate → Type 0
Deletable server now name u s krate =
    DeletableBy s.tables.registry.rows.conn.users server now name u s krate

find_crate-ok :
    (name : Text) (o : Option Crate) (krate : Crate) → find_crate name o ≡ ok krate → o ≡ some krate
find_crate-ok name none krate e = cc
find_crate-ok name (some k) krate e = cc

pub deletable_sound :
    (server : Server) (now : ℕ) (name : Text) (u : User) (s : Archive) (krate : Crate)
    → deletable server now name u s ≡ ok krate
    → Deletable server now name u s krate
unfolding deletable
deletable_sound server now name u s krate h =
    let rows = s.tables.registry.rows in
    let (k, found, h1) = >>=-eq-ok (find_crate name (by_name server.lower rows.crates name)) _ h in
    let list = owners rows.conn.users rows.teams rows.crate_owners k.id in
    let (rights, answered, h2) = >>=-eq-ok (get server.decrypt server.github u list) _ h1 in
    let (_, owner, h3) = >>=-eq-ok (ensure_owner rights) _ h2 in
    let (_, young, h4) =
      >>=-eq-ok
        (ensure_young (now - s.created_at k.id) (length list)
          (get_crate_downloads s.crate_downloads k.id))
        _ h3 in
    let (_, free, h5) =
      >>=-eq-ok (ensure_no_rev_dep (has_rev_dep s.tables.dependencies k.id)) _ h4 in
    subst (Deletable server now name u s) (ok-eq k krate h5) (
      find_crate-ok name _ k found,
      get-full_sound server.decrypt server.github u rows.conn.users rows.teams rows.crate_owners
          k.id (answered ∙ ap ok (ensure_owner-ok rights owner)),
      no_rev_dep s.tables.dependencies k.id free,
      ensure_young-ok _ _ _ young,
    )

by_session : (auth : Authentication) → Passes only_cookie auth → (u : User) × (auth ≡ cookie u)
by_session (cookie u) p = (u, refl)
by_session (token t u) p = absurd (ground (arith, p.token_allowed))

delete_found-ok :
    (now : ℕ) (name : Text) (u : User) (r : AppResult Crate) (s : Archive)
    → (delete_found now name u r s).0 ≡ ok tt
    → (krate : Crate) × (r ≡ ok krate)
delete_found-ok now name u (err e) s h = cc
delete_found-ok now name u (ok krate) s h = (krate, refl)

delete_as-ok :
    (server : Server) (now : ℕ) (name : Text) (auth : AppResult Authentication) (s : Archive)
    → (delete_as server now name auth s).0 ≡ ok tt
    → (a : Authentication) × (krate : Crate) × (auth ≡ ok a)
      × (deletable server now name (Auth.user a) s ≡ ok krate)
delete_as-ok server now name (err e) s h = cc
delete_as-ok server now name (ok a) s h =
    let (krate, found) =
      delete_found-ok now name (Auth.user a) (deletable server now name (Auth.user a) s) s h in
    (a, krate, refl, found)

-- A request to delete a crate that succeeds comes from the session of an individual owner of the crate that the name
-- finds. No dependency, of whatever version, is on that crate; and the crate was created at most 72 hours ago, or it has
-- one owner at most and no more downloads than 1000 for each 30 days that have begun since, in whole days.
pub delete_crate-Deletable :
    (server : Server) (now : ℕ) (name : Text) (parts : Parts) (s : Archive)
    → (delete_crate server now name parts s).0 ≡ ok tt
    → (u : User) × (krate : Crate) × ((check server.sha256 server.allowed_origins now only_cookie
          parts s.tables.registry.rows.conn).0
        ≡ ok (cookie u))
      × Deletable server now name u s krate
unfolding delete_crate
delete_crate-Deletable server now name parts s h =
    let conn = s.tables.registry.rows.conn in
    let checked = check server.sha256 server.allowed_origins now only_cookie parts conn in
    let (a, krate, authenticated, found) =
      delete_as-ok server now name checked.0 (set_conn checked.1 s) h in
    let (_, _, passes) =
      check-Genuine server.sha256 server.allowed_origins now only_cookie parts conn a
        authenticated in
    let (u, session) = by_session a passes in
    let same_user : Auth.user a ≡ u = ap Auth.user session in
    let users = (check-writes server.sha256 server.allowed_origins now only_cookie parts conn).0 in
    let sound = deletable_sound server now name (Auth.user a) (set_conn checked.1 s) krate found in
    (
      u,
      krate,
      authenticated ∙ ap ok session,
      subst (λ us. DeletableBy us server now name u s krate) users
          (subst (λ v. DeletableBy checked.1.users server now name v s krate) same_user sound),
    )
