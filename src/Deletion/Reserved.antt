-- ===== src/Deletion/Reserved.antt =====
-- The name of a deleted crate is kept back.
use crates_io.Prelude.{
  ℕ, ◌+◌, ◌<◌, ◌≡◌, ◌≢◌, refl, sym, ◌∙◌, ap, subst, Text, some, List, [], ◌∷◌, Bool-cases, inl, inr,
  text_eq, text_eq_iff, ok, err, arith, ltb_iff, >>=-eq-ok, ok-eq, map_err, codes,
}
use crates_io.Errors.{AppResult}
use crates_io.Validation.{validate_crate_name}
use crates_io.Database.User.{User}
use crates_io.Database.Krate.{Crate, by_name, canon_crate_name}
use crates_io.Auth.{Parts, Conn, Authentication, check, only_cookie}
use crates_io.Auth
use crates_io.Owners.Base.{Server}
use crates_io.Yank.{sync_to_git_index, sync_to_sparse_index, delete_crate_from_storage}
use crates_io.Tokens.{email}
use crates_io.Publish.Body.{Reader, read_json_metadata}
use crates_io.Publish.Manifest.{crate_name_error}
use crates_io.Publish.Tables.{Tables, App, Request, GoodCrate, DeletedCrate}
use crates_io.Publish.Handler.{
  max_json_length, recently_deleted, ensure_not_deleted, parsed_version, begin, publish,
}
use crates_io.Publish.Run.{publish-Run}
use crates_io.Publish.Permission.{Run-Persisted, Run-Framed}
use crates_io.Deletion.{
  Archive, available_after, deletable, delete_rows, delete_found, delete_as, set_conn, delete_crate,
}
use crates_io.Deletion.Allowed.{deletable_sound}
use crates_io.Deletion.Rows.{mail-tables}

by_name_sound :
    (lower : Text → Text) (crates : List Crate) (name : Text) (krate : Crate)
    → by_name lower crates name ≡ some krate
    → canon_crate_name lower krate.name ≡ canon_crate_name lower name
unfolding by_name
by_name_sound lower [] name krate h = cc
by_name_sound lower (k ∷ crates) name krate h =
    elim (Bool-cases (text_eq (canon_crate_name lower k.name) (canon_crate_name lower name))) [
      | inl e ↦
          let same : k ≡ krate = ground (arith, h, e) in
          subst (λ (c : Crate). canon_crate_name lower c.name ≡ canon_crate_name lower name) same
            ((text_eq_iff (canon_crate_name lower k.name) (canon_crate_name lower name)).0 e)
      | inr e ↦ by_name_sound lower crates name krate (ground (arith, h, e))
    ]

-- A request that begins does not name a crate that was just deleted.
begin_sound :
    (app : App) (now : ℕ) (reader rest : Reader) (s : Tables) (request : Request)
    → begin app now reader s ≡ ok (request, rest)
    → ensure_not_deleted
        (recently_deleted app.server.lower now s.deleted_crates request.metadata.name)
      ≡ ok tt
unfolding begin
begin_sound app now reader rest s request h =
    let ((metadata, r), read, h₁) =
      >>=-eq-ok (read_json_metadata app.from_slice max_json_length reader) _ h in
    let (_, named, h₂) =
      >>=-eq-ok (map_err crate_name_error (validate_crate_name (codes "crate") metadata.name)) _
        h₁ in
    let (version, parsed, h₃) =
      >>=-eq-ok (parsed_version metadata.vers (app.parsers.version metadata.vers)) _ h₂ in
    let (_, free, h₄) =
      >>=-eq-ok
        (ensure_not_deleted (recently_deleted app.server.lower now s.deleted_crates metadata.name))
        _ h₃ in
    subst
      (λ x.
        ensure_not_deleted
          (recently_deleted app.server.lower now s.deleted_crates x.0.metadata.name)
        ≡ ok tt)
      (ok-eq _ (request, rest) h₄) free

kept_back :
    (lower : Text → Text) (now : ℕ) (row : DeletedCrate) (rows : List DeletedCrate) (name : Text)
    → now < row.available_at
    → ensure_not_deleted (recently_deleted lower now (row ∷ rows) name) ≡ ok tt
    → canon_crate_name lower row.name ≢ canon_crate_name lower name
unfolding recently_deleted
kept_back lower now row rows name soon h same = ground (
  arith,
  h,
  (text_eq_iff (canon_crate_name lower row.name) (canon_crate_name lower name)).1 same,
  (ltb_iff now row.available_at).1 soon,
)

-- What a deletion leaves in the tables.
abbrev pub Deleted : Server → ℕ → Text → Tables → Tables → Type 0
Deleted server now name s s' =
    (krate : Crate) × (canon_crate_name server.lower krate.name
      ≡ canon_crate_name server.lower name)
    × (s'.deleted_crates
        ≡ record { name = krate.name; available_at = now + available_after } ∷ s.deleted_crates)
    × (s'.registry.jobs
        ≡ delete_crate_from_storage name
          ∷ sync_to_sparse_index krate.name
          ∷ sync_to_git_index krate.name
          ∷ s.registry.jobs)

delete_found-Deleted :
    (server : Server) (now : ℕ) (name : Text) (u : User) (r : AppResult Crate) (s : Archive)
    → deletable server now name u s ≡ r
    → (delete_found now name u r s).0 ≡ ok tt
    → Deleted server now name s.tables (delete_found now name u r s).1.tables
unfolding delete_rows
delete_found-Deleted server now name u (err e) s found h = cc
delete_found-Deleted server now name u (ok krate) s found h =
    subst (Deleted server now name s.tables)
      (sym (mail-tables (email s.tables.registry.rows.emails u.id) krate _))
      (
        krate,
        by_name_sound server.lower s.tables.registry.rows.crates name krate
            (deletable_sound server now name u s krate found).0,
        refl,
        refl,
      )

delete_as-Deleted :
    (server : Server) (now : ℕ) (name : Text) (auth : AppResult Authentication) (s : Archive)
    → (delete_as server now name auth s).0 ≡ ok tt
    → Deleted server now name s.tables (delete_as server now name auth s).1.tables
delete_as-Deleted server now name (err e) s h = cc
delete_as-Deleted server now name (ok a) s h =
    delete_found-Deleted server now name (Auth.user a) (deletable server now name (Auth.user a) s) s
      refl h

-- A request to delete a crate that succeeds keeps the crate's own name back for 24 hours, and enqueues three jobs: those of
-- the index by the crate's own name, that of the storage by the name as the request spelt it, which differs from
-- it in case, dashes and underscores only.
pub delete_crate-Deleted :
    (server : Server) (now : ℕ) (name : Text) (parts : Parts) (s : Archive)
    → (delete_crate server now name parts s).0 ≡ ok tt
    → Deleted server now name s.tables (delete_crate server now name parts s).1.tables
unfolding delete_crate
delete_crate-Deleted server now name parts s done =
    let checked =
      check server.sha256 server.allowed_origins now only_cookie parts
        s.tables.registry.rows.conn in
    delete_as-Deleted server now name checked.0 (set_conn checked.1 s) done

-- After a crate is deleted, no publish request of the next 24 hours succeeds for a name that differs from the
-- deleted one in case, dashes and underscores only, from whatever tables with the same deleted crates.
pub delete_crate-Reserved :
    (app : App) (now : ℕ) (name : Text) (parts : Parts) (s : Archive)
    → (delete_crate app.server now name parts s).0 ≡ ok tt
    → (later : ℕ) (parts' : Parts) (reader : Reader) (t : Tables) (g : GoodCrate)
    → later < now + available_after
    → t.deleted_crates ≡ (delete_crate app.server now name parts s).1.tables.deleted_crates
    → (publish app later parts' reader t).0 ≡ ok g
    → canon_crate_name app.server.lower g.krate.name ≢ canon_crate_name app.server.lower name
delete_crate-Reserved app now name parts s done later parts' reader t g soon same h e =
    let (krate, canon, rows, jobs) = delete_crate-Deleted app.server now name parts s done in
    let run = publish-Run app later parts' reader t g h in
    let begun = begin_sound app later reader run.rest t run.request run.begun in
    let free =
      subst
        (λ rows.
          ensure_not_deleted
            (recently_deleted app.server.lower later rows run.request.metadata.name)
          ≡ ok tt)
        (same ∙ rows) begun in
    let named =
      ap (λ (k : Crate). k.name) (Run-Framed app later parts' reader t _ g run).0
      ∙ (Run-Persisted app later parts' reader t _ g run).same_name in
    kept_back app.server.lower later _ s.tables.deleted_crates run.request.metadata.name soon free
      (canon ∙ sym e ∙ ap (canon_crate_name app.server.lower) named)
