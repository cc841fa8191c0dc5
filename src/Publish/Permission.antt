-- ===== src/Publish/Permission.antt =====
-- The request, the crate and the user behind a publish request that succeeds.
use crates_io.Prelude.{
  ℕ, ◌≡◌, refl, sym, ◌∙◌, ap, subst, Text, Option, none, some, List, ok, ok-eq, >>=-eq-ok, map_err,
  codes,
}
use crates_io.Validation.{validate_crate_name}
use crates_io.Database.Krate.{Crate, by_name}
use crates_io.Database.Owners.{Email, verified_email}
use crates_io.Auth.{Parts, Conn, Authentication}
use crates_io.Auth
use crates_io.Publish.Body.{Reader, read_json_metadata}
use crates_io.Publish.Manifest.{crate_name_error}
use crates_io.Publish.Tables.{Tables, App, regular, Request, GoodCrate}
use crates_io.Publish.Access.{ensure_trustpub_only, required_email}
use crates_io.Publish.Handler.{
  begin, max_json_length, recently_deleted, ensure_not_deleted, parsed_version, verify,
}
use crates_io.Publish.Refused.{marked, authorize-conn}
use crates_io.Publish.Run.{Run}
use crates_io.Publish.Frames.{link_version-Framed, Framed}
use crates_io.Publish.Persist.{Persisted, persist_version-Persisted}

-- The request's crate is the one that its name finds.
begin-existing :
    (app : App) (now : ℕ) (reader rest : Reader) (s : Tables) (request : Request)
    → begin app now reader s ≡ ok (request, rest)
    → request.existing_crate ≡ by_name app.server.lower s.registry.rows.crates request.metadata.name
unfolding begin
begin-existing app now reader rest s request h =
    let ((metadata, r), read, h₁) =
      >>=-eq-ok (read_json_metadata app.from_slice max_json_length reader) _ h in
    let (_, named, h₂) =
      >>=-eq-ok (map_err crate_name_error (validate_crate_name (codes "crate") metadata.name)) _
        h₁ in
    let (version, parsed, h₃) =
      >>=-eq-ok (parsed_version metadata.vers (app.parsers.version metadata.vers)) _ h₂ in
    let (_, free, h₄) =
      >>=-eq-ok
        (ensure_not_deleted (recently_deleted app.server.lower now s.deleted_crates metadata.name))
        _ h₃ in
    subst
      (λ x. x.0.existing_crate ≡ by_name app.server.lower s.registry.rows.crates x.0.metadata.name)
      (ok-eq _ (request, rest) h₄) refl

-- A user whose verified address is known, and whose crate does not want Trusted Publishing only.
abbrev pub Verified : List Email → Option Crate → Authentication → Type 0
Verified emails existing auth =
    ((email : Text) × (verified_email emails (Auth.user auth).id ≡ some email))
    × (ensure_trustpub_only existing (regular auth) ≡ ok tt)

required_email-ok :
    (domain : Text) (o email : Option Text)
    → required_email domain o ≡ ok email
    → (e : Text) × (o ≡ some e)
required_email-ok domain none email h = cc
required_email-ok domain (some e) email h = (e, refl)

pub verify-Verified :
    (app : App) (auth : Authentication) (request : Request) (s : Tables) (email : Option Text)
    → verify app (regular auth) request s ≡ ok email
    → Verified s.registry.rows.emails request.existing_crate auth
verify-Verified app auth request s email h =
    let (_, allowed, h₁) =
      >>=-eq-ok (ensure_trustpub_only request.existing_crate (regular auth)) _ h in
    (
      required_email-ok app.domain_name (verified_email s.registry.rows.emails (Auth.user auth).id)
          email h₁,
      allowed,
    )

module _ (app : App) (now : ℕ) (parts : Parts) (reader : Reader) (s s' : Tables) (g : GoodCrate)
    (r : Run app now parts reader s g s') where
  pub Run-Persisted :
      Persisted app now r.auth r.request r.upload
        (marked r.conn r.buckets s)
        r.krate
        r.version
        r.s_version
  Run-Persisted =
      persist_version-Persisted app now r.auth r.request r.upload (marked r.conn r.buckets s)
        r.s_version r.krate r.version r.persisted

  pub Run-Framed : (g.krate ≡ r.krate) × Framed r.s_version s'
  Run-Framed =
      link_version-Framed app r.auth r.email r.request r.upload r.krate r.version r.s_version s' g
        r.linked

  pub Run-users : r.conn.users ≡ s.registry.rows.conn.users
  Run-users =
      let (conn, same, sets) = authorize-conn app now parts r.request s in
      ap (λ t. t.registry.rows.conn.users) (sym (ap (λ x. x.1) r.authorized) ∙ sets) ∙ same.0

  pub Run-existing :
      r.request.existing_crate ≡ by_name app.server.lower s.registry.rows.crates g.krate.name
  Run-existing =
      begin-existing app now reader r.rest s r.request r.begun
      ∙ ap (by_name app.server.lower s.registry.rows.crates)
          (sym Run-Persisted.same_name ∙ ap (λ k. k.name) (sym Run-Framed.0))
