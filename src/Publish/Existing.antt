-- ===== src/Publish/Existing.antt =====
-- Who publishes a version of a crate that there is.
use crates_io.Prelude.{
  ℕ, ◌≡◌, ◌⊎◌, inl, inr, refl, sym, ◌∙◌, ap, subst, Text, Option, some, List, true, ok, is_some,
  false≢true,
}
use crates_io.Database.Krate.{Crate, by_name}
use crates_io.Auth.{Parts, Conn, Authentication}
use crates_io.Auth
use crates_io.RateLimiter.{Bucket}
use crates_io.Publish.Body.{Reader}
use crates_io.Publish.Tables.{Tables, App, AuthType, regular, trust_pub, Request, Upload, GoodCrate}
use crates_io.Publish.Rows.{NewCrate, persist_crate}
use crates_io.Publish.Access.{set_conn}
use crates_io.Publish.Transaction.{persisted}
use crates_io.Publish.Handler.{verify, publish}
use crates_io.Publish.Refused.{marked}
use crates_io.Publish.Run.{publish-Run}
use crates_io.Publish.Created.{MayPublish, created_or-cases, persist_crate-regular}
use crates_io.Publish.Allowed.{
  TokenFor, CheckedUser, Authorized, by_token, by_user, authorize-Authorized,
}
use crates_io.Publish.Permission.{
  Verified, verify-Verified, Run-Persisted, Run-Framed, Run-users, Run-existing,
}
use crates_io.Publish.Created.{update-found}

-- The user has passed every test of one who publishes to the crate by a name of it: the check, the
-- verified address, and the right to publish.
abbrev pub UserFor : App → ℕ → Parts → Text → Crate → Tables → Type 0
UserFor app now parts name krate s =
    (auth : Authentication) × CheckedUser app now parts (some krate) name s.registry.rows.conn auth
    × Verified s.registry.rows.emails (some krate) auth
    × MayPublish app (Auth.user auth) krate.id s.registry.rows

is_some-found : (o : Option Crate) (krate : Crate) → o ≡ some krate → is_some o ≡ true
is_some-found o krate e = rw e refl

-- The update of the crate, and, of a user, the right to publish as it was before the request.
persisted-existing :
    (app : App) (auth : Authentication) (new : NewCrate) (s s' : Tables) (k krate : Crate)
    → persist_crate app (regular auth) new s ≡ ok (k, s')
    → by_name app.server.lower s.registry.rows.crates new.name ≡ some krate
    → (k.id ≡ krate.id) × MayPublish app (Auth.user auth) krate.id s.registry.rows
persisted-existing app auth new s s' k krate h found =
    let (made, may) = persist_crate-regular app auth new s s' k h in
    elim (created_or-cases app.server.lower new (Auth.user auth).id s s' k made) [
      | inl (free, is_new, wrote) ↦ absurd (false≢true (sym free ∙ is_some-found _ krate found))
      | inr (taken, updates) ↦
          let (same, sets) = update-found app.server.lower new s s' k krate updates found in
          (
            same,
            subst (λ t. MayPublish app (Auth.user auth) krate.id t.registry.rows) sets
                (subst (λ id. MayPublish app (Auth.user auth) id s'.registry.rows) same may),
          )
    ]

module _ (app : App) (now : ℕ) (parts : Parts) (s : Tables) (krate : Crate) (request : Request)
    (conn : Conn) (buckets : List Bucket) (upload : Upload) where
  granted :
      (auth : AuthType) (email : Option Text) (k : Crate) (t : Tables)
      → Authorized app now parts request s auth
      → request.existing_crate ≡ some krate
      → conn.users ≡ s.registry.rows.conn.users
      → verify app auth request (set_conn conn s) ≡ ok email
      → persist_crate app auth
          (persisted request.metadata upload.tarball_info.manifest.pkg)
          (marked conn buckets s)
        ≡ ok (k, t)
      → by_name app.server.lower s.registry.rows.crates request.metadata.name ≡ some krate
      → (k.id ≡ krate.id)
        × (TokenFor app now parts krate s.trustpub_tokens
            ⊎ UserFor app now parts request.metadata.name krate s)
  unfolding persist_crate
  granted (trust_pub data_) email k t (by_token krate' d existing holds) e users verifies makes
        found =
      let same : krate' ≡ krate = cc in
      (
        (update-found app.server.lower _ (marked conn buckets s) t k krate makes found).0,
        inl (subst (λ c. TokenFor app now parts c s.trustpub_tokens) same holds),
      )
  granted (regular auth) email k t (by_user _ checked) e users verifies makes found =
      let (same, may) =
        persisted-existing app auth (persisted request.metadata upload.tarball_info.manifest.pkg)
          (marked conn buckets s) t k krate makes found in
      (
        same,
        inr (
          auth,
          subst (λ c. CheckedUser app now parts c request.metadata.name s.registry.rows.conn auth) e
              checked,
          subst (λ c. Verified s.registry.rows.emails c auth) e
              (verify-Verified app auth request (set_conn conn s) email verifies),
          rw⁻¹ users may,
        ),
      )

-- Whoever publishes a version of a crate that there is has a live token of Trusted Publishing for
-- that crate, or is a user who passes the check of publishing to it, has a verified address, is
-- not kept out by the crate's setting for Trusted Publishing, and had the right to publish.
pub publish-existing :
    (app : App) (now : ℕ) (parts : Parts) (reader : Reader) (s : Tables) (g : GoodCrate)
    (krate : Crate)
    → (publish app now parts reader s).0 ≡ ok g
    → by_name app.server.lower s.registry.rows.crates g.krate.name ≡ some krate
    → (g.krate.id ≡ krate.id)
      × (TokenFor app now parts krate s.trustpub_tokens
          ⊎ UserFor app now parts g.krate.name krate s)
publish-existing app now parts reader s g krate h found =
    let s' = (publish app now parts reader s).1 in
    let r = publish-Run app now parts reader s g h in
    let p = Run-Persisted app now parts reader s s' g r in
    let (same, framed) = Run-Framed app now parts reader s s' g r in
    let named : r.request.metadata.name ≡ g.krate.name =
      sym p.same_name ∙ ap (λ k. k.name) (sym same) in
    let (id, who) =
      granted app now parts s krate r.request r.conn r.buckets r.upload r.auth r.email r.krate
        p.s_crate
        (authorize-Authorized app now parts r.request s r.auth (ap (λ x. x.0) r.authorized))
        (Run-existing app now parts reader s s' g r ∙ found)
        (Run-users app now parts reader s s' g r) r.verified p.crate_persisted
        (ap (by_name app.server.lower s.registry.rows.crates) named ∙ found) in
    (
      ap (λ k. k.id) same ∙ id,
      subst (λ n. TokenFor app now parts krate s.trustpub_tokens ⊎ UserFor app now parts n krate s)
          named who,
    )
