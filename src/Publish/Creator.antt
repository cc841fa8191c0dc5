-- ===== src/Publish/Creator.antt =====
-- Who publishes a new crate, and that it is theirs.
use crates_io.Prelude.{
  ℕ, ◌≡◌, inl, inr, refl, sym, ◌∙◌, ap, subst, Text, Option, none, List, [], ◌∷◌, true, false, ok,
  here, there, arith, is_some, false≢true, Bool-cases,
}
use crates_io.Database.Krate.{Crate, by_name}
use crates_io.Database.Owners.Live.{IsUserOwner, kind_eq_sound}
use crates_io.Database.Owners.{kind_eq, is_live, same_key, CrateOwner, insert, user_kind}
use crates_io.Auth.{Parts, Conn, Authentication}
use crates_io.Auth
use crates_io.RateLimiter.{Bucket}
use crates_io.Publish.Body.{Reader}
use crates_io.Publish.Tables.{Tables, App, AuthType, regular, trust_pub, Request, Upload, GoodCrate}
use crates_io.Publish.Rows.{persist_crate}
use crates_io.Publish.Access.{set_conn}
use crates_io.Publish.Transaction.{persisted}
use crates_io.Publish.Handler.{verify, publish}
use crates_io.Publish.Refused.{marked}
use crates_io.Publish.Run.{publish-Run}
use crates_io.Publish.Created.{created_or-cases, persist_crate-regular}
use crates_io.Publish.Allowed.{CheckedUser, Authorized, by_token, by_user, authorize-Authorized}
use crates_io.Publish.Permission.{
  Verified, verify-Verified, Run-Persisted, Run-Framed, Run-existing,
}

abbrev owner_row : ℕ → ℕ → CrateOwner
owner_row c u = record {
  crate_id = c;
  owner_id = u;
  created_by = u;
  owner_kind = user_kind;
  deleted = false;
}

revives :
    (c u : ℕ) (row : CrateOwner)
    → same_key (owner_row c u) row ≡ true
    → (is_live user_kind c (record row { deleted = false }) ≡ true) × (row.owner_id ≡ u)
revives c u row e =
    let kind : user_kind ≡ row.owner_kind = kind_eq_sound user_kind row.owner_kind (ground arith) in
    let live : kind_eq row.owner_kind user_kind ≡ true =
      subst (λ k. kind_eq k user_kind ≡ true) kind refl in
    (ground (arith, live, e), ground (arith, e))

-- The new row makes the user an owner.
insert-IsUserOwner :
    (c u : ℕ) (rows : List CrateOwner) → IsUserOwner c u (insert (owner_row c u) rows)
unfolding insert
insert-IsUserOwner c u [] = here (ground arith, refl)
insert-IsUserOwner c u (row ∷ rows) = elim (Bool-cases (same_key (owner_row c u) row)) [
  | inl e ↦ rw e (here (revives c u row e))
  | inr e ↦ rw e (there (insert-IsUserOwner c u rows))
]

-- The user has passed the tests of one who publishes a new crate.
abbrev pub CreatedBy : App → ℕ → Parts → Text → Tables → Tables → ℕ → Type 0
CreatedBy app now parts name s s' id =
    (auth : Authentication) × CheckedUser app now parts none name s.registry.rows.conn auth
    × Verified s.registry.rows.emails none auth
    × IsUserOwner id (Auth.user auth).id s'.registry.rows.crate_owners

is_some-missing : (o : Option Crate) → o ≡ none → is_some o ≡ false
is_some-missing o e = rw e refl

module _ (app : App) (now : ℕ) (parts : Parts) (s : Tables) (request : Request) (conn : Conn)
    (buckets : List Bucket) (upload : Upload) where
  created :
      (auth : AuthType) (email : Option Text) (k : Crate) (t : Tables)
      → Authorized app now parts request s auth
      → request.existing_crate ≡ none
      → verify app auth request (set_conn conn s) ≡ ok email
      → persist_crate app auth
          (persisted request.metadata upload.tarball_info.manifest.pkg)
          (marked conn buckets s)
        ≡ ok (k, t)
      → by_name app.server.lower s.registry.rows.crates request.metadata.name ≡ none
      → (k.id ≡ s.next_crate_id)
        × (t.registry.rows.crates ≡ k ∷ s.registry.rows.crates)
        × CreatedBy app now parts request.metadata.name s t k.id
  created (trust_pub data_) email k t (by_token krate' d existing holds) e verifies makes missing =
      cc
  created (regular auth) email k t (by_user _ checked) e verifies makes missing =
      let new = persisted request.metadata upload.tarball_info.manifest.pkg in
      let (made, may) = persist_crate-regular app auth new (marked conn buckets s) t k makes in
      elim (created_or-cases app.server.lower new (Auth.user auth).id (marked conn buckets s) t k
        made) [
          | inr (taken, updates) ↦ absurd (false≢true (sym (is_some-missing _ missing) ∙ taken))
          | inl (free, is_new, wrote) ↦ (
            ap (λ x. x.id) is_new,
            ap (λ x. x.registry.rows.crates) wrote
                ∙ ap (λ x. x ∷ s.registry.rows.crates) (sym is_new),
            (
              auth,
              subst
                  (λ c. CheckedUser app now parts c request.metadata.name s.registry.rows.conn auth)
                  e checked,
              subst (λ c. Verified s.registry.rows.emails c auth) e
                  (verify-Verified app auth request (set_conn conn s) email verifies),
              subst (λ id. IsUserOwner id (Auth.user auth).id t.registry.rows.crate_owners)
                  (ap (λ x. x.id) (sym is_new))
                  (subst
                    (λ x.
                      IsUserOwner s.next_crate_id (Auth.user auth).id x.registry.rows.crate_owners)
                    (sym wrote)
                    (insert-IsUserOwner s.next_crate_id (Auth.user auth).id
                      s.registry.rows.crate_owners)),
            ),
          )
        ]

-- Whoever publishes a crate that there was none of passes the check of publishing a new crate, has
-- a verified address, and is an individual owner of the new crate, which has the next id and is
-- the only crate that is added.
pub publish-new :
    (app : App) (now : ℕ) (parts : Parts) (reader : Reader) (s : Tables) (g : GoodCrate)
    → (publish app now parts reader s).0 ≡ ok g
    → by_name app.server.lower s.registry.rows.crates g.krate.name ≡ none
    → (g.krate.id ≡ s.next_crate_id)
      × ((publish app now parts reader s).1.registry.rows.crates ≡ g.krate ∷ s.registry.rows.crates)
      × CreatedBy app now parts g.krate.name s (publish app now parts reader s).1 g.krate.id
publish-new app now parts reader s g h missing =
    let s' = (publish app now parts reader s).1 in
    let r = publish-Run app now parts reader s g h in
    let p = Run-Persisted app now parts reader s s' g r in
    let (same, framed) = Run-Framed app now parts reader s s' g r in
    let named : r.request.metadata.name ≡ g.krate.name =
      sym p.same_name ∙ ap (λ k. k.name) (sym same) in
    let (id, crates, who) =
      created app now parts s r.request r.conn r.buckets r.upload r.auth r.email r.krate p.s_crate
        (authorize-Authorized app now parts r.request s r.auth (ap (λ x. x.0) r.authorized))
        (Run-existing app now parts reader s s' g r ∙ missing) r.verified p.crate_persisted
        (ap (by_name app.server.lower s.registry.rows.crates) named ∙ missing) in
    let rows' : s'.registry.rows ≡ p.s_crate.registry.rows =
      framed.0 ∙ ap (λ t. t.registry.rows) p.written in
    (
      ap (λ k. k.id) same ∙ id,
      ap (λ x. x.crates) rows' ∙ (crates ∙ ap (λ k. k ∷ s.registry.rows.crates) (sym same)),
      (
        who.0,
        subst (λ n. CheckedUser app now parts none n s.registry.rows.conn who.0) named who.1,
        who.2,
        subst (λ k. IsUserOwner k.id (Auth.user who.0).id s'.registry.rows.crate_owners) (sym same)
            (subst (λ x. IsUserOwner r.krate.id (Auth.user who.0).id x.crate_owners) (sym rows')
              who.3),
      ),
    )
