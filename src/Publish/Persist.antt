-- ===== src/Publish/Persist.antt =====
-- What the transaction of a publish request has tested when it writes the new version's row.
use crates_io.Prelude.{
  ℕ, ◌≡◌, refl, sym, ◌∙◌, ap, ok-eq, subst, Text, any, Bool, true, false, not, ok, >>=-eq-ok,
  if-eq-ok, text_eq, text_eq_iff,
}
use crates_io.Database.Krate.{Crate}
use crates_io.Yank.{Version}
use crates_io.Publish.Tables.{Tables, App, AuthType, Request, Upload}
use crates_io.Publish.Rows.{is_version_of, set_versions, save, persist_crate}
use crates_io.Publish.Store.{
  new_version, is_reserved_name, ensure_not_reserved, ensure_same_name, ensure_daily_limit,
  count_versions_published_today,
}
use crates_io.Publish.Transaction.{persist_version, persisted}

-- A new version's row was tested and written.
pub record Persisted (app : App) (now : ℕ) (auth : AuthType) (request : Request) (upload : Upload)
    (s : Tables) (krate : Crate) (version : Version) (s' : Tables) : Type 0 where
  pub s_crate : Tables
  pub not_reserved :
      is_reserved_name app.server.lower s.reserved_crate_names request.metadata.name ≡ false
  pub crate_persisted :
      persist_crate app auth (persisted request.metadata upload.tarball_info.manifest.pkg) s
      ≡ ok (krate, s_crate)
  pub same_name : krate.name ≡ request.metadata.name
  pub within_daily_limit :
      ensure_daily_limit app.new_version_rate_limit
        (count_versions_published_today now krate.id s_crate.registry.versions)
      ≡ ok tt
  pub is_new_version :
      version ≡ new_version app now auth request upload krate.id s_crate.next_version_id
  pub number_free :
      any
        (is_version_of version.crate_id version.num version.num_no_build)
        s_crate.registry.versions
      ≡ false
  pub written : s' ≡ set_versions version s_crate

save-ok :
    (v w : Version) (s s' : Tables)
    → save v s ≡ ok (w, s')
    → (any (is_version_of v.crate_id v.num v.num_no_build) s.registry.versions ≡ false)
      × (w ≡ v)
      × (s' ≡ set_versions v s)
unfolding save
save-ok v w s s' h =
    let (free, done) = if-eq-ok _ _ _ (w, s') h in
    let same = ok-eq (v, set_versions v s) (w, s') done in
    (free, ap (λ r. r.0) (sym same), ap (λ r. r.1) (sym same))

not-false : (b : Bool) → not b ≡ false → b ≡ true
not-false true h = refl
not-false false h = cc

ensure_same_name-ok : (a b : Text) → ensure_same_name a b ≡ ok tt → a ≡ b
ensure_same_name-ok a b h =
    let (same, _) = if-eq-ok (not (text_eq a b)) _ (ok tt) tt h in
    (text_eq_iff a b).0 (not-false (text_eq a b) same)

pub persist_version-Persisted :
    (app : App) (now : ℕ) (auth : AuthType) (request : Request) (upload : Upload) (s s' : Tables)
    (krate : Crate) (version : Version)
    → persist_version app now auth request upload s ≡ ok (krate, version, s')
    → Persisted app now auth request upload s krate version s'
unfolding persist_version
persist_version-Persisted app now auth request upload s s' krate version h =
    let (_, reserved, h₁) =
      >>=-eq-ok
        (ensure_not_reserved
          (is_reserved_name app.server.lower s.reserved_crate_names request.metadata.name))
        _ h in
    let ((k, s₁), crate_persisted, h₂) =
      >>=-eq-ok
        (persist_crate app auth (persisted request.metadata upload.tarball_info.manifest.pkg) s) _
        h₁ in
    let (_, named, h₃) = >>=-eq-ok (ensure_same_name k.name request.metadata.name) _ h₂ in
    let (_, within, h₄) =
      >>=-eq-ok
        (ensure_daily_limit app.new_version_rate_limit
          (count_versions_published_today now k.id s₁.registry.versions))
        _ h₃ in
    let new = new_version app now auth request upload k.id s₁.next_version_id in
    let ((v, s₂), saved, h₅) = >>=-eq-ok (save new s₁) _ h₄ in
    let (free, is_new, wrote) = save-ok new v s₁ s₂ saved in
    let done = ok-eq (k, v, s₂) (krate, version, s') h₅ in
    subst (λ r. Persisted app now auth request upload s r.0 r.1 r.2) done
      (record {
        s_crate = s₁;
        not_reserved =
            (if-eq-ok
              (is_reserved_name app.server.lower s.reserved_crate_names request.metadata.name) _
              (ok tt) tt reserved).0;
        crate_persisted = crate_persisted;
        same_name = ensure_same_name-ok k.name request.metadata.name named;
        within_daily_limit = within;
        is_new_version = is_new;
        number_free =
            subst
              (λ x.
                any (is_version_of x.crate_id x.num x.num_no_build) s₁.registry.versions ≡ false)
              (sym is_new) free;
        written = wrote ∙ ap (λ x. set_versions x s₁) (sym is_new);
      })
