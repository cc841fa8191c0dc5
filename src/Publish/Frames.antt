-- ===== src/Publish/Frames.antt =====
-- What the steps of the transaction of a publish request leave alone.
use crates_io.Prelude.{
  ℕ, ◌≡◌, refl, ◌∙◌, ok-eq, subst, Text, Option, none, some, List, [], ◌∷◌, Bool, true, false,
  if◌then◌else◌, ok, >>=-eq-ok, map_err,
}
use crates_io.Errors.{internal}
use crates_io.Database.Krate.{Crate}
use crates_io.Yank.{Version}
use crates_io.Publish.Manifest.{Parsers}
use crates_io.Publish.Dependencies.{EncodableCrateDependency, convert_dependencies}
use crates_io.Publish.Tables.{Tables, App, AuthType, regular, trust_pub, Request, Upload, GoodCrate}
use crates_io.Publish.Rows.{dependency_rows, add_dependencies}
use crates_io.Publish.Labels.{DefaultVersion, version_lt, update_keywords, update_categories}
use crates_io.Publish.Store.{
  set_published_by, record_action, existing_default_version, replace_default, ensure_known,
}
use crates_io.Publish.Transaction.{link_version}

-- Crates, owners and versions are as they were.
abbrev pub Framed : Tables → Tables → Type 0
Framed s s' =
    (s'.registry.rows ≡ s.registry.rows)
    × (s'.registry.versions ≡ s.registry.versions)
    × (s'.next_crate_id ≡ s.next_crate_id)
    × (s'.next_version_id ≡ s.next_version_id)

Framed-chain : (a b c : Tables) → Framed a b → Framed b c → Framed a c
Framed-chain a b c (p, q, r, t) (p', q', r', t') = (p' ∙ p, q' ∙ q, r' ∙ r, t' ∙ t)

set_published_by-Framed :
    (email : Option Text) (id : ℕ) (s : Tables) → Framed s (set_published_by email id s)
set_published_by-Framed none id s = (refl, refl, refl, refl)
set_published_by-Framed (some email) id s = (refl, refl, refl, refl)

record_action-Framed : (auth : AuthType) (id : ℕ) (s : Tables) → Framed s (record_action auth id s)
record_action-Framed (regular auth) id s = (refl, refl, refl, refl)
record_action-Framed (trust_pub data_) id s = (refl, refl, refl, refl)

add_dependencies-Framed :
    (deps : List EncodableCrateDependency) (id : ℕ) (s s' : Tables)
    → add_dependencies deps id s ≡ ok s'
    → Framed s s'
unfolding add_dependencies
add_dependencies-Framed deps id s s' h =
    let (rows, found, done) = >>=-eq-ok (dependency_rows s.registry.rows.crates id deps) _ h in
    subst (Framed s) (ok-eq _ s' done) (refl, refl, refl, refl)

if-Framed :
    (b : Bool) (s : Tables) (x y : Option Text × Tables)
    → Framed s x.1
    → Framed s y.1
    → Framed s (if◌then◌else◌ {A = Option Text × Tables} b x y).1
if-Framed true s x y h h' = h
if-Framed false s x y h h' = h'

replace_default-Framed :
    (parsers : Parsers) (published : DefaultVersion) (existing : Option (DefaultVersion × ℕ))
    (crate_id : ℕ) (s : Tables)
    → Framed s (replace_default parsers published existing crate_id s).1
unfolding replace_default
replace_default-Framed parsers published none crate_id s = (refl, refl, refl, refl)
replace_default-Framed parsers published (some (existing, count)) crate_id s =
    if-Framed (version_lt parsers existing published) s _ _ (refl, refl, refl, refl)
      (refl, refl, refl, refl)

-- The steps behind the new version's row.
pub link_version-Framed :
    (app : App) (auth : AuthType) (email : Option Text) (request : Request) (upload : Upload)
    (krate : Crate) (version : Version) (s s' : Tables) (g : GoodCrate)
    → link_version app auth email request upload krate version s ≡ ok (g, s')
    → (g.krate ≡ krate) × Framed s s'
unfolding link_version update_keywords update_categories
link_version-Framed app auth email request upload krate version s s' g h =
    let s₀ = record_action auth version.id (set_published_by email version.id s) in
    let (s₁, added, h₁) =
      >>=-eq-ok
        (add_dependencies (convert_dependencies app.parsers upload.tarball_info.manifest) version.id
          s₀)
        _ h in
    let (existing, found, h₂) = >>=-eq-ok (existing_default_version app.parsers krate.id s₁) _ h₁ in
    let published : DefaultVersion = record {
      id = version.id;
      num = request.version_string;
      yanked = false;
    } in
    let s₂ = (replace_default app.parsers published existing krate.id s₁).1 in
    let s₃ = update_keywords app.server.to_lowercase krate.id version.keywords s₂ in
    let (u, s₄) = update_categories krate.id version.categories s₃ in
    let (_, known, h₃) = >>=-eq-ok (ensure_known app.domain_name u) _ h₂ in
    let (_, uploaded, h₄) =
      >>=-eq-ok
        (map_err (λ e. internal "failed to upload crate: {e}" (e ∷ []))
          (app.upload_crate_file krate.name request.version_string upload.tarball_bytes))
        _ h₃ in
    let done = ok-eq _ (g, s') h₄ in
    let framed₀ =
      Framed-chain s (set_published_by email version.id s) s₀
        (set_published_by-Framed email version.id s)
        (record_action-Framed auth version.id (set_published_by email version.id s)) in
    let framed₁ = Framed-chain s s₀ s₁ framed₀ (
      add_dependencies-Framed (convert_dependencies app.parsers upload.tarball_info.manifest)
        version.id s₀ s₁ added) in
    let framed₂ =
      Framed-chain s s₁ s₂ framed₁
        (replace_default-Framed app.parsers published existing krate.id s₁) in
    subst (λ r. (r.0.krate ≡ krate) × Framed s r.1) done (refl, framed₂)
