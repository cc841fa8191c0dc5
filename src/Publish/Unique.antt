-- ===== src/Publish/Unique.antt =====
-- What publishing keeps true of the tables: names of crates and numbers of versions are taken once.
use crates_io.Prelude.{
  ℕ, ◌<◌, ◌≡◌, refl, sym, ◌∙◌, ap, subst, Text, Option, some, List, [], ◌∷◌, map, any, Bool, true,
  false, ◌||◌, if◌then◌else◌, text_eq_iff, ok, All, Distinct, Distinct-map, All-map, All-imp,
  any-false, arith, is_some, inl, inr, Result-cases,
}
use crates_io.Database.Krate.{Crate, canon_crate_name, by_name}
use crates_io.Auth.{Parts, Conn}
use crates_io.Auth
use crates_io.Yank.{Version}
use crates_io.Publish.Body.{Reader}
use crates_io.Publish.Tables.{Tables, App, AuthType, regular, trust_pub, Request, Upload, GoodCrate}
use crates_io.Publish.Numbers.{IsStripped, SameNumber, is_alone, strip_build_metadata-IsStripped}
use crates_io.Publish.Rows.{
  NewCrate, set_columns_if, update, new_row, insert_crate, persist_crate, has_name, is_version_of,
  set_versions, set_crates,
}
use crates_io.Publish.Transaction.{persisted}
use crates_io.Publish.Handler.{publish}
use crates_io.Publish.Refused.{publish-err, marked}
use crates_io.Publish.Run.{Run, publish-Run}
use crates_io.Publish.Created.{
  set_columns_if-keeps, updated-set, created_or-cases, persist_crate-regular,
}
use crates_io.Publish.Frames.{link_version-Framed, Framed}
use crates_io.Publish.Persist.{Persisted, persist_version-Persisted}

-- Names that differ in case, or in dashes and underscores, are the same.
abbrev pub SameName : (Text → Text) → Crate → Crate → Type 0
SameName lower a b = canon_crate_name lower a.name ≡ canon_crate_name lower b.name

abbrev pub CratesWellFormed : (Text → Text) → Tables → Type 0
CratesWellFormed lower s =
    Distinct (SameName lower) s.registry.rows.crates
    × All (λ krate. krate.id < s.next_crate_id) s.registry.rows.crates

abbrev pub VersionsWellFormed : Tables → Type 0
VersionsWellFormed s =
    Distinct SameNumber s.registry.versions
    × All (λ v. v.id < s.next_version_id) s.registry.versions
    × All (λ v. IsStripped v.num v.num_no_build) s.registry.versions

-- The versions, and their sequence, are as they were.
abbrev pub VersionsOf : Tables → Tables → Type 0
VersionsOf s s' =
    (s'.registry.versions ≡ s.registry.versions) × (s'.next_version_id ≡ s.next_version_id)

-- Names and numbers are taken once, and ids are from the sequences.
abbrev pub IsWellFormed : (Text → Text) → Tables → Type 0
IsWellFormed lower s = CratesWellFormed lower s × VersionsWellFormed s

first_or :
    (b : Bool) (krate : Crate) (o : Option Crate) (r : Bool)
    → is_some (if b then some krate else o) ≡ false
    → (is_some o ≡ false → r ≡ false)
    → (b || r) ≡ false
first_or true krate o r h f = cc
first_or false krate o r h f = f h

by_name-none :
    (lower : Text → Text) (crates : List Crate) (name : Text)
    → is_some (by_name lower crates name) ≡ false
    → any (has_name lower name) crates ≡ false
unfolding by_name
by_name-none lower [] name h = refl
by_name-none lower (krate ∷ crates) name h =
    first_or (has_name lower name krate) krate (by_name lower crates name)
      (any (has_name lower name) crates) h (by_name-none lower crates name)

update-WellFormed :
    (lower : Text → Text) (new : NewCrate) (s s' : Tables) (krate : Crate)
    → update lower new s ≡ ok (krate, s')
    → CratesWellFormed lower s
    → CratesWellFormed lower s' × VersionsOf s s'
unfolding update
update-WellFormed lower new s s' krate h (distinct, below) =
    let crates = map (set_columns_if lower new) s.registry.rows.crates in
    let sets = updated-set (by_name lower crates new.name) (set_crates crates s) s' krate h in
    let named : (a : Crate)
        → canon_crate_name lower (set_columns_if lower new a).name ≡ canon_crate_name lower a.name =
      λ a. ap (canon_crate_name lower) (set_columns_if-keeps lower new a).0 in
    subst (λ t. CratesWellFormed lower t × VersionsOf s t) (sym sets)
      (
        (
          Distinct-map (set_columns_if lower new) (λ a b e. sym (named a) ∙ (e ∙ named b))
              s.registry.rows.crates distinct,
          All-map (λ k. k.id < s.next_crate_id) (set_columns_if lower new)
              (λ a l. subst (λ n. n < s.next_crate_id) (sym (set_columns_if-keeps lower new a).1) l)
              s.registry.rows.crates below,
        ),
        (refl, refl),
      )

insert_crate-WellFormed :
    (lower : Text → Text) (new : NewCrate) (user_id : ℕ) (s : Tables)
    → is_some (by_name lower s.registry.rows.crates new.name) ≡ false
    → CratesWellFormed lower s
    → CratesWellFormed lower (insert_crate (new_row new s.next_crate_id) user_id s)
insert_crate-WellFormed lower new user_id s h (distinct, below) = (
  (
    any-false (has_name lower new.name) s.registry.rows.crates
        (λ krate e.
          (text_eq_iff (canon_crate_name lower krate.name) (canon_crate_name lower new.name)).1
            (sym e))
        (by_name-none lower s.registry.rows.crates new.name h),
    distinct,
  ),
  (omega arith, All-imp (λ krate l. omega (arith, l)) s.registry.rows.crates below),
)

persist_crate-WellFormed :
    (app : App) (auth : AuthType) (new : NewCrate) (s s' : Tables) (krate : Crate)
    → persist_crate app auth new s ≡ ok (krate, s')
    → CratesWellFormed app.server.lower s
    → CratesWellFormed app.server.lower s' × VersionsOf s s'
unfolding persist_crate
persist_crate-WellFormed app (trust_pub data_) new s s' krate h w =
    update-WellFormed app.server.lower new s s' krate h w
persist_crate-WellFormed app (regular auth) new s s' krate h w =
    elim (created_or-cases app.server.lower new (Auth.user auth).id s s' krate
      (persist_crate-regular app auth new s s' krate h).0) [
        | inl (free, is_new, wrote) ↦
            subst (λ t. CratesWellFormed app.server.lower t × VersionsOf s t) (sym wrote)
              (
                insert_crate-WellFormed app.server.lower new (Auth.user auth).id s free w,
                (refl, refl),
              )
        | inr (taken, updates) ↦ update-WellFormed app.server.lower new s s' krate updates w
      ]

VersionsOf-WellFormed :
    (s s' : Tables) → VersionsOf s s' → VersionsWellFormed s → VersionsWellFormed s'
VersionsOf-WellFormed s s' (versions, next) w = rw (versions, next) w

set_versions-WellFormed :
    (v : Version) (s : Tables)
    → v.id ≡ s.next_version_id
    → IsStripped v.num v.num_no_build
    → any (is_version_of v.crate_id v.num v.num_no_build) s.registry.versions ≡ false
    → VersionsWellFormed s
    → VersionsWellFormed (set_versions v s)
set_versions-WellFormed v s next stripped free (distinct, below, columns) = (
  (is_alone v s.registry.versions stripped free columns, distinct),
  (omega arith, All-imp (λ w l. omega (arith, l, next)) s.registry.versions below),
  (stripped, columns),
)

transaction-WellFormed :
    (app : App) (now : ℕ) (auth : AuthType) (request : Request) (upload : Upload) (s s' : Tables)
    (krate : Crate) (version : Version)
    → Persisted app now auth request upload s krate version s'
    → IsWellFormed app.server.lower s
    → IsWellFormed app.server.lower s'
transaction-WellFormed app now auth request upload s s' krate version p (crates, versions) =
    let (crates', same) =
      persist_crate-WellFormed app auth
        (persisted request.metadata upload.tarball_info.manifest.pkg) s p.s_crate krate
        p.crate_persisted crates in
    subst (IsWellFormed app.server.lower) (sym p.written) (
      crates',
      set_versions-WellFormed version p.s_crate (ap (λ v. v.id) p.is_new_version)
          (subst (λ v. IsStripped v.num v.num_no_build) (sym p.is_new_version)
            (strip_build_metadata-IsStripped request.version_string))
          p.number_free (VersionsOf-WellFormed s p.s_crate same versions),
    )

Framed-WellFormed :
    (lower : Text → Text) (s s' : Tables)
    → Framed s s'
    → IsWellFormed lower s
    → IsWellFormed lower s'
Framed-WellFormed lower s s' (rows, versions, next_crate, next_version) w =
    rw (rows, versions, next_crate, next_version) w

Run-WellFormed :
    (app : App) (now : ℕ) (parts : Parts) (reader : Reader) (s s' : Tables) (g : GoodCrate)
    → Run app now parts reader s g s'
    → IsWellFormed app.server.lower s
    → IsWellFormed app.server.lower s'
Run-WellFormed app now parts reader s s' g r w =
    Framed-WellFormed app.server.lower r.s_version s'
      (link_version-Framed app r.auth r.email r.request r.upload r.krate r.version r.s_version s' g
        r.linked).1
      (transaction-WellFormed app now r.auth r.request r.upload (marked r.conn r.buckets s)
        r.s_version r.krate r.version
        (persist_version-Persisted app now r.auth r.request r.upload (marked r.conn r.buckets s)
          r.s_version r.krate r.version r.persisted)
        w)

-- After a publish request, whether it succeeds or fails, it is still so that no two crates have
-- names that differ only in case, dashes and underscores, that no crate has two versions with
-- the same number but for build metadata, and that the ids given are below the next ones.
pub publish-WellFormed :
    (app : App) (now : ℕ) (parts : Parts) (reader : Reader) (s : Tables)
    → IsWellFormed app.server.lower s
    → IsWellFormed app.server.lower (publish app now parts reader s).1
publish-WellFormed app now parts reader s w =
    elim (Result-cases (publish app now parts reader s).0) [
      | inl (g, e) ↦
          Run-WellFormed app now parts reader s (publish app now parts reader s).1 g
            (publish-Run app now parts reader s g e) w
      | inr (e, failed) ↦
          let (conn, buckets, uploads, same, may, left) =
            publish-err app now parts reader s e failed in
          subst (IsWellFormed app.server.lower) (sym left) w
    ]
