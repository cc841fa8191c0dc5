-- ===== src/History/Published.antt =====
-- src/controllers/krate/publish.rs: a publish request adds a version, and a crate perhaps, with ids that are new.
use crates_io.Prelude.{
  ℕ, ◌≡◌, refl, sym, ◌∙◌, ap, subst, inl, inr, Text, List, [], ◌∷◌, map, ok, All-imp, Any, Any-imp,
  there, arith, Result-cases,
}
use crates_io.Database.Krate.{Crate, by_name}
use crates_io.Owners.Base.{State}
use crates_io.Auth.{Parts}
use crates_io.Auth
use crates_io.Yank.{Version}
use crates_io.Publish.Body.{Reader}
use crates_io.Publish.Tables.{Tables, App, AuthType, regular, trust_pub, GoodCrate}
use crates_io.Publish.Rows.{
  NewCrate, set_columns_if, update, new_row, insert_crate, persist_crate, set_versions, set_crates,
}
use crates_io.Publish.Handler.{publish}
use crates_io.Publish.Refused.{publish-err, marked}
use crates_io.Publish.Run.{Run, publish-Run}
use crates_io.Publish.Created.{
  set_columns_if-keeps, updated-set, created_or-cases, persist_crate-regular,
}
use crates_io.Publish.Frames.{Framed}
use crates_io.Publish.Permission.{Run-Persisted, Run-Framed}
use crates_io.History.Keeps.{settle, crate_id_of, Keeps, Keeps-chain, SameReleases-Keeps, All-self}

same_ids :
    (lower : Text → Text) (new : NewCrate) (crates : List Crate)
    → map crate_id_of (map (set_columns_if lower new) crates) ≡ map crate_id_of crates
same_ids lower new [] = refl
same_ids lower new (k ∷ crates) =
    ap (λ n. n ∷ map crate_id_of (map (set_columns_if lower new) crates))
      (set_columns_if-keeps lower new k).1
    ∙ ap (λ (ns : List ℕ). k.id ∷ ns) (same_ids lower new crates)

update-Keeps :
    (lower : Text → Text) (new : NewCrate) (s s' : Tables) (krate : Crate)
    → update lower new s ≡ ok (krate, s')
    → Keeps s s'
unfolding update
update-Keeps lower new s s' krate h =
    let crates = map (set_columns_if lower new) s.registry.rows.crates in
    subst (Keeps s)
      (sym (updated-set (by_name lower crates new.name) (set_crates crates s) s' krate h))
      (SameReleases-Keeps s (set_crates crates s)
        (same_ids lower new s.registry.rows.crates, refl, refl, refl))

-- What is in a list has its id, and what it was published with, there.
named :
    {crates : List Crate} (k : Crate)
    → Any (λ l. l ≡ k) crates
    → Any (λ (l : Crate). l.id ≡ k.id) crates
named k a = Any-imp (λ l e. ap crate_id_of e) a

settled :
    {versions : List Version} (v : Version)
    → Any (λ w. w ≡ v) versions
    → Any (λ w. settle w ≡ settle v) versions
settled v a = Any-imp (λ w e. ap settle e) a

insert_crate-Keeps :
    (new : NewCrate) (user_id : ℕ) (s : Tables)
    → Keeps s (insert_crate (new_row new s.next_crate_id) user_id s)
insert_crate-Keeps new user_id s = record {
  crate_ids = omega arith;
  version_ids = omega arith;
  crates = (
    inl (omega arith),
    All-imp (λ k a. inr (named k a)) s.registry.rows.crates (All-self s.registry.rows.crates),
  );
  versions = All-imp (λ v a. inr (settled v a)) s.registry.versions (All-self s.registry.versions);
  stays =
      All-imp (λ v a below. inl (settled v a)) s.registry.versions (All-self s.registry.versions);
}

persist_crate-Keeps :
    (app : App) (auth : AuthType) (new : NewCrate) (s s' : Tables) (krate : Crate)
    → persist_crate app auth new s ≡ ok (krate, s')
    → Keeps s s'
unfolding persist_crate
persist_crate-Keeps app (trust_pub data_) new s s' krate h =
    update-Keeps app.server.lower new s s' krate h
persist_crate-Keeps app (regular auth) new s s' krate h =
    elim (created_or-cases app.server.lower new (Auth.user auth).id s s' krate
      (persist_crate-regular app auth new s s' krate h).0) [
        | inl (free, is_new, wrote) ↦
            subst (Keeps s) (sym wrote) (insert_crate-Keeps new (Auth.user auth).id s)
        | inr (taken, updates) ↦ update-Keeps app.server.lower new s s' krate updates
      ]

set_versions-Keeps :
    (v : Version) (s : Tables) → v.id ≡ s.next_version_id → Keeps s (set_versions v s)
set_versions-Keeps v s next = record {
  crate_ids = omega arith;
  version_ids = omega arith;
  crates =
      All-imp (λ k a. inr (named k a)) s.registry.rows.crates (All-self s.registry.rows.crates);
  versions = (
    inl (omega arith),
    All-imp (λ v a. inr (settled v a)) s.registry.versions (All-self s.registry.versions),
  );
  stays =
      All-imp (λ v a below. inl (there (settled v a))) s.registry.versions
        (All-self s.registry.versions);
}

Framed-Keeps : (s s' : Tables) → Framed s s' → Keeps s s'
Framed-Keeps s s' (rows, versions, next_crate, next_version) = SameReleases-Keeps s s' (
  ap (λ (r : State). map crate_id_of r.crates) rows,
  ap (map settle) versions,
  next_crate,
  next_version,
)

Run-Keeps :
    (app : App) (now : ℕ) (parts : Parts) (reader : Reader) (s s' : Tables) (g : GoodCrate)
    → Run app now parts reader s g s'
    → Keeps s s'
Run-Keeps app now parts reader s s' g r =
    let begun = marked r.conn r.buckets s in
    let p = Run-Persisted app now parts reader s s' g r in
    Keeps-chain s begun s' (SameReleases-Keeps s begun (refl, refl, refl, refl)) (
      Keeps-chain begun p.s_crate s'
        (persist_crate-Keeps app r.auth _ begun p.s_crate r.krate p.crate_persisted)
        (Keeps-chain p.s_crate r.s_version s'
          (subst (Keeps p.s_crate) (sym p.written)
            (set_versions-Keeps r.version p.s_crate (ap (λ v. v.id) p.is_new_version)))
          (Framed-Keeps r.s_version s' (Run-Framed app now parts reader s s' g r).1)))

pub publish-Keeps :
    (app : App) (now : ℕ) (parts : Parts) (reader : Reader) (s : Tables)
    → Keeps s (publish app now parts reader s).1
publish-Keeps app now parts reader s = elim (Result-cases (publish app now parts reader s).0) [
  | inl (g, e) ↦
      Run-Keeps app now parts reader s (publish app now parts reader s).1 g
        (publish-Run app now parts reader s g e)
  | inr (e, failed) ↦
      let (conn, buckets, uploads, same, may, left) = publish-err app now parts reader s e failed in
      subst (Keeps s) (sym left) (
        SameReleases-Keeps s (record (marked conn buckets s) { uploads = uploads })
          (refl, refl, refl, refl))
]
