-- ===== src/History/Deleted.antt =====
-- src/controllers/krate/delete.rs: a deletion takes the crate's versions and no others.
use crates_io.Prelude.{
  ℕ, ◌≡◌, refl, sym, ◌∙◌, ap, subst, ◌⊎◌, inl, inr, Text, List, [], ◌∷◌, keep, Bool, Bool-cases,
  true, false, not, ◌==◌, ==_iff, All, All-imp, Any, Any-imp, Any-keep, here, there, ok, err, arith,
}
use crates_io.Errors.{AppResult}
use crates_io.Database.User.{User}
use crates_io.Database.Krate.{Crate}
use crates_io.Auth.{Parts, Authentication, check, only_cookie}
use crates_io.Auth
use crates_io.Owners.Base.{Server}
use crates_io.Yank.{Version}
use crates_io.Publish.Tables.{Tables}
use crates_io.Tokens.{email}
use crates_io.Deletion.{
  Archive, deletable, without_owners, without_versions, delete_rows, record_deletion, delete_found,
  delete_as, set_conn, delete_crate,
}
use crates_io.Deletion.Rows.{HasCrate, gone, mail-tables}
use crates_io.History.Keeps.{
  settle, crate_id_of, HasRelease, Keeps, SameReleases-Keeps, Keeps-chain, All-self,
}

-- What is kept of a list is in it.
All-kept-Any :
    {A : Type 0} (p : A → Bool) (xs : List A) → All (λ x. Any (λ y. y ≡ x) xs) (keep p xs)
All-kept-Any p [] = tt
All-kept-Any p (x ∷ xs) = elim (Bool-cases (p x)) [
  | inl e ↦ rw (keep, e) (here refl, All-imp (λ y a. there a) (keep p xs) (All-kept-Any p xs))
  | inr e ↦ rw (keep, e) (All-imp (λ y a. there a) (keep p xs) (All-kept-Any p xs))
]

delete_rows-Keeps :
    (now : ℕ) (name : Text) (krate : Crate) (s : Tables)
    → Keeps s (record_deletion now name krate (delete_rows krate.id s))
unfolding delete_rows without_versions without_owners
delete_rows-Keeps now name krate s = record {
  crate_ids = omega arith;
  version_ids = omega arith;
  crates =
      All-imp (λ k a. inr (Any-imp (λ l e. ap crate_id_of e) a)) _
        (All-kept-Any (λ (k : Crate). not (k.id == krate.id)) s.registry.rows.crates);
  versions =
      All-imp (λ v a. inr (Any-imp (λ w e. ap settle e) a)) _
        (All-kept-Any (λ (v : Version). not (v.crate_id == krate.id)) s.registry.versions);
  stays =
      All-imp (λ v a below. stays_or_gone v a (v.crate_id == krate.id) refl) s.registry.versions
        (All-self s.registry.versions);
}
  where
    stays_or_gone :
        (v : Version)
        → Any (λ w. w ≡ v) s.registry.versions
        → (b : Bool) → (v.crate_id == krate.id) ≡ b
        → HasRelease (record_deletion now name krate (delete_rows krate.id s)) v
          ⊎ (¬ HasCrate (record_deletion now name krate (delete_rows krate.id s)) v.crate_id)
    stays_or_gone v a true e =
        inr (λ x. gone krate.id s (Any-imp (λ k q. q ∙ (==_iff v.crate_id krate.id).0 e) x))
    stays_or_gone v a false e = inl (
        (Any-keep (λ (w : Version). not (w.crate_id == krate.id)) s.registry.versions).1 (
          Any-imp
            (λ w q. (ap (λ (x : Version). not (x.crate_id == krate.id)) q ∙ ap not e, ap settle q))
            a))

delete_found-Keeps :
    (now : ℕ) (name : Text) (u : User) (found : AppResult Crate) (s : Archive)
    → Keeps s.tables (delete_found now name u found s).1.tables
delete_found-Keeps now name u (err e) s =
    SameReleases-Keeps s.tables s.tables (refl, refl, refl, refl)
delete_found-Keeps now name u (ok krate) s =
    subst (Keeps s.tables) (sym (mail-tables (email s.tables.registry.rows.emails u.id) krate _))
      (delete_rows-Keeps now name krate s.tables)

delete_as-Keeps :
    (server : Server) (now : ℕ) (name : Text) (auth : AppResult Authentication) (s : Archive)
    → Keeps s.tables (delete_as server now name auth s).1.tables
delete_as-Keeps server now name (err e) s =
    SameReleases-Keeps s.tables s.tables (refl, refl, refl, refl)
delete_as-Keeps server now name (ok a) s =
    delete_found-Keeps now name (Auth.user a) (deletable server now name (Auth.user a) s) s

pub delete_crate-Keeps :
    (server : Server) (now : ℕ) (name : Text) (parts : Parts) (s : Archive)
    → Keeps s.tables (delete_crate server now name parts s).1.tables
unfolding delete_crate
delete_crate-Keeps server now name parts s =
    let checked =
      check server.sha256 server.allowed_origins now only_cookie parts
        s.tables.registry.rows.conn in
    Keeps-chain s.tables (set_conn checked.1 s).tables
      (delete_as server now name checked.0 (set_conn checked.1 s)).1.tables
      (SameReleases-Keeps s.tables (set_conn checked.1 s).tables (refl, refl, refl, refl))
      (delete_as-Keeps server now name checked.0 (set_conn checked.1 s))
