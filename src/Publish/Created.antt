-- ===== src/Publish/Created.antt =====
-- The crate that a publish request creates or updates, and the rights it needs.
use crates_io.Prelude.{
  ℕ, ◌≡◌, refl, sym, ◌∙◌, ap, subst, Text, Option, none, some, List, [], ◌∷◌, map, Bool, true,
  false, if◌then◌else◌, text_eq, ok, ok-eq, >>=-eq-ok, is_some, ◌⊎◌, inl, inr, ◌≢◌,
}
use crates_io.Database.Krate.{Crate, canon_crate_name, by_name}
use crates_io.Auth.{Parts, Conn, Authentication}
use crates_io.Auth
use crates_io.Database.User.{User}
use crates_io.Database.Owners.{owners}
use crates_io.Owners.Base.{State}
use crates_io.Rights.{Rights, no_rights, publish, full, get}
use crates_io.Publish.Tables.{Tables, App, AuthType, regular, trust_pub}
use crates_io.Publish.Rows.{
  NewCrate, set_columns_if, updated, update, new_row, insert_crate, create, created_or,
  persist_crate, has_name, set_columns, set_crates, ensure_may_publish,
}

-- The user may publish to the crate.
abbrev pub MayPublish : App → User → ℕ → State → Type 0
MayPublish app u crate_id rows =
    (rights : Rights) × (get app.server.decrypt app.server.github u
        (owners rows.conn.users rows.teams rows.crate_owners crate_id)
      ≡ ok rights)
    × (rights ≢ no_rights)

if-keeps :
    (b : Bool) (x y : Crate)
    → (x.name ≡ y.name) × (x.id ≡ y.id)
    → ((if b then x else y).name ≡ y.name) × ((if b then x else y).id ≡ y.id)
if-keeps true x y h = h
if-keeps false x y h = (refl, refl)

-- An update changes neither name nor id.
pub set_columns_if-keeps :
    (lower : Text → Text) (new : NewCrate) (krate : Crate)
    → ((set_columns_if lower new krate).name ≡ krate.name)
      × ((set_columns_if lower new krate).id ≡ krate.id)
set_columns_if-keeps lower new krate =
    if-keeps (has_name lower new.name krate) (set_columns new krate) krate (refl, refl)

pub updated-set :
    (o : Option Crate) (s t : Tables) (krate : Crate) → updated o s ≡ ok (krate, t) → t ≡ s
updated-set none s t krate h = cc
updated-set (some k) s t krate h = ap (λ r. r.1) (sym (ok-eq (k, s) (krate, t) h))

updated-some :
    (o : Option Crate) (s t : Tables) (krate : Crate) → updated o s ≡ ok (krate, t) → o ≡ some krate
updated-some none s t krate h = cc
updated-some (some k) s t krate h = ap (λ r. some r.0) (ok-eq (k, s) (krate, t) h)

-- `Option::map`
abbrev pub map_option : (Crate → Crate) → Option Crate → Option Crate
map_option f none = none
map_option f (some krate) = some (f krate)

first_map :
    (f : Crate → Crate) (b : Bool) (krate : Crate) (o o' : Option Crate)
    → o' ≡ map_option f o
    → (if b then some (f krate) else o') ≡ map_option f (if b then some krate else o)
first_map f true krate o o' h = refl
first_map f false krate o o' h = h

by_name-map :
    (lower : Text → Text) (new : NewCrate) (crates : List Crate) (name : Text)
    → by_name lower (map (set_columns_if lower new) crates) name
      ≡ map_option (set_columns_if lower new) (by_name lower crates name)
unfolding by_name
by_name-map lower new [] name = refl
by_name-map lower new (krate ∷ crates) name =
    rw
      (ap (λ n. text_eq (canon_crate_name lower n) (canon_crate_name lower name))
        (set_columns_if-keeps lower new krate).0)
      (first_map (set_columns_if lower new) (has_name lower name krate) krate
        (by_name lower crates name) (by_name lower (map (set_columns_if lower new) crates) name)
        (by_name-map lower new crates name))

-- An update of a crate that there is returns that crate, and writes no other table.
pub update-found :
    (lower : Text → Text) (new : NewCrate) (s s' : Tables) (k krate : Crate)
    → update lower new s ≡ ok (k, s')
    → by_name lower s.registry.rows.crates new.name ≡ some krate
    → (k.id ≡ krate.id)
      × (s' ≡ set_crates (map (set_columns_if lower new) s.registry.rows.crates) s)
unfolding update
update-found lower new s s' k krate h found =
    let crates = map (set_columns_if lower new) s.registry.rows.crates in
    let is_some_k = updated-some (by_name lower crates new.name) (set_crates crates s) s' k h in
    let is_krate =
      by_name-map lower new s.registry.rows.crates new.name
      ∙ ap (map_option (set_columns_if lower new)) found in
    let same : k ≡ set_columns_if lower new krate = cc in
    (
      ap (λ x. x.id) same ∙ (set_columns_if-keeps lower new krate).1,
      updated-set (by_name lower crates new.name) (set_crates crates s) s' k h,
    )

-- Whether the crate is new or is there.
pub created_or-cases :
    (lower : Text → Text) (new : NewCrate) (user_id : ℕ) (s s' : Tables) (krate : Crate)
    → created_or (create lower new user_id s) (update lower new s) ≡ ok (krate, s')
    → ((is_some (by_name lower s.registry.rows.crates new.name) ≡ false)
        × (krate ≡ new_row new s.next_crate_id)
        × (s' ≡ insert_crate (new_row new s.next_crate_id) user_id s))
      ⊎ ((is_some (by_name lower s.registry.rows.crates new.name) ≡ true)
          × (update lower new s ≡ ok (krate, s')))
unfolding create
created_or-cases lower new user_id s s' krate h =
    by_taken (is_some (by_name lower s.registry.rows.crates new.name)) refl h
  where
    by_taken :
        (b : Bool)
        → is_some (by_name lower s.registry.rows.crates new.name) ≡ b
        → created_or
            (if b
              then none
              else some (
                new_row new s.next_crate_id,
                insert_crate (new_row new s.next_crate_id) user_id s,
              ))
            (update lower new s)
          ≡ ok (krate, s')
        → ((is_some (by_name lower s.registry.rows.crates new.name) ≡ false)
            × (krate ≡ new_row new s.next_crate_id)
            × (s' ≡ insert_crate (new_row new s.next_crate_id) user_id s))
          ⊎ ((is_some (by_name lower s.registry.rows.crates new.name) ≡ true)
              × (update lower new s ≡ ok (krate, s')))
    by_taken true e k = inr (e, k)
    by_taken false e k =
        let same =
          ok-eq (new_row new s.next_crate_id, insert_crate (new_row new s.next_crate_id) user_id s)
            (krate, s') k in
        inl (e, ap (λ r. r.0) (sym same), ap (λ r. r.1) (sym same))

ensure_may_publish-ok : (rights : Rights) → ensure_may_publish rights ≡ ok tt → rights ≢ no_rights
ensure_may_publish-ok no_rights h e = cc
ensure_may_publish-ok publish h e = cc
ensure_may_publish-ok full h e = cc

pub persist_crate-regular :
    (app : App) (auth : Authentication) (new : NewCrate) (s s' : Tables) (krate : Crate)
    → persist_crate app (regular auth) new s ≡ ok (krate, s')
    → (created_or
          (create app.server.lower new (Auth.user auth).id s)
          (update app.server.lower new s)
        ≡ ok (krate, s'))
      × MayPublish app (Auth.user auth) krate.id s'.registry.rows
unfolding persist_crate
persist_crate-regular app auth new s s' krate h =
    let ((k, t), made, h₁) =
      >>=-eq-ok
        (created_or (create app.server.lower new (Auth.user auth).id s)
          (update app.server.lower new s))
        _ h in
    let (rights, asked, h₂) =
      >>=-eq-ok
        (get app.server.decrypt app.server.github (Auth.user auth) (
          owners t.registry.rows.conn.users t.registry.rows.teams t.registry.rows.crate_owners
            k.id))
        _ h₁ in
    let (_, may, h₃) = >>=-eq-ok (ensure_may_publish rights) _ h₂ in
    subst
      (λ r.
        (created_or (create app.server.lower new (Auth.user auth).id s)
            (update app.server.lower new s)
          ≡ ok r)
        × MayPublish app (Auth.user auth) r.0.id r.1.registry.rows)
      (ok-eq (k, t) (krate, s') h₃) (made, (rights, asked, ensure_may_publish-ok rights may))

update-versions :
    (lower : Text → Text) (new : NewCrate) (s s' : Tables) (krate : Crate)
    → update lower new s ≡ ok (krate, s')
    → s'.registry.versions ≡ s.registry.versions
unfolding update
update-versions lower new s s' krate h =
    let crates = map (set_columns_if lower new) s.registry.rows.crates in
    ap (λ t. t.registry.versions)
      (updated-set (by_name lower crates new.name) (set_crates crates s) s' krate h)

-- No version is touched before the new one is written.
pub persist_crate-versions :
    (app : App) (auth : AuthType) (new : NewCrate) (s s' : Tables) (krate : Crate)
    → persist_crate app auth new s ≡ ok (krate, s')
    → s'.registry.versions ≡ s.registry.versions
unfolding persist_crate
persist_crate-versions app (trust_pub data_) new s s' krate h =
    update-versions app.server.lower new s s' krate h
persist_crate-versions app (regular auth) new s s' krate h =
    elim (created_or-cases app.server.lower new (Auth.user auth).id s s' krate
      (persist_crate-regular app auth new s s' krate h).0) [
        | inl (free, is_new, wrote) ↦ ap (λ t. t.registry.versions) wrote
        | inr (taken, updates) ↦ update-versions app.server.lower new s s' krate updates
      ]
