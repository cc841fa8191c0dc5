-- ===== src/Owners/Control.antt =====
-- Who changes the owners of a crate, and what a refused request leaves.
use crates_io.Prelude.{
  ℕ, ◌≡◌, ◌≤◌, refl, ◌∙◌, ap, subst, Text, Option, none, some, List, Bool, true, false, ok, err,
  arith, ltb, length, if◌then◌else◌, >>=-eq-ok,
}
use crates_io.Errors.{AppError, AppResult}
use crates_io.Database.User.{User}
use crates_io.Database.Krate.{Crate, by_name}
use crates_io.Database.Owners.{Owner, owners}
use crates_io.Database.Owners.Live.{IsUserOwner}
use crates_io.Auth.{Parts, Authentication, check, for_crate, with_endpoint_scope, default}
use crates_io.Auth
use crates_io.Auth.Writes.{check-writes}
use crates_io.Rights.{Rights, no_rights, publish, full, get}
use crates_io.Rights.Grant.{get-full_sound}
use crates_io.Database.Token.{change_owners}
use crates_io.Owners.Base.{Server, State}
use crates_io.Owners.Modify.{
  ModifyResponse, change_logins, commit, change_owned, modify_as, modify_owners, owned_crate,
  find_crate, ensure_full,
}

find_crate_sound :
    (name : Text) (o : Option Crate) (krate : Crate) → find_crate name o ≡ ok krate → o ≡ some krate
find_crate_sound name none krate e = cc
find_crate_sound name (some k) krate e = cc

ensure_full_sound : (r : Rights) → ensure_full r ≡ ok tt → r ≡ full
ensure_full_sound full e = refl
ensure_full_sound publish e = cc
ensure_full_sound no_rights e = cc

owned_crate_sound :
    (server : Server) (req_user : User) (crate_name : Text) (state : State) (krate : Crate)
    (before : List Owner)
    → owned_crate server req_user crate_name state ≡ ok (krate, before)
    → (by_name server.lower state.crates crate_name ≡ some krate)
      × IsUserOwner krate.id req_user.id state.crate_owners
unfolding owned_crate
owned_crate_sound server req_user crate_name state krate before e =
    let (k, found, rest) =
      >>=-eq-ok (find_crate crate_name (by_name server.lower state.crates crate_name)) _ e in
    let list = owners state.conn.users state.teams state.crate_owners k.id in
    let (rights, answered, rest') =
      >>=-eq-ok (get server.decrypt server.github req_user list) _ rest in
    let (done, passed, same) = >>=-eq-ok (ensure_full rights) _ rest' in
    let is_full = ensure_full_sound rights passed in
    let same_krate : k ≡ krate = cc same in
    let owner =
      get-full_sound server.decrypt server.github req_user state.conn.users state.teams
        state.crate_owners k.id (answered ∙ ap ok is_full) in
    (
      find_crate_sound crate_name _ krate (found ∙ ap ok same_krate),
      subst (λ (c : Crate). IsUserOwner c.id req_user.id state.crate_owners) same_krate owner,
    )

-- What a request that is not refused shows of the one who makes it.
abbrev pub ByOwner : Server → Text → State → User → Type 0
ByOwner server crate_name state u =
    (krate : Crate) × (by_name server.lower state.crates crate_name ≡ some krate)
    × IsUserOwner krate.id u.id state.crate_owners

change_owned-ByOwner :
    (server : Server) (now : ℕ) (add : Bool) (u : User) (crate_name : Text) (logins : List Text)
    (state : State) (r : AppResult (Crate × List Owner)) (response : ModifyResponse)
    → owned_crate server u crate_name state ≡ r
    → (change_owned server now add u logins state r).0 ≡ ok response
    → ByOwner server crate_name state u
change_owned-ByOwner server now add u crate_name logins state (err e) response h k = cc
change_owned-ByOwner server now add u crate_name logins state (ok (krate, before)) response h k =
    let (found, owner) = owned_crate_sound server u crate_name state krate before h in
    (krate, found, owner)

modify_as-ByOwner :
    (server : Server) (now : ℕ) (add : Bool) (crate_name : Text) (logins : List Text)
    (state : State) (r : AppResult Authentication) (response : ModifyResponse)
    → (modify_as server now add crate_name logins state r).0 ≡ ok response
    → (auth : Authentication) × (r ≡ ok auth) × ByOwner server crate_name state (Auth.user auth)
modify_as-ByOwner server now add crate_name logins state (err e) response h = cc
modify_as-ByOwner server now add crate_name logins state (ok auth) response h = (
  auth,
  refl,
  change_owned-ByOwner server now add (Auth.user auth) crate_name logins state _ response refl h,
)

within_limit :
    (b : Bool) (e : AppError) (s : State) (r : AppResult ModifyResponse × State)
    (response : ModifyResponse)
    → (if b then (err e, s) else r).0 ≡ ok response
    → (b ≡ false) × (r.0 ≡ ok response)
within_limit true e s r response h = cc
within_limit false e s r response h = (refl, h)

-- A request on owners that succeeds names at most ten logins, passes the check for changing the
-- owners of the crate, and comes from a user who was an individual owner of the crate.
pub modify_owners-ByOwner :
    (server : Server) (now : ℕ) (crate_name : Text) (parts : Parts) (logins : List Text)
    (add : Bool) (state : State) (response : ModifyResponse)
    → (modify_owners server now crate_name parts logins add state).0 ≡ ok response
    → (length logins ≤ 10)
      × ((auth : Authentication) × ((check server.sha256 server.allowed_origins now
              (for_crate (with_endpoint_scope default change_owners) crate_name)
              parts
              state.conn).0
            ≡ ok auth)
          × ByOwner server crate_name state (Auth.user auth))
unfolding modify_owners
modify_owners-ByOwner server now crate_name parts logins add state response h =
    let auth_check = for_crate (with_endpoint_scope default change_owners) crate_name in
    let checked = check server.sha256 server.allowed_origins now auth_check parts state.conn in
    let (few, done) =
      within_limit (ltb 10 (length logins)) _ state
        (modify_as server now add crate_name logins (record state { conn = checked.1 }) checked.0)
        response h in
    (
      ground (arith, few),
      modify_as-ByOwner server now add crate_name logins (record state { conn = checked.1 })
          checked.0 response done,
    )

-- The rows that a request on owners writes, but for those of the tokens.
abbrev pub SameRows : State → State → Type 0
SameRows s s' =
    (s'.crate_owners ≡ s.crate_owners)
    × (s'.teams ≡ s.teams)
    × (s'.crate_owner_invitations ≡ s.crate_owner_invitations)
    × (s'.crates ≡ s.crates)
    × (s'.emails ≡ s.emails)
    × (s'.conn.users ≡ s.conn.users)

commit-SameRows :
    (state : State) (r : AppResult ModifyResponse × State) (e : AppError)
    → (commit state r).0 ≡ err e
    → SameRows state (commit state r).1
commit-SameRows state (ok r, s) e h = cc
commit-SameRows state (err x, s) e h = (refl, refl, refl, refl, refl, refl)

change_owned-SameRows :
    (server : Server) (now : ℕ) (add : Bool) (u : User) (logins : List Text) (state : State)
    (r : AppResult (Crate × List Owner)) (e : AppError)
    → (change_owned server now add u logins state r).0 ≡ err e
    → SameRows state (change_owned server now add u logins state r).1
change_owned-SameRows server now add u logins state (err x) e h =
    (refl, refl, refl, refl, refl, refl)
change_owned-SameRows server now add u logins state (ok (krate, before)) e h =
    commit-SameRows state (change_logins server now add u krate before logins state) e h

modify_as-SameRows :
    (server : Server) (now : ℕ) (add : Bool) (crate_name : Text) (logins : List Text)
    (state : State) (r : AppResult Authentication) (e : AppError)
    → (modify_as server now add crate_name logins state r).0 ≡ err e
    → SameRows state (modify_as server now add crate_name logins state r).1
modify_as-SameRows server now add crate_name logins state (err x) e h =
    (refl, refl, refl, refl, refl, refl)
modify_as-SameRows server now add crate_name logins state (ok auth) e h =
    change_owned-SameRows server now add (Auth.user auth) logins state
      (owned_crate server (Auth.user auth) crate_name state) e h

-- A request on owners that fails, at whatever login, changes no owner, team, invitation, crate,
-- e-mail address or user.
pub modify_owners-err :
    (server : Server) (now : ℕ) (crate_name : Text) (parts : Parts) (logins : List Text)
    (add : Bool) (state : State) (e : AppError)
    → (modify_owners server now crate_name parts logins add state).0 ≡ err e
    → SameRows state (modify_owners server now crate_name parts logins add state).1
unfolding modify_owners
modify_owners-err server now crate_name parts logins add state e h =
    let auth_check = for_crate (with_endpoint_scope default change_owners) crate_name in
    let checked = check server.sha256 server.allowed_origins now auth_check parts state.conn in
    let users =
      (check-writes server.sha256 server.allowed_origins now auth_check parts state.conn).0 in
    limited (ltb 10 (length logins))
      (modify_as server now add crate_name logins (record state { conn = checked.1 }) checked.0) _ h
      (λ k.
        let (a, b, c, d, f, g) =
          modify_as-SameRows server now add crate_name logins (record state { conn = checked.1 })
            checked.0 e k in
        (a, b, c, d, f, g ∙ users))
  where
    limited :
        (b : Bool) (r : AppResult ModifyResponse × State) (x : AppError)
        → (if b then (err x, state) else r).0 ≡ err e
        → (r.0 ≡ err e → SameRows state r.1)
        → SameRows state (if b then (err x, state) else r).1
    limited true r x k ih = (refl, refl, refl, refl, refl, refl)
    limited false r x k ih = ih k
