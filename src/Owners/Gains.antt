-- ===== src/Owners/Gains.antt =====
-- Who is an individual owner after one request, and was not before.
use crates_io.Prelude.{
  ℕ, ◌≡◌, ◌<◌, refl, sym, subst, ◌⊎◌, inl, inr, Text, some, List, [], ◌∷◌, Bool, true, false,
  Result, ok, err, map, arith, ltb, length, >>=-eq-ok, Any, Any-map, Any-keep, if◌then◌else◌,
}
use crates_io.Errors.{AppError, AppResult}
use crates_io.Database.User.{User}
use crates_io.Database.Krate.{Crate}
use crates_io.Database.Owners.{
  CrateOwner, user_kind, Team, Owner, verified_email, is_live, owner_remove, is_removed, remove_row,
  users_owning,
}
use crates_io.Database.Owners.Live.{IsUserOwner}
use crates_io.Database.Owners.Insert.{LiveUser, insert-Any}
use crates_io.Database.Invitations.{CrateOwnerInvitation, AcceptError, from_invite, accept}
use crates_io.Database.Invitations.Lifecycle.{accept_sound}
use crates_io.Auth.{Parts, Authentication, check, for_crate, with_endpoint_scope, default}
use crates_io.Auth
use crates_io.Database.Token.{change_owners}
use crates_io.Owners.Base.{Server, State}
use crates_io.Owners.Modify.{
  ModifyResponse, removed_rows, remove_logins, ensure_user_owner, remove_all, removed, add_logins,
  change_logins, commit, change_owned, modify_as, modify_owners, owned_crate,
}
use crates_io.Owners.Answer.{accepted_rows, accept_invitation}
use crates_io.Owners.Users.{add_logins-SameUsers}

-- A user has an invitation to a crate that has not expired, and a verified address.
pub data Invited (now c u : ℕ) (s : State) : Type 0 where
  by_invitation :
      (row : CrateOwnerInvitation) (address : Text)
      → Any (λ r. r ≡ row) s.crate_owner_invitations
      → row.invited_user_id ≡ u
      → row.crate_id ≡ c
      → now < row.expires_at
      → verified_email s.emails u ≡ some address
      → Invited now c u s

-- A removal makes no owner.
removed_before :
    (lower : Text → Text) (users : List User) (teams : List Team) (d : ℕ) (login : Text) (c u : ℕ)
    (row : CrateOwner)
    → LiveUser c (λ id. id ≡ u) (remove_row lower users teams d login row)
    → LiveUser c (λ id. id ≡ u) row
removed_before lower users teams d login c u row h =
    gone (is_removed lower users teams d login row) h
  where
    gone :
        (b : Bool)
        → LiveUser c (λ id. id ≡ u) (if b then record row { deleted = true } else row)
        → LiveUser c (λ id. id ≡ u) row
    gone true k = cc
    gone false k = k

removed_ok :
    (b : Bool) (new out : List CrateOwner) (l : Text)
    → removed_rows (if b then ok new else err l) ≡ ok out
    → new ≡ out
removed_ok true new out l k = cc
removed_ok false new out l k = cc

remove_logins-before :
    (server : Server) (state : State) (krate : Crate) (c u : ℕ) (logins : List Text)
    (rows rows' : List CrateOwner)
    → remove_logins server state krate logins rows ≡ ok rows'
    → IsUserOwner c u rows'
    → IsUserOwner c u rows
unfolding remove_logins owner_remove
remove_logins-before server state krate c u [] rows rows' h a =
    let e : rows' ≡ rows = cc h in subst (IsUserOwner c u) e a
remove_logins-before server state krate c u (login ∷ logins) rows rows' h a =
    let (mid, first, rest) =
      >>=-eq-ok
        (removed_rows (owner_remove server.lower state.conn.users state.teams krate.id login rows))
        (remove_logins server state krate logins) h in
    let e =
      removed_ok _ (map (remove_row server.lower state.conn.users state.teams krate.id login) rows)
        mid login first in
    Any-map (remove_row server.lower state.conn.users state.teams krate.id login)
      (removed_before server.lower state.conn.users state.teams krate.id login c u) rows
      (subst (IsUserOwner c u) (sym e)
        (remove_logins-before server state krate c u logins mid rows' rest a))

change_logins-before :
    (server : Server) (now : ℕ) (add : Bool) (req_user : User) (krate : Crate) (before : List Owner)
    (logins : List Text) (state : State) (c u : ℕ)
    → IsUserOwner c u
        (change_logins server now add req_user krate before logins state).1.crate_owners
    → IsUserOwner c u state.crate_owners
unfolding change_logins
change_logins-before server now true req_user krate before logins state c u a =
    let state' = (add_logins server now req_user krate before logins state).1 in
    let same = (add_logins-SameUsers server now req_user krate before logins state).1 c in
    (Any-keep (is_live user_kind c) state.crate_owners).0 (
      subst (Any (λ (row : CrateOwner). row.owner_id ≡ u)) same
        ((Any-keep (is_live user_kind c) state'.crate_owners).1 a))
change_logins-before server now false req_user krate before logins state c u a =
    removed_rows-before (remove_all server state krate logins) refl a
  where
    removed_rows-before :
        (r : AppResult (List CrateOwner))
        → remove_all server state krate logins ≡ r
        → IsUserOwner c u (removed state r).1.crate_owners
        → IsUserOwner c u state.crate_owners
    removed_rows-before (err e) h b = b
    removed_rows-before (ok rows) h b =
        let (rows', gone, rest) =
          >>=-eq-ok (remove_logins server state krate logins state.crate_owners) _ h in
        let (done_now, left, same) =
          >>=-eq-ok (ensure_user_owner (users_owning state.conn.users rows' krate.id)) _ rest in
        let e : rows ≡ rows' = sym (cc same) in
        remove_logins-before server state krate c u logins state.crate_owners rows' gone
          (subst (IsUserOwner c u) e b)

modify_as-before :
    (server : Server) (now : ℕ) (add : Bool) (crate_name : Text) (logins : List Text)
    (state : State) (c u : ℕ) (auth : AppResult Authentication)
    → IsUserOwner c u (modify_as server now add crate_name logins state auth).1.crate_owners
    → IsUserOwner c u state.crate_owners
modify_as-before server now add crate_name logins state c u (err e) a = a
modify_as-before server now add crate_name logins state c u (ok auth) a =
    owned (owned_crate server (Auth.user auth) crate_name state) a
  where
    committed :
        (r : AppResult ModifyResponse × State)
        → (IsUserOwner c u r.1.crate_owners → IsUserOwner c u state.crate_owners)
        → IsUserOwner c u (commit state r).1.crate_owners
        → IsUserOwner c u state.crate_owners
    committed (ok x, s) f b = f b
    committed (err x, s) f b = b

    owned :
        (r : AppResult (Crate × List Owner))
        → IsUserOwner c u
            (change_owned server now add (Auth.user auth) logins state r).1.crate_owners
        → IsUserOwner c u state.crate_owners
    owned (err e) b = b
    owned (ok (krate, before)) b =
        committed (change_logins server now add (Auth.user auth) krate before logins state)
          (change_logins-before server now add (Auth.user auth) krate before logins state c u) b

-- A request on owners makes no user an owner: it only invites.
pub modify_owners-before :
    (server : Server) (now : ℕ) (crate_name : Text) (parts : Parts) (logins : List Text)
    (add : Bool) (state : State) (c u : ℕ)
    → IsUserOwner c u (modify_owners server now crate_name parts logins add state).1.crate_owners
    → IsUserOwner c u state.crate_owners
unfolding modify_owners
modify_owners-before server now crate_name parts logins add state c u a =
    let auth_check = for_crate (with_endpoint_scope default change_owners) crate_name in
    let checked = check server.sha256 server.allowed_origins now auth_check parts state.conn in
    limited (ltb 10 (length logins)) _
      (modify_as server now add crate_name logins (record state { conn = checked.1 }) checked.0)
      (modify_as-before server now add crate_name logins (record state { conn = checked.1 }) c u
        checked.0)
      a
  where
    limited :
        (b : Bool) (x : AppError) (r : AppResult ModifyResponse × State)
        → (IsUserOwner c u r.1.crate_owners → IsUserOwner c u state.crate_owners)
        → IsUserOwner c u (if b then (err x, state) else r).1.crate_owners
        → IsUserOwner c u state.crate_owners
    limited true x r f b = b
    limited false x r f b = f b

pub accept-Invited :
    (now : ℕ) (state : State) (row : CrateOwnerInvitation) (c u : ℕ)
    → Any (λ r. r ≡ row) state.crate_owner_invitations
    → IsUserOwner c u (accept_invitation now state row).1.crate_owners
    → IsUserOwner c u state.crate_owners ⊎ Invited now c u state
accept-Invited now state row c u listed a =
    accepted
      (accept now state.conn.users state.emails state.crates row state.crate_owners
        state.crate_owner_invitations)
      refl a
  where
    accepted :
        (r : Result (List CrateOwner × List CrateOwnerInvitation) AcceptError)
        → accept now state.conn.users state.emails state.crates row state.crate_owners
            state.crate_owner_invitations
          ≡ r
        → IsUserOwner c u (accepted_rows state r).1.crate_owners
        → IsUserOwner c u state.crate_owners ⊎ Invited now c u state
    accepted (err e) h b = inl b
    accepted (ok (rows, invitations)) h b =
        let (fresh, (address, verified), inserted, rest) =
          accept_sound now state.conn.users state.emails state.crates row state.crate_owners rows
            state.crate_owner_invitations invitations h in
        elim (insert-Any c (λ id. id ≡ u) (from_invite row) state.crate_owners refl
          (subst (IsUserOwner c u) inserted b)) [
            | inl k ↦ inl k
            | inr (live, same) ↦ inr (
                by_invitation row address listed same (ground (arith, live)) fresh
                  (rw (← same) verified))
          ]
