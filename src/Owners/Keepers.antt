-- ===== src/Owners/Keepers.antt =====
-- No request on owners takes a crate's last individual owner, and none makes a user an owner.
use crates_io.Prelude.{
  ℕ, ◌≡◌, refl, sym, ◌∙◌, ap, inl, inr, Text, List, [], ◌∷◌, Bool, true, false, ◌==◌, if◌then◌else◌,
  ok, err, keep, any, Bool-cases, ◌≢◌, map, ltb, length, >>=-eq-ok, ==_iff,
}
use crates_io.Errors.{AppResult}
use crates_io.Database.User.{User}
use crates_io.Database.Krate.{Crate}
use crates_io.Database.Owners.{
  CrateOwner, user_kind, Owner, is_live, users_owning, owner_remove, is_removed, remove_row,
}
use crates_io.Database.Owners.Live.{keep-removed}
use crates_io.Auth.{Parts, Authentication, check, for_crate, with_endpoint_scope, default}
use crates_io.Auth
use crates_io.Auth.Writes.{check-writes}
use crates_io.Database.Token.{change_owners}
use crates_io.Owners.Base.{Server, State}
use crates_io.Owners.Modify.{
  ModifyResponse, add_logins, removed_rows, remove_logins, ensure_user_owner, remove_all, removed,
  change_logins, commit, change_owned, modify_as, modify_owners, owned_crate,
}
use crates_io.Owners.Users.{SameUsers, add_logins-SameUsers}

removed_rows-other :
    (server : Server) (state : State) (krate : Crate) (c : ℕ) (login : Text)
    (rows rows' : List CrateOwner)
    → (krate.id == c) ≡ false
    → removed_rows (owner_remove server.lower state.conn.users state.teams krate.id login rows)
      ≡ ok rows'
    → keep (is_live user_kind c) rows' ≡ keep (is_live user_kind c) rows
unfolding owner_remove
removed_rows-other server state krate c login rows rows' other h =
    let e : map (remove_row server.lower state.conn.users state.teams krate.id login) rows ≡ rows' =
      removed_ok (any (is_removed server.lower state.conn.users state.teams krate.id login) rows) _
        rows' login h in
    ap (keep (is_live user_kind c)) (sym e)
    ∙ keep-removed server.lower state.conn.users state.teams krate.id c login rows other
  where
    removed_ok :
        (b : Bool) (new out : List CrateOwner) (l : Text)
        → removed_rows (if b then ok new else err l) ≡ ok out
        → new ≡ out
    removed_ok true new out l k = cc
    removed_ok false new out l k = cc

remove_logins-other :
    (server : Server) (state : State) (krate : Crate) (c : ℕ) (logins : List Text)
    (rows rows' : List CrateOwner)
    → (krate.id == c) ≡ false
    → remove_logins server state krate logins rows ≡ ok rows'
    → keep (is_live user_kind c) rows' ≡ keep (is_live user_kind c) rows
unfolding remove_logins
remove_logins-other server state krate c [] rows rows' other h =
    let e : rows' ≡ rows = cc h in ap (keep (is_live user_kind c)) e
remove_logins-other server state krate c (login ∷ logins) rows rows' other h =
    let (mid, first, rest) =
      >>=-eq-ok
        (removed_rows (owner_remove server.lower state.conn.users state.teams krate.id login rows))
        (remove_logins server state krate logins) h in
    remove_logins-other server state krate c logins mid rows' other rest
    ∙ removed_rows-other server state krate c login rows mid other first

-- A crate has an individual owner.
abbrev pub HasUserOwner : ℕ → State → Type 0
HasUserOwner c s = users_owning s.conn.users s.crate_owners c ≢ []

same_owning :
    (users : List User) (rows rows' : List CrateOwner) (c : ℕ)
    → keep (is_live user_kind c) rows' ≡ keep (is_live user_kind c) rows
    → users_owning users rows' c ≡ users_owning users rows c
unfolding users_owning
same_owning users rows rows' c e = rw e refl

same_HasUserOwner : (s s' : State) (c : ℕ) → SameUsers s s' → HasUserOwner c s → HasUserOwner c s'
same_HasUserOwner s s' c (conn, rows) has empty = has (
    sym (same_owning s.conn.users s.crate_owners s'.crate_owners c (rows c))
    ∙ ap (λ (x : Auth.Conn). users_owning x.users s'.crate_owners c) (sym conn)
    ∙ empty)

user_owner_left : (list : List Owner) → ensure_user_owner list ≡ ok tt → list ≢ []
user_owner_left [] h e = cc
user_owner_left (o ∷ list) h e = cc

-- A removal leaves an individual owner, of the crate by its last test, of others by leaving them.
remove_all-HasUserOwner :
    (server : Server) (state : State) (krate : Crate) (logins : List Text) (c : ℕ)
    (rows : List CrateOwner)
    → remove_all server state krate logins ≡ ok rows
    → HasUserOwner c state
    → HasUserOwner c (record state { crate_owners = rows })
remove_all-HasUserOwner server state krate logins c rows h has =
    let (rows', removed_now, rest) =
      >>=-eq-ok (remove_logins server state krate logins state.crate_owners) _ h in
    let (done, left, same) =
      >>=-eq-ok (ensure_user_owner (users_owning state.conn.users rows' krate.id)) _ rest in
    let e : rows' ≡ rows = cc same in
    elim (Bool-cases (krate.id == c)) [
      | inl here_now ↦
          let id : krate.id ≡ c = (==_iff krate.id c).0 here_now in
          rw (← e, ← id) (user_owner_left (users_owning state.conn.users rows' krate.id) left)
      | inr other ↦
          let kept =
            remove_logins-other server state krate c logins state.crate_owners rows' other
              removed_now in
          λ empty.
            has (sym (same_owning state.conn.users state.crate_owners rows' c kept) ∙ rw e empty)
    ]

removed-HasUserOwner :
    (state : State) (c : ℕ) (r : AppResult (List CrateOwner))
    → ((rows : List CrateOwner)
        → r ≡ ok rows
        → HasUserOwner c (record state { crate_owners = rows }))
    → HasUserOwner c state
    → HasUserOwner c (removed state r).1
removed-HasUserOwner state c (err e) h has = has
removed-HasUserOwner state c (ok rows) h has = h rows refl

change_logins-HasUserOwner :
    (server : Server) (now : ℕ) (add : Bool) (req_user : User) (krate : Crate) (before : List Owner)
    (logins : List Text) (state : State) (c : ℕ)
    → HasUserOwner c state
    → HasUserOwner c (change_logins server now add req_user krate before logins state).1
unfolding change_logins
change_logins-HasUserOwner server now true req_user krate before logins state c has =
    same_HasUserOwner state (add_logins server now req_user krate before logins state).1 c
      (add_logins-SameUsers server now req_user krate before logins state) has
change_logins-HasUserOwner server now false req_user krate before logins state c has =
    removed-HasUserOwner state c (remove_all server state krate logins)
      (λ rows e. remove_all-HasUserOwner server state krate logins c rows e has) has

commit-HasUserOwner :
    (state : State) (c : ℕ) (r : AppResult ModifyResponse × State)
    → HasUserOwner c state
    → HasUserOwner c r.1
    → HasUserOwner c (commit state r).1
commit-HasUserOwner state c (ok r, s) has has' = has'
commit-HasUserOwner state c (err e, s) has has' = has

modify_as-HasUserOwner :
    (server : Server) (now : ℕ) (add : Bool) (crate_name : Text) (logins : List Text)
    (state : State) (c : ℕ) (auth : AppResult Authentication)
    → HasUserOwner c state
    → HasUserOwner c (modify_as server now add crate_name logins state auth).1
modify_as-HasUserOwner server now add crate_name logins state c (err e) has = has
modify_as-HasUserOwner server now add crate_name logins state c (ok auth) has =
    owned (owned_crate server (Auth.user auth) crate_name state)
  where
    owned :
        (r : AppResult (Crate × List Owner))
        → HasUserOwner c (change_owned server now add (Auth.user auth) logins state r).1
    owned (err e) = has
    owned (ok (krate, before)) =
        commit-HasUserOwner state c
          (change_logins server now add (Auth.user auth) krate before logins state) has
          (change_logins-HasUserOwner server now add (Auth.user auth) krate before logins state c
            has)

-- A crate that has an individual owner has one after every request on owners, of this crate or of
-- another, whether the request adds or removes, succeeds or fails.
pub modify_owners-HasUserOwner :
    (server : Server) (now : ℕ) (crate_name : Text) (parts : Parts) (logins : List Text)
    (add : Bool) (state : State) (c : ℕ)
    → HasUserOwner c state
    → HasUserOwner c (modify_owners server now crate_name parts logins add state).1
unfolding modify_owners
modify_owners-HasUserOwner server now crate_name parts logins add state c has =
    let auth_check = for_crate (with_endpoint_scope default change_owners) crate_name in
    let checked = check server.sha256 server.allowed_origins now auth_check parts state.conn in
    let users =
      (check-writes server.sha256 server.allowed_origins now auth_check parts state.conn).0 in
    elim (Bool-cases (ltb 10 (length logins))) [
      | inl e ↦ rw e has
      | inr e ↦ rw e (
          modify_as-HasUserOwner server now add crate_name logins
            (record state { conn = checked.1 }) c checked.0 (λ empty. has (rw (← users) empty)))
    ]
