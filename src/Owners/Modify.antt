-- ===== src/Owners/Modify.antt =====
-- src/controllers/krate/owners.rs: `modify_owners`. A transaction that fails leaves the rows that it began
-- with. The texts of e-mails are not modelled: an invitation's e-mail is its recipient and token.
use crates_io.Prelude.{
  ℕ, Text, Option, none, some, List, [], ◌∷◌, Bool, if◌then◌else◌, text_eq, ltb, Result, ok, err,
  String, any, length, ◌>>=◌, ◌>>◌,
}
use crates_io.Errors.{AppResult, bad_request, forbidden, crate_not_found}
use crates_io.Database.User.{User}
use crates_io.Database.Krate.{Crate, by_name}
use crates_io.Database.Token.{change_owners}
use crates_io.Database.Owners.{
  CrateOwner, Owner, owner_login, owners, users_owning, owner_remove, verified_email,
}
use crates_io.Auth.{Parts, Conn, Authentication, check, default, with_endpoint_scope, for_crate}
use crates_io.Auth
use crates_io.Rights.{Rights, no_rights, publish, full, get}
use crates_io.Owners.Base.{
  Server, State, NewOwnerInvite, user, team, OwnerAddError, app_error, already_invited,
}
use crates_io.Owners.Add.{add_owner}

-- A message is its format string with the texts in it.
pub record Message : Type 0 where
  pub text : String
  pub args : List Text

-- An invitation's e-mail: the recipient and the token.
pub record InviteEmail : Type 0 where
  pub recipient : Text
  pub token : Text

pub record ModifyResponse : Type 0 where
  pub msgs : List Message
  pub emails : List InviteEmail

abbrev pub response_with : Message → Option Text → Text → ModifyResponse → ModifyResponse
response_with msg none token r = record r { msgs = msg ∷ r.msgs }
response_with msg (some address) token r = record {
  msgs = msg ∷ r.msgs;
  emails = record { recipient = address; token = token } ∷ r.emails;
}

-- What one login adds to the response, `none` for an error that ends the request.
abbrev pub added :
    State
    → Crate
    → Result NewOwnerInvite OwnerAddError
    → AppResult (ModifyResponse → ModifyResponse)
added state krate (ok (user invitee token)) = ok (
    response_with
      (record {
        text = "user {} has been invited to be an owner of crate {}";
        args = invitee.gh_login ∷ krate.name ∷ [];
      })
      (verified_email state.emails invitee.id) token)
added state krate (ok (team t)) = ok (
    response_with
      (record {
        text = "team {} has been added as an owner of crate {}";
        args = t.login ∷ krate.name ∷ [];
      })
      none [])
added state krate (err (already_invited invitee)) = ok (
    response_with
      (record {
        text = "user {} already has a pending invitation to be an owner of crate {}";
        args = invitee.gh_login ∷ krate.name ∷ [];
      })
      none [])
added state krate (err (app_error e)) = err e

abbrev pub is_owner_login : Server → Text → Owner → Bool
is_owner_login server login owner =
    text_eq (server.to_lowercase (owner_login owner)) (server.to_lowercase login)

abbrev pub and_rest :
    AppResult (ModifyResponse → ModifyResponse)
    → AppResult ModifyResponse × State
    → State
    → AppResult ModifyResponse × State
and_rest (err e) rest state = (err e, state)
and_rest (ok f) (err e, state') state = (err e, state')
and_rest (ok f) (ok r, state') state = (ok (f r), state')

-- The loop of `modify_owners` that adds; the owners are those from before it.
unfoldable pub add_logins :
    Server → ℕ → User → Crate → List Owner → List Text → State → AppResult ModifyResponse × State
unfolding add_owner text_eq verified_email
add_logins server now req_user krate before [] state =
    (ok (record { msgs = []; emails = [] }), state)
add_logins server now req_user krate before (login ∷ logins) state =
    let (result, state') = add_owner server now state req_user krate login in
    let rest = add_logins server now req_user krate before logins state' in
    if any (is_owner_login server login) before
    then (err (bad_request "`{login}` is already an owner" (login ∷ [])), state)
    else and_rest (added state' krate result) rest state'

abbrev pub removed_rows : Result (List CrateOwner) Text → AppResult (List CrateOwner)
removed_rows (ok rows) = ok rows
removed_rows (err login) =
    err (bad_request "could not find owner with login `{login}`" (login ∷ []))

-- The loop of `modify_owners` that removes.
unfoldable pub remove_logins :
    Server → State → Crate → List Text → List CrateOwner → AppResult (List CrateOwner)
unfolding owner_remove
remove_logins server state krate [] rows = ok rows
remove_logins server state krate (login ∷ logins) rows = do
  rows' ← removed_rows (owner_remove server.lower state.conn.users state.teams krate.id login rows)
  remove_logins server state krate logins rows'

abbrev pub ensure_user_owner : List Owner → AppResult (Unit {0})
ensure_user_owner [] = err (
    bad_request
      "cannot remove all individual owners of a crate. Team member don't have permission to modify owners, so at least one individual owner is required."
      [])
ensure_user_owner (owner ∷ rest) = ok tt

abbrev pub remove_all : Server → State → Crate → List Text → AppResult (List CrateOwner)
remove_all server state krate logins = do
  rows ← remove_logins server state krate logins state.crate_owners
  ensure_user_owner (users_owning state.conn.users rows krate.id)
  ok rows

abbrev pub ensure_full : Rights → AppResult (Unit {0})
ensure_full full = ok tt
ensure_full publish = err (forbidden "team members don't have permission to modify owners")
ensure_full no_rights = err (forbidden "only owners have permission to modify owners")

abbrev pub removed : State → AppResult (List CrateOwner) → AppResult ModifyResponse × State
removed state (err e) = (err e, state)
removed state (ok rows) = (
  ok (record {
    msgs = record { text = "owners successfully removed"; args = [] } ∷ [];
    emails = [];
  }),
  record state { crate_owners = rows },
)

-- The work behind the checks.
unfoldable pub change_logins :
    Server
    → ℕ
    → Bool
    → User
    → Crate
    → List Owner
    → List Text
    → State
    → AppResult ModifyResponse × State
unfolding add_logins remove_logins users_owning
change_logins server now add req_user krate before logins state =
    if add
    then add_logins server now req_user krate before logins state
    else removed state (remove_all server state krate logins)

abbrev pub find_crate : Text → Option Crate → AppResult Crate
find_crate name none = err (crate_not_found name)
find_crate name (some krate) = ok krate

-- The checks of the transaction: the crate, its owners, and the full rights of the user.
unfoldable pub owned_crate : Server → User → Text → State → AppResult (Crate × List Owner)
unfolding by_name owners get
owned_crate server req_user crate_name state = do
  krate ← find_crate crate_name (by_name server.lower state.crates crate_name)
  let before = owners state.conn.users state.teams state.crate_owners krate.id
  rights ← get server.decrypt server.github req_user before
  ensure_full rights
  ok (krate, before)

-- A failed transaction is rolled back. Numbers that the sequence gave out stay used.
abbrev pub commit : State → AppResult ModifyResponse × State → AppResult ModifyResponse × State
commit state (ok r, state') = (ok r, state')
commit state (err e, state') = (err e, record state { next_team_id = state'.next_team_id })

abbrev pub change_owned :
    Server
    → ℕ
    → Bool
    → User
    → List Text
    → State
    → AppResult (Crate × List Owner)
    → AppResult ModifyResponse × State
change_owned server now add req_user logins state (err e) = (err e, state)
change_owned server now add req_user logins state (ok (krate, before)) =
    commit state (change_logins server now add req_user krate before logins state)

abbrev pub modify_as :
    Server
    → ℕ
    → Bool
    → Text
    → List Text
    → State
    → AppResult Authentication
    → AppResult ModifyResponse × State
modify_as server now add crate_name logins state (err e) = (err e, state)
modify_as server now add crate_name logins state (ok auth) =
    change_owned server now add (Auth.user auth) logins state
      (owned_crate server (Auth.user auth) crate_name state)

-- `modify_owners`
unfoldable pub modify_owners :
    Server → ℕ → Text → Parts → List Text → Bool → State → AppResult ModifyResponse × State
unfolding change_logins owned_crate check
modify_owners server now crate_name parts logins add state =
    let (auth, conn) =
      check server.sha256 server.allowed_origins now
        (for_crate (with_endpoint_scope default change_owners) crate_name) parts state.conn in
    if ltb 10 (length logins)
    then (err (bad_request "too many invites for this request - maximum 10" []), state)
    else modify_as server now add crate_name logins (record state { conn = conn }) auth
