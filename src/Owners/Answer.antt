-- ===== src/Owners/Answer.antt =====
-- src/controllers/crate_owner_invitation.rs: an invited user accepts or declines.
use crates_io.Prelude.{
  ℕ, Text, Option, none, some, List, [], ◌∷◌, Bool, true, false, Result, ok, err,
}
use crates_io.Errors.{AppError, AppResult, custom, not_found}
use crates_io.Database.Owners.{CrateOwner}
use crates_io.Database.Invitations.{
  CrateOwnerInvitation, accept, decline, find_by_id, find_by_token, AcceptError, diesel, expired,
  email_not_verified,
}
use crates_io.Auth.{Parts, Conn, Authentication, check, default, with_endpoint_scope, for_crate}
use crates_io.Auth
use crates_io.Owners.Base.{Server, State}

-- `From<AcceptError> for BoxedAppError`
abbrev pub accept_error : AcceptError → AppError
accept_error diesel = not_found
accept_error (expired crate_name) =
    custom 410
      "The invitation to become an owner of the {crate_name} crate expired. Please reach out to an owner of the crate to request a new invitation."
      (crate_name ∷ [])
accept_error (email_not_verified crate_name) =
    custom 403
      "You need to verify your email address before you can accept the invitation to become an owner of the {crate_name} crate."
      (crate_name ∷ [])

abbrev pub accepted_rows :
    State
    → Result (List CrateOwner × List CrateOwnerInvitation) AcceptError
    → AppResult (Unit {0}) × State
accepted_rows state (err e) = (err (accept_error e), state)
accepted_rows state (ok (crate_owners, invitations)) =
    (ok tt, record state { crate_owners = crate_owners; crate_owner_invitations = invitations })

abbrev pub accept_invitation : ℕ → State → CrateOwnerInvitation → AppResult (Unit {0}) × State
accept_invitation now state invitation = accepted_rows state (
    accept now state.conn.users state.emails state.crates invitation state.crate_owners
      state.crate_owner_invitations)

abbrev pub answer_invitation :
    ℕ → Bool → State → Option CrateOwnerInvitation → AppResult (Unit {0}) × State
answer_invitation now accepted state none = (err not_found, state)
answer_invitation now true state (some invitation) = accept_invitation now state invitation
answer_invitation now false state (some invitation) = (
  ok tt,
  record state { crate_owner_invitations = decline invitation state.crate_owner_invitations },
)

abbrev pub answer_as :
    ℕ → ℕ → Bool → State → AppResult Authentication → AppResult (Unit {0}) × State
answer_as now crate_id accepted state (err e) = (err e, state)
answer_as now crate_id accepted state (ok auth) =
    answer_invitation now accepted state
      (find_by_id state.crate_owner_invitations (Auth.user auth).id crate_id)

-- `handle_crate_owner_invitation`
unfoldable pub handle_crate_owner_invitation :
    Server → ℕ → Parts → ℕ → Bool → State → AppResult (Unit {0}) × State
unfolding check accept decline find_by_id
handle_crate_owner_invitation server now parts crate_id accepted state =
    let (auth, conn) = check server.sha256 server.allowed_origins now default parts state.conn in
    answer_as now crate_id accepted (record state { conn = conn }) auth

-- `accept_crate_owner_invitation_with_token`
unfoldable pub accept_crate_owner_invitation_with_token :
    ℕ → Text → State → AppResult (Unit {0}) × State
unfolding accept find_by_token
accept_crate_owner_invitation_with_token now token state =
    answer_invitation now true state (find_by_token state.crate_owner_invitations token)
