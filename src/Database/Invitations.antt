-- ===== src/Database/Invitations.antt =====
-- crates/crates_io_database/src/models/crate_owner_invitation.rs: the invitations to own a crate.
-- The clock and the random token of a new row are parameters.
pub mod Lifecycle
use crates_io.Prelude.{
  ℕ, Text, Option, none, some, List, [], ◌∷◌, ◌++◌, Bool, true, false, not, ◌&&◌, ◌==◌,
  if◌then◌else◌, text_eq, leb, keep, any, Result, ok, err, is_some,
}
use crates_io.Database.Krate.{Crate}
use crates_io.Database.User.{User, find}
use crates_io.Database.Owners.{CrateOwner, user_kind, Email, verified_email, insert}

-- A row of `crate_owner_invitations`, whose key is the invited user and the crate.
pub record CrateOwnerInvitation : Type 0 where
  pub invited_user_id : ℕ
  pub invited_by_user_id : ℕ
  pub crate_id : ℕ
  pub created_at : ℕ
  pub token : Text
  pub expires_at : ℕ

pub record NewCrateOwnerInvitation : Type 0 where
  pub invited_user_id : ℕ
  pub invited_by_user_id : ℕ
  pub crate_id : ℕ
  pub expires_at : ℕ

pub data NewCrateOwnerInvitationOutcome : Type 0 where
  already_exists : NewCrateOwnerInvitationOutcome
  invite_created : Text → NewCrateOwnerInvitationOutcome

pub data AcceptError : Type 0 where
  -- A missing row.
  diesel : AcceptError
  expired email_not_verified : Text → AcceptError

abbrev pub is_for : ℕ → ℕ → CrateOwnerInvitation → Bool
is_for user_id crate_id row = row.invited_user_id == user_id && row.crate_id == crate_id

abbrev pub is_expired : ℕ → CrateOwnerInvitation → Bool
is_expired now row = leb row.expires_at now

-- `NewCrateOwnerInvitation::create`: the rows, and what became of the invitation.
unfoldable pub create :
    ℕ
    → Text
    → NewCrateOwnerInvitation
    → List CrateOwnerInvitation
    → NewCrateOwnerInvitationOutcome × List CrateOwnerInvitation
create now token new rows =
    let kept =
      keep (λ row. not (is_for new.invited_user_id new.crate_id row && is_expired now row)) rows in
    if any (is_for new.invited_user_id new.crate_id) kept then (already_exists, kept) else (
      invite_created token,
      record {
        invited_user_id = new.invited_user_id;
        invited_by_user_id = new.invited_by_user_id;
        crate_id = new.crate_id;
        created_at = now;
        token = token;
        expires_at = new.expires_at;
      }
          ∷ kept,
    )

unfoldable pub find_by_id : List CrateOwnerInvitation → ℕ → ℕ → Option CrateOwnerInvitation
find_by_id [] user_id crate_id = none
find_by_id (row ∷ rows) user_id crate_id =
    if is_for user_id crate_id row then some row else find_by_id rows user_id crate_id

unfoldable pub find_by_token : List CrateOwnerInvitation → Text → Option CrateOwnerInvitation
unfolding text_eq
find_by_token [] token = none
find_by_token (row ∷ rows) token =
    if text_eq row.token token then some row else find_by_token rows token

-- The delete of one row by its key; also `CrateOwnerInvitation::decline`.
unfoldable pub decline :
    CrateOwnerInvitation → List CrateOwnerInvitation → List CrateOwnerInvitation
decline invitation rows =
    keep (λ row. not (is_for invitation.invited_user_id invitation.crate_id row)) rows

-- `CrateOwner::from_invite`
abbrev pub from_invite : CrateOwnerInvitation → CrateOwner
from_invite invite = record {
  crate_id = invite.crate_id;
  owner_id = invite.invited_user_id;
  created_by = invite.invited_by_user_id;
  owner_kind = user_kind;
  deleted = false;
}

unfoldable pub crate_name : List Crate → ℕ → Option Text
crate_name [] id = none
crate_name (krate ∷ crates) id = if krate.id == id then some krate.name else crate_name crates id

abbrev pub named : (Text → AcceptError) → Option Text → AcceptError
named e none = diesel
named e (some name) = e name

-- `CrateOwnerInvitation::accept`: the new rows of `crate_owners` and of the invitations.
unfoldable pub accept :
    ℕ
    → List User
    → List Email
    → List Crate
    → CrateOwnerInvitation
    → List CrateOwner
    → List CrateOwnerInvitation
    → Result (List CrateOwner × List CrateOwnerInvitation) AcceptError
unfolding find verified_email insert decline crate_name
accept now users emails crates invitation crate_owners invitations =
    if is_expired now invitation
    then err (named expired (crate_name crates invitation.crate_id))
    else if not (is_some (find users invitation.invited_user_id))
    then err diesel
    else if not (is_some (verified_email emails invitation.invited_user_id))
    then err (named email_not_verified (crate_name crates invitation.crate_id))
    else ok (insert (from_invite invitation) crate_owners, decline invitation invitations)
