-- ===== src/Owners/Examples.antt =====
-- A crate with an owner, and a user who has an invitation.
use crates_io.Prelude.{true, false, none, some, [], ◌∷◌, Text, codes, map, ok, pos, ascii_lowercase}
use crates_io.Database.User.{User}
use crates_io.Database.Owners.{CrateOwner, user_kind}
use crates_io.Database.Invitations.{CrateOwnerInvitation, NewCrateOwnerInvitation}
use crates_io.Github.{GitHubClient}
use crates_io.Auth.{Parts}
use crates_io.Owners.Base.{Server, State}

abbrev pub ann : User
ann = record {
  id = 3;
  gh_id = pos 30;
  gh_login = codes "ann";
  gh_encrypted_token = [];
  account_lock_reason = none;
  account_lock_until = none;
  is_admin = false;
}

abbrev bob : User
bob = record ann { id = 4; gh_id = pos 40; gh_login = codes "bob" }

-- Ann is a member of the one team of the one organization.
abbrev pub github : GitHubClient
github = record {
  team_by_name = λ org name token. ok (record { id = 70; name = none; organization_id = 7 });
  team_membership = λ org team login token. ok (some (record { state = codes "active" }));
  org_membership = λ org login token. ok none;
  org_by_name = λ org token. ok (record { id = 7; avatar_url = none });
}

abbrev lower : Text → Text
lower s = map ascii_lowercase s

abbrev pub server : Server
server = record {
  sha256 = λ s. s;
  allowed_origins = [];
  lower = lower;
  to_lowercase = lower;
  decrypt = λ s. some s;
  github = github;
  ownership_invitations_expiration = 100;
  new_token = λ user krate. codes "secret";
}

abbrev pub session : Text → Parts
session id = record { origins = []; authorization = none; session_user_id = some id }

abbrev pub start : State
start = record {
  conn = record { users = ann ∷ bob ∷ []; api_tokens = []; read_only = false };
  emails = record { user_id = 4; email = codes "b@x"; verified = true } ∷ [];
  crates =
      record {
        id = 1;
        name = codes "My-Crate";
        description = none;
        homepage = none;
        documentation = none;
        readme = none;
        repository = none;
        max_upload_size = none;
        max_features = none;
        trustpub_only = false;
      }
      ∷ [];
  teams = [];
  next_team_id = 1;
  crate_owners =
      record { crate_id = 1; owner_id = 3; created_by = 3; owner_kind = user_kind; deleted = false }
      ∷ [];
  crate_owner_invitations = [];
}

abbrev pub invitation : CrateOwnerInvitation
invitation = record {
  invited_user_id = 4;
  invited_by_user_id = 3;
  crate_id = 1;
  created_at = 10;
  token = codes "secret";
  expires_at = 110;
}

abbrev pub with_invitation : State
with_invitation = record start { crate_owner_invitations = invitation ∷ [] }

abbrev owner_row : CrateOwner
owner_row = record {
  crate_id = 1;
  owner_id = 3;
  created_by = 3;
  owner_kind = user_kind;
  deleted = false;
}

abbrev pub request : NewCrateOwnerInvitation
request = record { invited_user_id = 4; invited_by_user_id = 3; crate_id = 1; expires_at = 300 }
