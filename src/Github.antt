-- ===== src/Github.antt =====
-- crates/crates_io_github/src/lib.rs: what the GitHub client answers. The client itself is a
-- parameter, a record of its methods.
use crates_io.Prelude.{ℕ, Text, Option, [], ◌∷◌, Bool, ◌&&◌, text_eq, codes, Result}
use crates_io.Errors.{AppError, custom, internal}

pub data GitHubError : Type 0 where
  unauthorized forbidden not_found other : Text → GitHubError

pub record GitHubTeam : Type 0 where
  pub id : ℕ
  pub name : Option Text
  pub organization_id : ℕ

pub record GitHubOrganization : Type 0 where
  pub id : ℕ
  pub avatar_url : Option Text

pub record GitHubTeamMembership : Type 0 where
  pub state : Text

pub record GitHubOrgMembership : Type 0 where
  pub state : Text
  pub role : Text

abbrev pub is_active_member : GitHubTeamMembership → Bool
is_active_member m = text_eq m.state (codes "active")

abbrev pub is_active_admin : GitHubOrgMembership → Bool
is_active_admin m = text_eq m.state (codes "active") && text_eq m.role (codes "admin")

-- The last argument of each method is the access token.
pub record GitHubClient : Type 0 where
  pub team_by_name : Text → Text → Text → Result GitHubTeam GitHubError
  pub team_membership : ℕ → ℕ → Text → Text → Result (Option GitHubTeamMembership) GitHubError
  pub org_membership : ℕ → Text → Text → Result (Option GitHubOrgMembership) GitHubError
  pub org_by_name : Text → Text → Result GitHubOrganization GitHubError

-- `From<GitHubError> for BoxedAppError` of src/util/errors.rs.
abbrev pub github_error : GitHubError → AppError
github_error (unauthorized e) =
    custom 401
      "It looks like your GitHub session has expired or the token was revoked. Please try logging out and logging back in to re-authenticate."
      []
github_error (forbidden e) =
    custom 403
      "It looks like you don't have permission to query a necessary property from GitHub to complete this request. You may need to re-authenticate on crates.io to grant permission to read GitHub org memberships."
      []
github_error (not_found e) = custom 404 "Not Found" []
github_error (other e) = internal "didn't get a 200 result from github: {error}" (e ∷ [])
