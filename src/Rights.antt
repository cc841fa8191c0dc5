-- ===== src/Rights.antt =====
-- src/controllers/helpers/authorization.rs: what a user may do with a crate, by its owners.
-- `decrypt` opens the user's stored GitHub token.
pub mod Owners
pub mod Grant
use crates_io.Prelude.{
  ℕ, Text, Option, none, some, List, [], ◌∷◌, Bool, true, false, ◌==◌, if◌then◌else◌, codes, Result,
  ok, err, ltb,
}
use crates_io.Errors.{AppError, AppResult, custom, internal}
use crates_io.Database.User.{User}
use crates_io.Database.Owners.{Owner, Team, user, team, split_login}
use crates_io.Github.{
  GitHubClient, GitHubError, unauthorized, forbidden, not_found, other, GitHubTeamMembership,
  is_active_member, github_error,
}

pub data Rights : Type 0 where
  no_rights publish full : Rights

-- The derived order of `Rights`.
abbrev pub rank : Rights → ℕ
rank no_rights = 0
rank publish = 1
rank full = 2

abbrev pub lt_rights : Rights → Rights → Bool
lt_rights a b = ltb (rank a) (rank b)

abbrev pub org_name : Team → Text
org_name t = elim (split_login t) [ some (provider, org, name) ↦ org | none ↦ codes "unknown" ]

abbrev pub is_member : Option GitHubTeamMembership → Bool
is_member none = false
is_member (some m) = is_active_member m

-- One team asked for one user.
abbrev pub team_answer : Team → Result (Option GitHubTeamMembership) GitHubError → AppResult Bool
team_answer t (ok membership) = ok (is_member membership)
team_answer t (err (forbidden e)) = err (
    custom 403
      "GitHub organization '{org_name}' has restricted OAuth access. A '{org_name}' administrator must approve the 'crates.io' application in the organization's 'Third-party access' settings."
      (org_name t ∷ []))
team_answer t (err (unauthorized e)) = err (github_error (unauthorized e))
team_answer t (err (not_found e)) = err (github_error (not_found e))
team_answer t (err (other e)) = err (github_error (other e))

abbrev pub after_team : AppResult Bool → Rights → (Rights → AppResult Rights) → AppResult Rights
after_team (err e) best rest = err e
after_team (ok true) best rest = rest publish
after_team (ok false) best rest = rest best

-- The loop over the owners.
unfoldable pub best_rights : GitHubClient → Text → User → List Owner → Rights → AppResult Rights
best_rights github token u [] best = ok best
best_rights github token u (user other_user ∷ owners) best =
    let rest = best_rights github token u owners best in
    if other_user.id == u.id then ok full else rest
best_rights github token u (team t ∷ owners) best =
    after_team (team_answer t (github.team_membership t.org_id t.github_id u.gh_login token)) best
      (best_rights github token u owners)

-- `Rights::get`
unfoldable pub get : (Text → Option Text) → GitHubClient → User → List Owner → AppResult Rights
unfolding best_rights
get decrypt github u owners = elim (decrypt u.gh_encrypted_token) [
  | none ↦ err (internal "didn't get a 200 result from github: {error}" (codes "decrypt" ∷ []))
  | some token ↦ best_rights github token u owners no_rights
]
