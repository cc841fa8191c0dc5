-- ===== src/Owners/Add.antt =====
-- src/controllers/krate/owners.rs: one login is added, a team as an owner, a user as an invitation.
use crates_io.Prelude.{
  ℕ, suc, ◌+◌, Text, Option, none, some, List, [], ◌∷◌, Bool, true, false, not, ◌||◌, ◌==◌,
  if◌then◌else◌, codes, text_eq, Result, ok, err, String, any, is_ascii_alphanumeric, ◌>>=◌, ◌>>◌,
}
use crates_io.Errors.{AppResult, custom, internal, bad_request, forbidden}
use crates_io.Database.User.{User}
use crates_io.Database.Krate.{Crate}
use crates_io.Database.Owners.{CrateOwner, team_kind, Team, insert, create_or_update, find_by_login}
use crates_io.Database.Invitations.{
  CrateOwnerInvitation, NewCrateOwnerInvitationOutcome, already_exists, invite_created, create,
}
use crates_io.Github.{
  GitHubClient, GitHubError, GitHubTeam, GitHubOrgMembership, is_active_admin, github_error,
}
use crates_io.Rights.{is_member}
use crates_io.Owners.Base.{Server, State, user, team, app_error, already_invited, AddResult}

-- `str::split` at a character.
abbrev pub cons_head : ℕ → List Text → List Text
cons_head c [] = []
cons_head c (s ∷ parts) = (c ∷ s) ∷ parts

unfoldable pub split : ℕ → Text → List Text
split c [] = [] ∷ []
split c (x ∷ s) = let rest = split c s in if x == c then [] ∷ rest else cons_head x rest

abbrev pub is_allowed_char : ℕ → Bool
is_allowed_char c = is_ascii_alphanumeric c || c == b'-' || c == b'_'

abbrev pub find_bad_char : Text → Option ℕ
find_bad_char [] = none
find_bad_char (c ∷ s) = if not (is_allowed_char c) then some c else find_bad_char s

abbrev pub or_github_error {ℓ} : {A : Type ℓ} → Result A GitHubError → AppResult A
or_github_error (ok a) = ok a
or_github_error (err e) = err (github_error e)

-- `is_gh_org_owner`
abbrev pub is_admin_member : Option GitHubOrgMembership → Bool
is_admin_member none = false
is_admin_member (some m) = is_active_admin m

unfoldable pub is_gh_org_owner : GitHubClient → ℕ → Text → Text → AppResult Bool
is_gh_org_owner github org_id gh_login token = do
  membership ← or_github_error (github.org_membership org_id gh_login token)
  ok (is_admin_member membership)

-- A member of the team, or an administrator of the organization, who is asked for only where the
-- user is no member.
unfoldable pub can_add_team : GitHubClient → GitHubTeam → Text → Text → AppResult Bool
unfolding is_gh_org_owner
can_add_team github t gh_login token = do
  membership ← or_github_error (github.team_membership t.organization_id t.id gh_login token)
  if is_member membership then ok true else is_gh_org_owner github t.organization_id gh_login token

abbrev pub check_org_name : Text → AppResult (Unit {0})
check_org_name org_name = elim (find_bad_char org_name) [
  | some c ↦
      err (bad_request "organization cannot contain special characters like {c}" ((c ∷ []) ∷ []))
  | none ↦ ok tt
]

abbrev pub decrypt_token : Option Text → AppResult Text
decrypt_token none = err (custom 500 "Failed to decrypt GitHub token: {err}" [])
decrypt_token (some token) = ok token

abbrev pub find_github_team : Text → Text → Result GitHubTeam GitHubError → AppResult GitHubTeam
find_github_team org_name team_name (ok t) = ok t
find_github_team org_name team_name (err e) = err (
    bad_request
      "could not find the github team {org_name}/{team_name}. Make sure that you have the right permissions in GitHub. See https://doc.rust-lang.org/cargo/reference/publishing.html#github-permissions"
      (org_name ∷ team_name ∷ []))

abbrev pub ensure_can_add : Bool → AppResult (Unit {0})
ensure_can_add true = ok tt
ensure_can_add false =
    err (forbidden "only members of a team or organization owners can add it as an owner")

abbrev pub stored_team : Option (Team × List Team) → AppResult (Team × List Team)
stored_team none = err (internal "duplicate key value violates unique constraint" [])
stored_team (some result) = ok result

-- `create_or_update_github_team`: the team and the rows of `teams`.
unfoldable pub create_or_update_github_team :
    Server → ℕ → List Team → Text → Text → Text → User → AppResult (Team × List Team)
unfolding can_add_team create_or_update
create_or_update_github_team server id teams login org_name team_name req_user = do
  check_org_name org_name
  token ← decrypt_token (server.decrypt req_user.gh_encrypted_token)
  t ← find_github_team org_name team_name (server.github.team_by_name org_name team_name token)
  allowed ← can_add_team server.github t req_user.gh_login token
  ensure_can_add allowed
  org ← or_github_error (server.github.org_by_name org_name token)
  stored_team (
      create_or_update id
        (record {
          login = server.to_lowercase login;
          github_id = t.id;
          name = t.name;
          avatar = org.avatar_url;
          org_id = t.organization_id;
        })
        teams)

abbrev pub team_owner : ℕ → ℕ → ℕ → CrateOwner
team_owner crate_id team_id created_by = record {
  crate_id = crate_id;
  owner_id = team_id;
  created_by = created_by;
  owner_kind = team_kind;
  deleted = false;
}

abbrev pub with_team : State → Crate → User → AppResult (Team × List Team) → AddResult
with_team state krate req_user (err e) = (err (app_error e), state)
with_team state krate req_user (ok (t, teams)) = (
  ok (team t),
  record state {
    teams = teams;
    next_team_id = suc state.next_team_id;
    crate_owners = insert (team_owner krate.id t.id req_user.id) state.crate_owners;
  },
)

abbrev pub bad_team : State → String → AddResult
bad_team state detail = (err (app_error (bad_request detail [])), state)

-- The chunks of the login: what stands behind the third one is not read.
abbrev pub add_chunks : Server → State → User → Crate → Text → List Text → AddResult
add_chunks server state req_user krate login [] = bad_team state "no chunk"
add_chunks server state req_user krate login (team_system ∷ []) = bad_team state "no chunk"
add_chunks server state req_user krate login (team_system ∷ org ∷ rest) =
    if not (text_eq team_system (codes "github"))
    then bad_team state "unknown organization handler, only 'github:org:team' is supported"
    else elim rest [
      | [] ↦ bad_team state "missing github team argument; format is github:org:team"
      | team_name ∷ more ↦ with_team state krate req_user (
          create_or_update_github_team server state.next_team_id state.teams
            (server.to_lowercase login) org team_name req_user)
    ]

-- `add_team_owner`, for a login with a colon.
unfoldable pub add_team_owner : Server → State → User → Crate → Text → AddResult
unfolding split create_or_update_github_team insert text_eq
add_team_owner server state req_user krate login =
    add_chunks server state req_user krate login (split b':' login)

abbrev pub invited :
    State → User → NewCrateOwnerInvitationOutcome × List CrateOwnerInvitation → AddResult
invited state invitee (invite_created token, rows) =
    (ok (user invitee token), record state { crate_owner_invitations = rows })
invited state invitee (already_exists, rows) =
    (err (already_invited invitee), record state { crate_owner_invitations = rows })

abbrev pub invite_found : Server → ℕ → State → User → Crate → Text → Option User → AddResult
invite_found server now state req_user krate login none =
    (err (app_error (bad_request "could not find user with login `{login}`" (login ∷ []))), state)
invite_found server now state req_user krate login (some invitee) = invited state invitee (
    create now (server.new_token invitee.id krate.id)
      (record {
        invited_user_id = invitee.id;
        invited_by_user_id = req_user.id;
        crate_id = krate.id;
        expires_at = now + server.ownership_invitations_expiration;
      })
      state.crate_owner_invitations)

-- `invite_user_owner`
unfoldable pub invite_user_owner : Server → ℕ → State → User → Crate → Text → AddResult
unfolding create find_by_login
invite_user_owner server now state req_user krate login =
    invite_found server now state req_user krate login
      (find_by_login server.lower server.to_lowercase state.conn.users login)

-- `add_owner`
unfoldable pub add_owner : Server → ℕ → State → User → Crate → Text → AddResult
unfolding add_team_owner invite_user_owner
add_owner server now state req_user krate login =
    if any (λ c. c == b':') login
    then add_team_owner server state req_user krate login
    else invite_user_owner server now state req_user krate login
