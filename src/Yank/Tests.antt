-- ===== src/Yank/Tests.antt =====
-- Ann yanks a version of her crate.
use crates_io.Prelude.{
  ◌≢◌, ℕ, ◌≡◌, refl, true, false, none, some, [], ◌∷◌, codes, ok, err, ap, starts_with, split_once,
  text_eq, trim_ascii, eq_ignore_ascii_case, parse_i32, ◌==◌, strip_suffix_char,
}
use crates_io.Errors.{forbidden, bad_request}
use crates_io.Database.User.{find}
use crates_io.Database.Krate.{by_name, canon_crate_name}
use crates_io.Database.Token.{matches, find_by_api_token, parse_token}
use crates_io.Database.Owners.{
  insert, owner_remove, users_owning, owners, join_users, join_teams, by_owner, insert_by_owner,
  find_team, create_or_update, put_team, verified_email, find_by_login, split_login,
}
use crates_io.Database.Invitations.{create, find_by_id, find_by_token, accept, decline, crate_name}
use crates_io.Auth.{
  check, optional_from_request_parts, verify_origin, ensure_not_locked, authenticate,
  authenticate_via_cookie, authenticate_via_token, check_token, endpoint_scope_matches,
  crate_scope_matches,
}
use crates_io.Rights.{get, best_rights}
use crates_io.Owners.Add.{
  split, add_owner, add_team_owner, invite_user_owner, create_or_update_github_team, can_add_team,
  is_gh_org_owner,
}
use crates_io.Owners.Modify.{modify_owners, change_logins, owned_crate, add_logins, remove_logins}
use crates_io.Owners.Answer.{
  handle_crate_owner_invitation, accept_crate_owner_invitation_with_token,
}
use crates_io.RateLimiter.{check_rate_limit, take_token, upsert, burst_for, config_for_action}
use crates_io.Yank.{
  Version, Registry, VersionUpdate, perform_version_yank_update, load_version_and_crate,
  find_version, validate_yank_update, VersionOwnerAction, sync_to_git_index, sync_to_sparse_index,
  update_default_version,
}
use crates_io.Yank.Requests.{modify_yank, update_version, yank_authenticated}
use crates_io.Auth.{cookie}
use crates_io.Yank.Update.{find_row, perform_version_yank_update-find_row}
use crates_io.Yank.Refused.{SameVersions, served, update, served-err}
use crates_io.Yank.Permission.{MayYank, perform_version_yank_update-MayYank}
use crates_io.Yank.Examples.{
  ann, server, session, krate, version, older, registry, limiter, no_owner,
}

run : Unit {0}
unfolding check authenticate authenticate_via_cookie authenticate_via_token verify_origin
    ensure_not_locked check_token endpoint_scope_matches crate_scope_matches matches find
    find_by_api_token parse_token optional_from_request_parts parse_i32 text_eq trim_ascii
    eq_ignore_ascii_case split_once starts_with strip_suffix_char insert owner_remove users_owning
    owners join_users join_teams by_owner insert_by_owner find_team create_or_update put_team
    verified_email find_by_login by_name canon_crate_name create find_by_id find_by_token accept
    decline crate_name get best_rights split add_owner add_team_owner invite_user_owner
    create_or_update_github_team can_add_team is_gh_org_owner modify_owners change_logins
    owned_crate add_logins remove_logins handle_crate_owner_invitation
    accept_crate_owner_invitation_with_token split_login modify_yank update_version
    yank_authenticated perform_version_yank_update load_version_and_crate find_version
    validate_yank_update check_rate_limit take_token upsert burst_for config_for_action find_row
run = tt

yanks :
    ((modify_yank server limiter 0
        (codes "my-crate")
        (codes "1.0.0")
        (session (codes "3"))
        true
        registry).1.versions
      ≡ older ∷ record version { yanked = true } ∷ [])
    × ((modify_yank server limiter 0
          (codes "my-crate")
          (codes "1.0.0")
          (session (codes "3"))
          true
          registry).1.jobs
        ≡ sync_to_git_index (codes "My-Crate")
          ∷ sync_to_sparse_index (codes "My-Crate")
          ∷ update_default_version 1
          ∷ [])
    × ((modify_yank server limiter 0
          (codes "my-crate")
          (codes "1.0.0")
          (session (codes "3"))
          false
          registry).1.version_owner_actions
        ≡ [])
unfolding run
yanks = (refl, refl, refl)

not_yanked :
    (update_version server limiter 0
      (codes "my-crate")
      (codes "1.0.0")
      (session (codes "3"))
      (record { yanked = none; yank_message = some (codes "old") })
      registry).0
    ≡ err (bad_request "Cannot update yank message for a version that is not yanked" [])
unfolding run
not_yanked = refl

performed :
    (perform_version_yank_update server (cookie ann) version krate (some true) none registry).0
    ≡ ok tt
unfolding run
performed = refl

perform_version_yank_update-find_row_example :
    ((w : Version) × (find_row
          (perform_version_yank_update server
            (cookie ann)
            version
            krate
            (some true)
            none
            registry).1.versions
          5
        ≡ some w)
      × (w.yanked ≡ true)
      × (w.yank_message ≡ none))
    × ((other : ℕ)
        → (5 == other) ≡ false
        → find_row
            (perform_version_yank_update server
              (cookie ann)
              version
              krate
              (some true)
              none
              registry).1.versions
            other
          ≡ find_row (older ∷ version ∷ []) other)
perform_version_yank_update-find_row_example =
    perform_version_yank_update-find_row server (cookie ann) version krate (some true) none registry
      version performed (unfold find_row in refl)

is_not_same :
    (perform_version_yank_update server (cookie ann) version krate (some true) none registry).1
    ≢ registry
unfolding run
is_not_same = λ e. cc (ap (λ (r : Registry). r.jobs) e)

perform_version_yank_update-MayYank_example :
    MayYank server (cookie ann) krate registry
    × ((rest : VersionOwnerAction) × ((perform_version_yank_update server
            (cookie ann)
            version
            krate
            (some true)
            none
            registry).1.version_owner_actions
          ≡ rest ∷ [])
        × (rest.user_id ≡ 3)
        × (rest.version_id ≡ 5))
perform_version_yank_update-MayYank_example =
    perform_version_yank_update-MayYank server (cookie ann) version krate (some true) none registry
      is_not_same

denied :
    (modify_yank server limiter 0
      (codes "my-crate")
      (codes "1.0.0")
      (session (codes "3"))
      true
      no_owner).0
    ≡ err (forbidden "must already be an owner to yank or unyank")
unfolding run
denied = refl

abbrev retract : VersionUpdate
retract = record { yanked = some true; yank_message = some (codes "broken") }

denied_update :
    (update_version server limiter 0
      (codes "my-crate")
      (codes "1.0.0")
      (session (codes "3"))
      retract
      no_owner).0
    ≡ err (forbidden "must already be an owner to yank or unyank")
unfolding run
denied_update = refl

served-err_example :
    SameVersions no_owner
      (served server limiter 0
        (codes "my-crate")
        (codes "1.0.0")
        (session (codes "3"))
        (update retract)
        no_owner).1
served-err_example =
    served-err server limiter 0 (codes "my-crate") (codes "1.0.0") (session (codes "3"))
      (update retract) no_owner (forbidden "must already be an owner to yank or unyank")
      denied_update
