-- ===== src/Owners/Tests.antt =====
-- A crate with one owner: a friend is invited and accepts, a team is added, the owner leaves.
use crates_io.Prelude.{
  ℕ, ◌≡◌, ◌≤◌, ◌↔◌, ◌⊎◌, refl, true, false, List, [], ◌∷◌, here, there, Text, codes, map, ok, err,
  ap, starts_with, split_once, text_eq, trim_ascii, eq_ignore_ascii_case, parse_i32, length,
  strip_suffix_char,
}
use crates_io.Errors.{AppResult, bad_request}
use crates_io.Database.User.{find}
use crates_io.Database.Krate.{by_name, canon_crate_name}
use crates_io.Database.Token.{matches, find_by_api_token, parse_token, change_owners}
use crates_io.Database.Owners.{
  user_kind, insert, owner_remove, users_owning, owners, join_users, join_teams, by_owner,
  insert_by_owner, find_team, create_or_update, put_team, verified_email, find_by_login,
  split_login,
}
use crates_io.Database.Owners.Live.{IsUserOwner}
use crates_io.Database.Invitations.{create, find_by_id, find_by_token, accept, decline, crate_name}
use crates_io.Auth.{
  Parts, Conn, Authentication, check, default, for_crate, with_endpoint_scope,
  optional_from_request_parts, verify_origin, ensure_not_locked, authenticate,
  authenticate_via_cookie, authenticate_via_token, check_token, endpoint_scope_matches,
  crate_scope_matches,
}
use crates_io.Rights.{get, best_rights, full}
use crates_io.Rights.Grant.{get-full_iff}
use crates_io.Auth
use crates_io.Owners.Base.{State}
use crates_io.Owners.Add.{
  split, add_owner, add_team_owner, invite_user_owner, create_or_update_github_team, can_add_team,
  is_gh_org_owner,
}
use crates_io.Owners.Modify.{
  ModifyResponse, modify_owners, change_logins, owned_crate, add_logins, remove_logins,
}
use crates_io.Owners.Answer.{
  handle_crate_owner_invitation, accept_crate_owner_invitation_with_token,
}
use crates_io.Owners.Keepers.{HasUserOwner}
use crates_io.Owners.Control.{ByOwner, modify_owners-ByOwner, SameRows, modify_owners-err}
use crates_io.Owners.Gains.{Invited}
use crates_io.Owners.History.{
  Step, modify, respond, Steps, done, next, Steps-Invited, Steps-HasUserOwner,
}
use crates_io.Owners.Examples.{ann, github, server, session, start, with_invitation}

run : Unit {0}
unfolding check authenticate authenticate_via_cookie authenticate_via_token verify_origin
    ensure_not_locked check_token endpoint_scope_matches crate_scope_matches matches find
    find_by_api_token parse_token optional_from_request_parts parse_i32 text_eq trim_ascii
    eq_ignore_ascii_case split_once starts_with strip_suffix_char insert owner_remove users_owning
    owners join_users join_teams by_owner insert_by_owner find_team create_or_update put_team
    verified_email find_by_login by_name canon_crate_name create find_by_id find_by_token accept
    decline crate_name get best_rights split add_owner add_team_owner invite_user_owner
    create_or_update_github_team can_add_team is_gh_org_owner modify_owners change_logins
    owned_crate add_logins remove_logins handle_crate_owner_invitation
    accept_crate_owner_invitation_with_token split_login
run = tt

abbrev joined : State
joined = record start {
  crate_owners =
      record { crate_id = 1; owner_id = 3; created_by = 3; owner_kind = user_kind; deleted = false }
      ∷ record {
        crate_id = 1;
        owner_id = 4;
        created_by = 3;
        owner_kind = user_kind;
        deleted = false;
      }
      ∷ [];
}

-- The owner removes themselves from the crate while nobody else owns it, or names no owner.
refused :
    ((modify_owners server 10
        (codes "my_crate")
        (session (codes "3"))
        (codes "ANN" ∷ [])
        false
        start).0
      ≡ err (
          bad_request
            "cannot remove all individual owners of a crate. Team member don't have permission to modify owners, so at least one individual owner is required."
            []))
    × ((modify_owners server 10
          (codes "my_crate")
          (session (codes "3"))
          (codes "eve" ∷ [])
          false
          start).0
        ≡ err (bad_request "could not find owner with login `{login}`" (codes "eve" ∷ [])))
unfolding run
refused = (refl, refl)

invites :
    (modify_owners server 10
      (codes "my-crate")
      (session (codes "3"))
      (codes "Bob" ∷ [])
      true
      start).1
    ≡ with_invitation
unfolding run
invites = refl

answers :
    (handle_crate_owner_invitation server 109 (session (codes "4")) 1 true with_invitation
      ≡ (ok tt, joined))
    × (accept_crate_owner_invitation_with_token 20 (codes "secret") with_invitation
        ≡ (ok tt, joined))
    × ((handle_crate_owner_invitation server 110 (session (codes "4")) 1 true with_invitation).1
        ≡ with_invitation)
    × ((handle_crate_owner_invitation server 110 (session (codes "4")) 1 false with_invitation).1
        ≡ start)
unfolding run
answers = (refl, refl, refl, refl)

abbrev Replied : AppResult ModifyResponse → List (List Text) → Type 0
Replied (err e) args = ⊥
Replied (ok r) args = map (λ m. m.args) r.msgs ≡ args

-- A team is an owner at once, under the login with all that stands behind the team's name.
whole_login :
    Replied
      (modify_owners server 10
        (codes "my-crate")
        (session (codes "3"))
        (codes "github:Org:core:x" ∷ [])
        true
        start).0
      ((codes "github:org:core:x" ∷ codes "My-Crate" ∷ []) ∷ [])
unfolding run
whole_login = refl

start_owned : HasUserOwner 1 start
unfolding run
start_owned = λ e. cc

get-full_iff_example :
    (get server.decrypt github ann (owners start.conn.users [] start.crate_owners 1) ≡ ok full)
    ↔ IsUserOwner 1 3 start.crate_owners
get-full_iff_example =
    get-full_iff server.decrypt github ann ann [] start.conn.users [] start.crate_owners 1 refl
      (unfold find in refl)

modify_owners-err_example :
    SameRows start
      (modify_owners server 10
        (codes "my_crate")
        (session (codes "3"))
        (codes "ANN" ∷ [])
        false
        start).1
modify_owners-err_example =
    modify_owners-err server 10 (codes "my_crate") (session (codes "3")) (codes "ANN" ∷ []) false
      start
      (bad_request
        "cannot remove all individual owners of a crate. Team member don't have permission to modify owners, so at least one individual owner is required."
        [])
      refused.0

abbrev one_message : ModifyResponse
one_message = record {
  msgs = record { text = "owners successfully removed"; args = [] } ∷ [];
  emails = [];
}

leaves :
    (modify_owners server 30
      (codes "my_crate")
      (session (codes "3"))
      (codes "ann" ∷ [])
      false
      joined).0
    ≡ ok one_message
unfolding run
leaves = refl

modify_owners-ByOwner_example :
    (length (codes "ann" ∷ []) ≤ 10)
    × ((auth : Authentication) × ((check
            (λ s. s)
            []
            30
            (for_crate (with_endpoint_scope default change_owners) (codes "my_crate"))
            (session (codes "3"))
            joined.conn).0
          ≡ ok auth)
        × ByOwner server (codes "my_crate") joined (Auth.user auth))
modify_owners-ByOwner_example =
    modify_owners-ByOwner server 30 (codes "my_crate") (session (codes "3")) (codes "ann" ∷ [])
      false joined one_message leaves

history : Steps server start joined
history =
    next 10 (modify (codes "my-crate") (session (codes "3")) (codes "Bob" ∷ []) true invites)
      (next 109 (respond (session (codes "4")) 1 true (ap (λ r. r.1) answers.0)) done)

bob_joined : IsUserOwner 1 4 joined.crate_owners
bob_joined = there (here (refl, refl))

Steps-Invited_example :
    IsUserOwner 1 4 start.crate_owners
    ⊎ ((now : ℕ) × (r : State) × (r' : State) × Steps server start r
        × Step server now r r'
        × Steps server r' joined
        × Invited now 1 4 r)
Steps-Invited_example = Steps-Invited server start joined 1 4 history bob_joined

Steps-HasUserOwner_example : HasUserOwner 1 joined
Steps-HasUserOwner_example = Steps-HasUserOwner server start joined 1 history start_owned
