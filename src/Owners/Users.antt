-- ===== src/Owners/Users.antt =====
-- What adding owners leaves of the individual owners.
use crates_io.Prelude.{
  ℕ, ◌≡◌, refl, ◌∙◌, inl, inr, Text, Option, none, some, List, [], ◌∷◌, ◌==◌, ok, err, keep, any,
  Bool-cases, text_eq, codes,
}
use crates_io.Errors.{AppResult}
use crates_io.Database.User.{User}
use crates_io.Database.Krate.{Crate}
use crates_io.Database.Owners.{user_kind, Team, Owner, is_live}
use crates_io.Database.Owners.Live.{keep-insert}
use crates_io.Database.Invitations.{
  CrateOwnerInvitation, NewCrateOwnerInvitationOutcome, already_exists, invite_created,
}
use crates_io.Owners.Base.{Server, State}
use crates_io.Owners.Add.{
  split, with_team, add_chunks, add_team_owner, create_or_update_github_team, invited, invite_found,
  invite_user_owner, add_owner, team_owner,
}
use crates_io.Owners.Modify.{ModifyResponse, added, and_rest, add_logins, is_owner_login}

-- The live rows of users, and the users, are the same.
abbrev pub SameUsers : State → State → Type 0
SameUsers s s' =
    (s'.conn ≡ s.conn)
    × ((c : ℕ)
        → keep (is_live user_kind c) s'.crate_owners ≡ keep (is_live user_kind c) s.crate_owners)

pub SameUsers-refl : (s : State) → SameUsers s s
SameUsers-refl s = (refl, λ c. refl)

SameUsers-trans : (s t u : State) → SameUsers s t → SameUsers t u → SameUsers s u
SameUsers-trans s t u (a, f) (b, g) = (b ∙ a, λ c. g c ∙ f c)

with_team-SameUsers :
    (state : State) (krate : Crate) (req_user : User) (r : AppResult (Team × List Team))
    → SameUsers state (with_team state krate req_user r).1
with_team-SameUsers state krate req_user (err e) = SameUsers-refl state
with_team-SameUsers state krate req_user (ok (t, teams)) =
    (refl, λ c. keep-insert (team_owner krate.id t.id req_user.id) c state.crate_owners refl)

add_chunks-SameUsers :
    (server : Server) (state : State) (req_user : User) (krate : Crate) (login : Text)
    (chunks : List Text)
    → SameUsers state (add_chunks server state req_user krate login chunks).1
add_chunks-SameUsers server state req_user krate login [] = SameUsers-refl state
add_chunks-SameUsers server state req_user krate login (a ∷ []) = SameUsers-refl state
add_chunks-SameUsers server state req_user krate login (a ∷ org ∷ []) =
    elim (Bool-cases (text_eq a (codes "github"))) [
      | inl e ↦ rw e (SameUsers-refl state)
      | inr e ↦ rw e (SameUsers-refl state)
    ]
add_chunks-SameUsers server state req_user krate login (a ∷ org ∷ name ∷ more) =
    elim (Bool-cases (text_eq a (codes "github"))) [
      | inl e ↦ rw e (
          with_team-SameUsers state krate req_user (
            create_or_update_github_team server state.next_team_id state.teams
              (server.to_lowercase login) org name req_user))
      | inr e ↦ rw e (SameUsers-refl state)
    ]

invited-SameUsers :
    (state : State) (invitee : User)
    (r : NewCrateOwnerInvitationOutcome × List CrateOwnerInvitation)
    → SameUsers state (invited state invitee r).1
invited-SameUsers state invitee (already_exists, rows) = (refl, λ c. refl)
invited-SameUsers state invitee (invite_created token, rows) = (refl, λ c. refl)

invite_found-SameUsers :
    (server : Server) (now : ℕ) (state : State) (req_user : User) (krate : Crate) (login : Text)
    (o : Option User)
    → SameUsers state (invite_found server now state req_user krate login o).1
invite_found-SameUsers server now state req_user krate login none = SameUsers-refl state
invite_found-SameUsers server now state req_user krate login (some invitee) =
    invited-SameUsers state invitee _

add_owner-SameUsers :
    (server : Server) (now : ℕ) (state : State) (req_user : User) (krate : Crate) (login : Text)
    → SameUsers state (add_owner server now state req_user krate login).1
unfolding add_owner add_team_owner invite_user_owner
add_owner-SameUsers server now state req_user krate login =
    elim (Bool-cases (any (λ c. c == b':') login)) [
      | inl e ↦ rw e (add_chunks-SameUsers server state req_user krate login (split b':' login))
      | inr e ↦ rw e (invite_found-SameUsers server now state req_user krate login _)
    ]

and_rest-SameUsers :
    (s s' : State) (f : AppResult (ModifyResponse → ModifyResponse))
    (rest : AppResult ModifyResponse × State)
    → SameUsers s s'
    → SameUsers s rest.1
    → SameUsers s (and_rest f rest s').1
and_rest-SameUsers s s' (err e) rest h k = h
and_rest-SameUsers s s' (ok f) (err e, t) h k = k
and_rest-SameUsers s s' (ok f) (ok r, t) h k = k

-- Adding owners makes no user an owner, and no owner stop to be one.
pub add_logins-SameUsers :
    (server : Server) (now : ℕ) (req_user : User) (krate : Crate) (before : List Owner)
    (logins : List Text) (state : State)
    → SameUsers state (add_logins server now req_user krate before logins state).1
unfolding add_logins
add_logins-SameUsers server now req_user krate before [] state = SameUsers-refl state
add_logins-SameUsers server now req_user krate before (login ∷ logins) state =
    let state' = (add_owner server now state req_user krate login).1 in
    let first = add_owner-SameUsers server now state req_user krate login in
    let rest = add_logins-SameUsers server now req_user krate before logins state' in
    elim (Bool-cases (any (is_owner_login server login) before)) [
      | inl e ↦ rw e (SameUsers-refl state)
      | inr e ↦ rw e (
          and_rest-SameUsers state state'
            (added state' krate (add_owner server now state req_user krate login).0)
            (add_logins server now req_user krate before logins state') first
            (SameUsers-trans state state'
              (add_logins server now req_user krate before logins state').1 first rest))
    ]
