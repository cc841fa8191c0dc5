-- ===== src/Rights/Grant.antt =====
-- Full rights belong to the individual owners, and GitHub is not asked about them.
use crates_io.Prelude.{
  ℕ, ◌≡◌, refl, sym, ◌∙◌, ◌↔◌, inl, inr, Text, Option, none, some, List, [], ◌∷◌, ◌++◌, ok, keep,
  arith, Bool-cases, Option-cases, Any, here, there, Any-cons, Any-keep, leb,
}
use crates_io.Database.User.{User, find}
use crates_io.Database.Owners.{
  user_kind, team_kind, CrateOwner, Team, Owner, is_live, join_users, cons_user, insert_by_owner,
  by_owner, owners, join_teams, cons_team, find_team,
}
use crates_io.Database.Owners.Live.{IsUserOwner}
use crates_io.Github.{GitHubClient}
use crates_io.Rights.{no_rights, full, get}
use crates_io.Rights.Owners.{IsThisUser, full-Any, find-id, cons_user-append, Any-full}

IsTeamless :
    (id : ℕ) (teams : List Team) (rows : List CrateOwner)
    → Any (IsThisUser id) (join_teams teams rows)
    → ⊥
unfolding join_teams
IsTeamless id teams [] a = elim a [ ]
IsTeamless id teams (row ∷ rows) a =
    no_user (find_team teams row.owner_id) (join_teams teams rows) a (IsTeamless id teams rows)
  where
    no_user :
        (o : Option Team) (list : List Owner)
        → Any (IsThisUser id) (cons_team o list)
        → (Any (IsThisUser id) list → ⊥)
        → ⊥
    no_user none list a k = k a
    no_user (some t) list (here h) k = h
    no_user (some t) list (there h) k = k h

user-Any :
    (id owner_id : ℕ) (o : Option User) (list : List Owner) (rows : List CrateOwner)
    (row : CrateOwner)
    → ((v : User) → o ≡ some v → v.id ≡ row.owner_id)
    → Any (IsThisUser id) (cons_user o list)
    → (Any (IsThisUser id) list → Any (λ (r : CrateOwner). r.owner_id ≡ id) rows)
    → Any (λ (r : CrateOwner). r.owner_id ≡ id) (row ∷ rows)
user-Any id owner_id none list rows row h a k = there (k a)
user-Any id owner_id (some v) list rows row h (here e) k = here (sym (h v refl) ∙ e)
user-Any id owner_id (some v) list rows row h (there a) k = there (k a)

join-Any :
    (id : ℕ) (users : List User) (teams : List Team) (rows others : List CrateOwner)
    → Any (IsThisUser id) (join_users users rows ++ join_teams teams others)
    → Any (λ row. row.owner_id ≡ id) rows
unfolding join_users
join-Any id users teams [] others a = absurd (IsTeamless id teams others a)
join-Any id users teams (row ∷ rows) others a =
    user-Any id row.owner_id (find users row.owner_id)
      (join_users users rows ++ join_teams teams others) rows row
      (λ v e. find-id users row.owner_id v e)
      (rw
        (← cons_user-append (find users row.owner_id) (join_users users rows)
          (join_teams teams others))
        a)
      (join-Any id users teams rows others)

module _ {P : CrateOwner → Type 0} where
  insert_by_owner-Any :
      (row : CrateOwner) (rows : List CrateOwner)
      → Any P (insert_by_owner row rows) ↔ Any P (row ∷ rows)
  unfolding insert_by_owner
  insert_by_owner-Any row [] = (λ a. a, λ a. a)
  insert_by_owner-Any row (r ∷ rows) = elim (Bool-cases (leb row.owner_id r.owner_id)) [
    | inl e ↦ rw e (λ a. a, λ a. a)
    | inr e ↦ rw e (later (insert_by_owner-Any row rows))
  ]
    where
      later :
          Any P (insert_by_owner row rows) ↔ Any P (row ∷ rows)
          → Any P (r ∷ insert_by_owner row rows) ↔ Any P (row ∷ (r ∷ rows))
      later ih = (
        λ a. elim a [
          | here h ↦ there (here h)
          | there h ↦ elim (ih.0 h) [ here k ↦ here k | there k ↦ there (there k) ]
        ],
        λ a. elim a [
          | here h ↦ there (ih.1 (here h))
          | there h ↦ elim h [ here k ↦ here k | there k ↦ there (ih.1 (there k)) ]
        ],
      )

  by_owner-Any : (rows : List CrateOwner) → Any P (by_owner rows) ↔ Any P rows
  unfolding by_owner
  by_owner-Any [] = (λ a. a, λ a. a)
  by_owner-Any (row ∷ rows) =
      let (to, from) = insert_by_owner-Any row (by_owner rows) in
      let (on, back) = by_owner-Any rows in
      (
        λ a. Any-cons row (by_owner rows) rows (λ h. h) on (to a),
        λ a. from (Any-cons row rows (by_owner rows) (λ h. h) back a),
      )

-- Full rights are those of an individual owner.
pub get-full_sound :
    (decrypt : Text → Option Text) (github : GitHubClient) (u : User) (users : List User)
    (teams : List Team) (rows : List CrateOwner) (crate_id : ℕ)
    → get decrypt github u (owners users teams rows crate_id) ≡ ok full
    → IsUserOwner crate_id u.id rows
unfolding get owners
get-full_sound decrypt github u users teams rows crate_id e =
    let live = is_live user_kind crate_id in
    let team_rows = by_owner (keep (is_live team_kind crate_id) rows) in
    elim (Option-cases (decrypt u.gh_encrypted_token)) [
      | inl unreadable ↦ ground (arith, e, unreadable)
      | inr (token, readable) ↦ (Any-keep live rows).0 (
          (by_owner-Any (keep live rows)).0 (
            join-Any u.id users teams (by_owner (keep live rows)) team_rows (
              full-Any github token u
                (join_users users (by_owner (keep live rows)) ++ join_teams teams team_rows)
                no_rights (λ z. cc) (ground (arith, e, readable)))))
    ]

-- A user who is in the table and whose GitHub token can be read has full rights exactly when they
-- are an individual owner of the crate, whatever GitHub answers.
pub get-full_iff :
    (decrypt : Text → Option Text) (github : GitHubClient) (u v : User) (token : Text)
    (users : List User) (teams : List Team) (rows : List CrateOwner) (crate_id : ℕ)
    → decrypt u.gh_encrypted_token ≡ some token
    → find users u.id ≡ some v
    → (get decrypt github u (owners users teams rows crate_id) ≡ ok full)
      ↔ IsUserOwner crate_id u.id rows
unfolding get owners
get-full_iff decrypt github u v token users teams rows crate_id readable found =
    let live = is_live user_kind crate_id in
    let team_rows = by_owner (keep (is_live team_kind crate_id) rows) in
    (
      get-full_sound decrypt github u users teams rows crate_id,
      λ a.
          rw (get, readable)
            (Any-full github token u v users (by_owner (keep live rows))
              (join_teams teams team_rows) no_rights found
              ((by_owner-Any (keep live rows)).1 ((Any-keep live rows).1 a))),
    )
