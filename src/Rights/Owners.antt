-- ===== src/Rights/Owners.antt =====
-- src/controllers/helpers/authorization.rs: which owners give full rights.
use crates_io.Prelude.{
  ℕ, ◌≡◌, refl, inl, inr, Text, Option, none, some, List, [], ◌∷◌, ◌++◌, Bool, true, false, ◌==◌,
  ok, err, arith, Bool-cases, Any, here, there, ◌≢◌, ==_iff,
}
use crates_io.Errors.{AppResult}
use crates_io.Database.User.{User, find}
use crates_io.Database.Owners.{CrateOwner, Owner, user, team, join_users, cons_user}
use crates_io.Github.{GitHubClient}
use crates_io.Rights.{Rights, publish, full, team_answer, after_team, best_rights}

abbrev pub IsThisUser : ℕ → Owner → Type 0
IsThisUser id (user v) = v.id ≡ id
IsThisUser id (team t) = ⊥

after_team-full :
    (github : GitHubClient) (token : Text) (u : User) (list : List Owner) (r : AppResult Bool)
    (b : Rights)
    → ((b : Rights)
        → b ≢ full
        → best_rights github token u list b ≡ ok full
        → Any (IsThisUser u.id) list)
    → b ≢ full
    → after_team r b (best_rights github token u list) ≡ ok full
    → Any (IsThisUser u.id) list
after_team-full github token u list (err x) b ih hb k = cc
after_team-full github token u list (ok true) b ih hb k = ih publish (λ z. cc) k
after_team-full github token u list (ok false) b ih hb k = ih b hb k

-- Where the loop ends with full rights, the user is one of the owners.
pub full-Any :
    (github : GitHubClient) (token : Text) (u : User) (list : List Owner) (best : Rights)
    → best ≢ full
    → best_rights github token u list best ≡ ok full
    → Any (IsThisUser u.id) list
unfolding best_rights
full-Any github token u [] best h e = absurd (h (cc e))
full-Any github token u (user v ∷ list) best h e = elim (Bool-cases (v.id == u.id)) [
  | inl same ↦ here ((==_iff v.id u.id).0 same)
  | inr diff ↦ there (full-Any github token u list best h (ground (arith, e, diff)))
]
full-Any github token u (team t ∷ list) best h e = there (
    after_team-full github token u list
      (team_answer t (github.team_membership t.org_id t.github_id u.gh_login token)) best
      (λ b hb k. full-Any github token u list b hb k) h e)

pub find-id : (users : List User) (id : ℕ) (v : User) → find users id ≡ some v → v.id ≡ id
unfolding find
find-id [] id v e = cc
find-id (u ∷ users) id v e = elim (Bool-cases (u.id == id)) [
  | inl h ↦ ground (arith, e, h)
  | inr h ↦ find-id users id v (ground (arith, e, h))
]

full-user :
    (github : GitHubClient) (token : Text) (u v : User) (list : List Owner) (best : Rights)
    → v.id ≡ u.id
    → best_rights github token u (user v ∷ list) best ≡ ok full
unfolding best_rights
full-user github token u v list best e = rw ((==_iff v.id u.id).1 e) refl

skip-user :
    (github : GitHubClient) (token : Text) (u : User) (o : Option User) (list : List Owner)
    (best : Rights)
    → best_rights github token u list best ≡ ok full
    → best_rights github token u (cons_user o list) best ≡ ok full
unfolding best_rights
skip-user github token u none list best e = e
skip-user github token u (some v) list best e = elim (Bool-cases (v.id == u.id)) [
  | inl h ↦ rw h refl
  | inr h ↦ rw h e
]

pub cons_user-append :
    (o : Option User) (a b : List Owner) → cons_user o a ++ b ≡ cons_user o (a ++ b)
cons_user-append none a b = refl
cons_user-append (some v) a b = refl

-- Users come before teams, so no team is asked before the user is found.
pub Any-full :
    (github : GitHubClient) (token : Text) (u v : User) (users : List User) (rows : List CrateOwner)
    (teams : List Owner) (best : Rights)
    → find users u.id ≡ some v
    → Any (λ row. row.owner_id ≡ u.id) rows
    → best_rights github token u (join_users users rows ++ teams) best ≡ ok full
unfolding join_users
Any-full github token u v users [] teams best found a = elim a [ ]
Any-full github token u v users (row ∷ rows) teams best found (here e) =
    rw (e, found)
      (full-user github token u v (join_users users rows ++ teams) best
        (find-id users u.id v found))
Any-full github token u v users (row ∷ rows) teams best found (there a) =
    rw (cons_user-append (find users row.owner_id) (join_users users rows) teams) (
      skip-user github token u (find users row.owner_id) (join_users users rows ++ teams) best
        (Any-full github token u v users rows teams best found a))
