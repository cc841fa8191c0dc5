-- ===== src/Database/Owners.antt =====
-- crates/crates_io_database/src/models/owner.rs, team.rs, and the ownership of a crate in krate.rs
-- and user.rs. `lower` is the database's function of that name, `to_lowercase` Rust's.
pub mod Live
pub mod Insert
use crates_io.Prelude.{
  ℕ, suc, ◌+◌, Text, Option, none, some, List, [], ◌∷◌, ◌++◌, map, Bool, true, false, not, ◌&&◌,
  ◌||◌, ◌==◌, if◌then◌else◌, text_eq, String, Result, ok, err, leb, split_once, keep, any, ℤ, pos,
  negsuc, codes,
}
use crates_io.Database.User.{User, find}

pub data OwnerKind : Type 0 where
  user_kind team_kind : OwnerKind

abbrev pub kind_eq : OwnerKind → OwnerKind → Bool
kind_eq user_kind user_kind = true
kind_eq team_kind team_kind = true
kind_eq _ _ = false

-- A row of `crate_owners`, whose key is the crate, the owner and the kind.
pub record CrateOwner : Type 0 where
  pub crate_id : ℕ
  pub owner_id : ℕ
  pub created_by : ℕ
  pub owner_kind : OwnerKind
  pub deleted : Bool

pub record Team : Type 0 where
  pub id : ℕ
  pub login : Text
  pub github_id : ℕ
  pub name : Option Text
  pub avatar : Option Text
  pub org_id : ℕ

pub data Owner : Type 0 where
  user : User → Owner
  team : Team → Owner

abbrev pub kind : Owner → ℕ
kind (user u) = 0
kind (team t) = 1

abbrev pub owner_login : Owner → Text
owner_login (user u) = u.gh_login
owner_login (team t) = t.login

-- A row of `emails`.
pub record Email : Type 0 where
  pub user_id : ℕ
  pub email : Text
  pub verified : Bool

-- The columns `name` and `avatar` are set only where there is a value.
pub record NewTeam : Type 0 where
  pub login : Text
  pub github_id : ℕ
  pub name : Option Text
  pub avatar : Option Text
  pub org_id : ℕ

abbrev pub or_else : Option Text → Option Text → Option Text
or_else none old = old
or_else (some t) old = some t

-- The serial number of a new row comes from the table's sequence. The login is unique in the table
-- beside the GitHub id, on which the insert turns into an update.
abbrev pub set_team : NewTeam → Team → Team
set_team new t = record t {
  login = new.login;
  github_id = new.github_id;
  name = or_else new.name t.name;
  avatar = or_else new.avatar t.avatar;
  org_id = new.org_id;
}

unfoldable pub find_team : List Team → ℕ → Option Team
find_team [] id = none
find_team (t ∷ teams) id = if t.id == id then some t else find_team teams id

-- `Team::split_login` and `Team::url`.
unfoldable pub split_login : Team → Option (Text × Text × Text)
unfolding split_once
split_login t = elim (split_once b':' t.login) [
  | none ↦ none
  | some (provider, rest) ↦ elim (split_once b':' rest) [
    | none ↦ none
    | some (org, name) ↦ some (provider, org, name)
  ]
]

unfoldable pub url : Team → Option Text
unfolding split_login
url t = elim (split_login t) [
  | none ↦ none
  | some (provider, org, name) ↦
      if text_eq provider (codes "github") then some (codes "https://github.com/" ++ org) else none
]

-- `CrateOwner::by_owner_kind` of one crate.
abbrev pub is_live : OwnerKind → ℕ → CrateOwner → Bool
is_live k crate_id row = not row.deleted && kind_eq row.owner_kind k && row.crate_id == crate_id

-- The rows in the order of their owners.
unfoldable pub insert_by_owner : CrateOwner → List CrateOwner → List CrateOwner
insert_by_owner row [] = row ∷ []
insert_by_owner row (r ∷ rows) =
    let rest = insert_by_owner row rows in
    if leb row.owner_id r.owner_id then row ∷ (r ∷ rows) else r ∷ rest

unfoldable pub by_owner : List CrateOwner → List CrateOwner
unfolding insert_by_owner
by_owner [] = []
by_owner (row ∷ rows) = insert_by_owner row (by_owner rows)

-- The inner joins with `users` and `teams`.
abbrev pub cons_user : Option User → List Owner → List Owner
cons_user none owners = owners
cons_user (some u) owners = user u ∷ owners

abbrev pub cons_team : Option Team → List Owner → List Owner
cons_team none owners = owners
cons_team (some t) owners = team t ∷ owners

unfoldable pub join_users : List User → List CrateOwner → List Owner
join_users users [] = []
join_users users (row ∷ rows) = cons_user (find users row.owner_id) (join_users users rows)

unfoldable pub join_teams : List Team → List CrateOwner → List Owner
unfolding find_team
join_teams teams [] = []
join_teams teams (row ∷ rows) = cons_team (find_team teams row.owner_id) (join_teams teams rows)

-- `User::owning` and `Team::owning`.
unfoldable pub users_owning : List User → List CrateOwner → ℕ → List Owner
unfolding join_users
users_owning users rows crate_id = join_users users (keep (is_live user_kind crate_id) rows)

-- `Crate::owners`: the users, then the teams.
unfoldable pub owners : List User → List Team → List CrateOwner → ℕ → List Owner
unfolding join_users join_teams by_owner
owners users teams rows crate_id =
    join_users users (by_owner (keep (is_live user_kind crate_id) rows))
    ++ join_teams teams (by_owner (keep (is_live team_kind crate_id) rows))

abbrev pub same_key : CrateOwner → CrateOwner → Bool
same_key a b =
    a.crate_id == b.crate_id && a.owner_id == b.owner_id && kind_eq a.owner_kind b.owner_kind

-- `CrateOwner::insert`: a row that exists is live again, and keeps who created it.
unfoldable pub insert : CrateOwner → List CrateOwner → List CrateOwner
insert new [] = new ∷ []
insert new (row ∷ rows) =
    if same_key new row then record row { deleted = false } ∷ rows else row ∷ insert new rows

-- The login of a live row, by the left joins of `Crate::owner_remove`.
abbrev pub login_in : List User → List Team → CrateOwner → Option Text
login_in users teams row = elim row.owner_kind [
  | user_kind ↦ elim (find users row.owner_id) [ none ↦ none | some u ↦ some u.gh_login ]
  | team_kind ↦ elim (find_team teams row.owner_id) [ none ↦ none | some t ↦ some t.login ]
]

abbrev pub has_login : (Text → Text) → Text → Option Text → Bool
has_login lower login none = false
has_login lower login (some l) = text_eq (lower l) (lower login)

abbrev pub is_removed : (Text → Text) → List User → List Team → ℕ → Text → CrateOwner → Bool
is_removed lower users teams crate_id login row =
    row.crate_id == crate_id && not row.deleted && has_login lower login (login_in users teams row)

-- `Crate::owner_remove`
abbrev pub remove_row : (Text → Text) → List User → List Team → ℕ → Text → CrateOwner → CrateOwner
remove_row lower users teams crate_id login row =
    if is_removed lower users teams crate_id login row then record row { deleted = true } else row

unfoldable pub owner_remove :
    (Text → Text)
    → List User
    → List Team
    → ℕ
    → Text
    → List CrateOwner
    → Result (List CrateOwner) Text
unfolding find_team text_eq
owner_remove lower users teams crate_id login rows =
    if any (is_removed lower users teams crate_id login) rows
    then ok (map (remove_row lower users teams crate_id login) rows)
    else err login

-- `NewTeam::create_or_update`: `none` is a login that another team has.
unfoldable pub put_team : ℕ → NewTeam → List Team → Team × List Team
put_team id new [] =
    let t : Team = record {
      id = id;
      login = new.login;
      github_id = new.github_id;
      name = new.name;
      avatar = new.avatar;
      org_id = new.org_id;
    } in
    (t, t ∷ [])
put_team id new (t ∷ teams) =
    let (put, rest) = put_team id new teams in
    if t.github_id == new.github_id
    then (set_team new t, set_team new t ∷ teams)
    else (put, t ∷ rest)

unfoldable pub create_or_update : ℕ → NewTeam → List Team → Option (Team × List Team)
unfolding put_team text_eq
create_or_update id new teams =
    if any (λ t. text_eq t.login new.login && not (t.github_id == new.github_id)) teams
    then none
    else some (put_team id new teams)

-- `User::verified_email`
unfoldable pub verified_email : List Email → ℕ → Option Text
verified_email [] user_id = none
verified_email (e ∷ emails) user_id =
    if e.user_id == user_id && e.verified then some e.email else verified_email emails user_id

-- `User::find_by_login`: the user with the highest GitHub id among those with the login, where -1
-- marks a user whose GitHub id is not known.
abbrev pub has_github_id : User → Bool
has_github_id u = elim u.gh_id [ pos n ↦ true | negsuc n ↦ not (n == 0) ]

abbrev pub leℤ : ℤ → ℤ → Bool
leℤ (pos a) (pos b) = leb a b
leℤ (pos a) (negsuc b) = false
leℤ (negsuc a) (pos b) = true
leℤ (negsuc a) (negsuc b) = leb b a

abbrev pub newer : User → Option User → User
newer u none = u
newer u (some v) = if leℤ v.gh_id u.gh_id then u else v

unfoldable pub find_by_login : (Text → Text) → (Text → Text) → List User → Text → Option User
unfolding text_eq
find_by_login lower to_lowercase [] login = none
find_by_login lower to_lowercase (u ∷ users) login =
    let rest = find_by_login lower to_lowercase users login in
    if text_eq (lower u.gh_login) (to_lowercase login) && has_github_id u
    then some (newer u rest)
    else rest
