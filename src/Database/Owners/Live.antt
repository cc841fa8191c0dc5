-- ===== src/Database/Owners/Live.antt =====
-- Which rows of `crate_owners` are live after an insert and after a removal.
use crates_io.Prelude.{
  ℕ, ◌≡◌, refl, sym, ◌∙◌, ap, inl, inr, Text, List, [], ◌∷◌, map, Bool, true, false, ◌==◌, keep,
  keep-false, arith, Bool-cases, Any,
}
use crates_io.Database.User.{User}
use crates_io.Database.Owners.{
  OwnerKind, user_kind, team_kind, kind_eq, CrateOwner, Team, is_live, same_key, insert, is_removed,
  remove_row,
}

pub kind_eq_sound : (a b : OwnerKind) → kind_eq a b ≡ true → a ≡ b
kind_eq_sound user_kind user_kind h = refl
kind_eq_sound team_kind team_kind h = refl
kind_eq_sound user_kind team_kind h = cc
kind_eq_sound team_kind user_kind h = cc

keep-cons :
    {A : Type 0} (p : A → Bool) (x : A) (a b : List A)
    → keep p a ≡ keep p b
    → keep p (x ∷ a) ≡ keep p (x ∷ b)
keep-cons p x a b e = elim (Bool-cases (p x)) [
  | inl h ↦ rw (keep, h) (ap (λ l. x ∷ l) e)
  | inr h ↦ rw (keep, h) e
]

same_kind : (a b : CrateOwner) → same_key a b ≡ true → a.owner_kind ≡ b.owner_kind
same_kind a b h = kind_eq_sound a.owner_kind b.owner_kind (ground arith)

-- A team's row is no user's.
team_row : (row : CrateOwner) (c : ℕ) → row.owner_kind ≡ team_kind → is_live user_kind c row ≡ false
team_row row c e = ground (arith, e)

-- A team that becomes an owner changes no row of a user.
pub keep-insert :
    (new : CrateOwner) (c : ℕ) (rows : List CrateOwner)
    → new.owner_kind ≡ team_kind
    → keep (is_live user_kind c) (insert new rows) ≡ keep (is_live user_kind c) rows
unfolding insert
keep-insert new c [] e = keep-false (is_live user_kind c) new [] (team_row new c e)
keep-insert new c (row ∷ rows) e = elim (Bool-cases (same_key new row)) [
  | inl h ↦
      let k : row.owner_kind ≡ team_kind = sym (same_kind new row h) ∙ e in
      let row' : CrateOwner = record row { deleted = false } in
      rw h (
        keep-false (is_live user_kind c) row' rows (team_row row' c k)
        ∙ sym (keep-false (is_live user_kind c) row rows (team_row row c k)))
  | inr h ↦
      rw h (keep-cons (is_live user_kind c) row (insert new rows) rows (keep-insert new c rows e))
]

-- A user is an individual owner of a crate.
abbrev pub IsUserOwner : ℕ → ℕ → List CrateOwner → Type 0
IsUserOwner c u = Any (λ row. (is_live user_kind c row ≡ true) × (row.owner_id ≡ u))

-- A row of another crate is no row of this one, deleted or not.
elsewhere :
    (row : CrateOwner) (d c : ℕ)
    → (row.crate_id == d) ≡ true
    → (d == c) ≡ false
    → is_live user_kind c row ≡ false
elsewhere row d c e other = ground arith

remove_row-crate :
    (lower : Text → Text) (users : List User) (teams : List Team) (d : ℕ) (login : Text)
    (row : CrateOwner)
    → (row.crate_id == d) ≡ true
    → ((remove_row lower users teams d login row).crate_id == d) ≡ true
remove_row-crate lower users teams d login row e =
    elim (Bool-cases (is_removed lower users teams d login row)) [ inl h ↦ rw h e | inr h ↦ rw h e ]

remove_row-other :
    (lower : Text → Text) (users : List User) (teams : List Team) (d : ℕ) (login : Text)
    (row : CrateOwner)
    → (row.crate_id == d) ≡ false
    → remove_row lower users teams d login row ≡ row
remove_row-other lower users teams d login row e = rw e refl

-- Removing a login from one crate changes no row of another.
pub keep-removed :
    (lower : Text → Text) (users : List User) (teams : List Team) (d c : ℕ) (login : Text)
    (rows : List CrateOwner)
    → (d == c) ≡ false
    → keep (is_live user_kind c) (map (remove_row lower users teams d login) rows)
      ≡ keep (is_live user_kind c) rows
keep-removed lower users teams d c login [] other = refl
keep-removed lower users teams d c login (row ∷ rows) other =
    let rest = keep-removed lower users teams d c login rows other in
    let new = remove_row lower users teams d login row in
    let tail = map (remove_row lower users teams d login) rows in
    elim (Bool-cases (row.crate_id == d)) [
      | inl e ↦
          keep-false (is_live user_kind c) new tail
            (elsewhere new d c (remove_row-crate lower users teams d login row e) other)
          ∙ rest
          ∙ sym (keep-false (is_live user_kind c) row rows (elsewhere row d c e other))
      | inr e ↦
          ap (λ r. keep (is_live user_kind c) (r ∷ tail))
            (remove_row-other lower users teams d login row e)
          ∙ keep-cons (is_live user_kind c) row tail rows rest
    ]
