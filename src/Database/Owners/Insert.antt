-- ===== src/Database/Owners/Insert.antt =====
-- The individual owners of a crate after an insert, and whether there is one.
use crates_io.Prelude.{
  ℕ, ◌≡◌, refl, sym, ◌∙◌, ap, subst, ◌↔◌, ◌⊎◌, inl, inr, List, [], ◌∷◌, Bool, true, false,
  if◌then◌else◌, keep, arith, Bool-cases, Option-cases, Any, here, there, Any-cons, Any-keep, ◌≢◌,
  false≢true, is_some,
}
use crates_io.Database.User.{User, find}
use crates_io.Database.Owners.{
  user_kind, CrateOwner, is_live, same_key, insert, join_users, users_owning,
}
use crates_io.Database.Owners.Live.{kind_eq_sound}

-- A live row of a user in a crate, with something that holds of the user.
abbrev pub LiveUser : ℕ → (ℕ → Type 0) → CrateOwner → Type 0
LiveUser c Q row = (is_live user_kind c row ≡ true) × Q row.owner_id

module _ (c : ℕ) (Q : ℕ → Type 0) where
  revived : (row : CrateOwner) → LiveUser c Q row → LiveUser c Q (record row { deleted = false })
  revived row (live, q) = (ground (arith, live), q)

  -- Who was an owner stays one.
  pub Any-insert :
      (new : CrateOwner) (rows : List CrateOwner)
      → Any (LiveUser c Q) rows
      → Any (LiveUser c Q) (insert new rows)
  unfolding insert
  Any-insert new [] a = elim a [ ]
  Any-insert new (row ∷ rows) a = elim (Bool-cases (same_key new row)) [
    | inl e ↦ rw e (elim a [ here h ↦ here (revived row h) | there h ↦ there h ])
    | inr e ↦ rw e (Any-cons row rows (insert new rows) (λ h. h) (Any-insert new rows) a)
  ]

  same_owner :
      (new row : CrateOwner)
      → same_key new row ≡ true
      → new.deleted ≡ false
      → LiveUser c Q (record row { deleted = false })
      → LiveUser c Q new
  same_owner new row same fresh (live, q) =
      let owner : new.owner_id ≡ row.owner_id = ground arith in
      let kind : new.owner_kind ≡ row.owner_kind =
        kind_eq_sound new.owner_kind row.owner_kind (ground arith) in
      (ground (arith, live, same, fresh, kind), subst Q (sym owner) q)

  step_in :
      (b : Bool) (new row : CrateOwner) (rows tail : List CrateOwner)
      → (b ≡ true → LiveUser c Q (record row { deleted = false }) → LiveUser c Q new)
      → (Any (LiveUser c Q) tail → Any (LiveUser c Q) rows ⊎ LiveUser c Q new)
      → Any (LiveUser c Q) (if b then record row { deleted = false } ∷ rows else row ∷ tail)
      → Any (LiveUser c Q) (row ∷ rows) ⊎ LiveUser c Q new
  step_in true new row rows tail f g (here h) = inr (f refl h)
  step_in true new row rows tail f g (there h) = inl (there h)
  step_in false new row rows tail f g (here h) = inl (here h)
  step_in false new row rows tail f g (there h) = elim (g h) [
    | inl k ↦ inl (there k)
    | inr k ↦ inr k
  ]

  -- Who becomes an owner is the one of the new row.
  pub insert-Any :
      (new : CrateOwner) (rows : List CrateOwner)
      → new.deleted ≡ false
      → Any (LiveUser c Q) (insert new rows)
      → Any (LiveUser c Q) rows ⊎ LiveUser c Q new
  unfolding insert
  insert-Any new [] fresh a = elim a [ here h ↦ inr h | there h ↦ inl h ]
  insert-Any new (row ∷ rows) fresh a =
      step_in (same_key new row) new row rows (insert new rows)
        (λ same h. same_owner new row same fresh h) (insert-Any new rows fresh) a

-- A crate has an individual owner exactly where the user of a live row is there.
pub join_users-Any :
    (users : List User) (rows : List CrateOwner)
    → (join_users users rows ≢ [])
      ↔ Any (λ (row : CrateOwner). is_some (find users row.owner_id) ≡ true) rows
unfolding join_users
join_users-Any users [] = (λ h. absurd (h refl), λ a. elim a [ ])
join_users-Any users (row ∷ rows) =
    let (to, from) = join_users-Any users rows in
    elim (Option-cases (find users row.owner_id)) [
      | inl e ↦ (
        λ h. there (to (λ empty. h (rw e empty))),
        λ a.
            rw e
              (elim a [ here h ↦ absurd (false≢true (sym (ap is_some e) ∙ h)) | there h ↦ from h ]),
      )
      | inr (u, e) ↦ (λ h. here (rw e refl), λ a. rw e (λ z. cc))
    ]

-- The users who own a crate are some exactly where a live row has a user.
pub users_owning-Any :
    (users : List User) (rows : List CrateOwner) (c : ℕ)
    → (users_owning users rows c ≢ [])
      ↔ Any (LiveUser c (λ id. is_some (find users id) ≡ true)) rows
unfolding users_owning
users_owning-Any users rows c =
    let (to, from) = join_users-Any users (keep (is_live user_kind c) rows) in
    let (on, back) = Any-keep (is_live user_kind c) rows in (λ h. on (to h), λ a. from (back a))
