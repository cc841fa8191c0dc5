-- ===== src/Database/Invitations/Lifecycle.antt =====
-- An invitation is created, accepted or dropped.
use crates_io.Prelude.{
  ℕ, ◌≡◌, ◌<◌, refl, sym, ◌∙◌, inl, inr, Text, Option, none, some, List, [], ◌∷◌, Bool, true, false,
  not, ◌&&◌, ◌==◌, if◌then◌else◌, keep, arith, Bool-cases, ok, is_some, false≢true, if-eq-ok,
}
use crates_io.Database.Krate.{Crate}
use crates_io.Database.User.{User, find}
use crates_io.Database.Owners.{CrateOwner, Email, verified_email, insert}
use crates_io.Database.Invitations.{
  CrateOwnerInvitation, is_for, is_expired, find_by_id, decline, from_invite, accept,
}

find-keep :
    (p : CrateOwnerInvitation → Bool) (rows : List CrateOwnerInvitation) (u c : ℕ)
    → ((row : CrateOwnerInvitation) → is_for u c row ≡ true → p row ≡ true)
    → find_by_id (keep p rows) u c ≡ find_by_id rows u c
unfolding find_by_id
find-keep p [] u c h = refl
find-keep p (row ∷ rows) u c h = elim (Bool-cases (is_for u c row)) [
  | inl e ↦ rw (keep, h row e, e) refl
  | inr e ↦ elim (Bool-cases (p row)) [
    | inl k ↦ rw (keep, k, e) (find-keep p rows u c h)
    | inr k ↦ rw (keep, k, e) (find-keep p rows u c h)
  ]
]

find-none :
    (p : CrateOwnerInvitation → Bool) (rows : List CrateOwnerInvitation) (u c : ℕ)
    → ((row : CrateOwnerInvitation) → is_for u c row ≡ true → p row ≡ false)
    → find_by_id (keep p rows) u c ≡ none
unfolding find_by_id
find-none p [] u c h = refl
find-none p (row ∷ rows) u c h = elim (Bool-cases (p row)) [
  | inl k ↦ elim (Bool-cases (is_for u c row)) [
    | inl e ↦ absurd (false≢true (sym (h row e) ∙ k))
    | inr e ↦ rw (keep, k, e) (find-none p rows u c h)
  ]
  | inr k ↦ rw (keep, k) (find-none p rows u c h)
]

some_of : {A : Type 0} (o : Option A) → not (is_some o) ≡ false → (a : A) × (o ≡ some a)
some_of none h = cc
some_of (some a) h = (a, refl)

-- What an accepted invitation shows and does.
pub accept_sound :
    (now : ℕ) (users : List User) (emails : List Email) (crates : List Crate)
    (invitation : CrateOwnerInvitation) (rows rows' : List CrateOwner)
    (invitations invitations' : List CrateOwnerInvitation)
    → accept now users emails crates invitation rows invitations ≡ ok (rows', invitations')
    → (now < invitation.expires_at)
      × ((address : Text) × (verified_email emails invitation.invited_user_id ≡ some address))
      × (rows' ≡ insert (from_invite invitation) rows)
      × (invitations' ≡ decline invitation invitations)
unfolding accept
accept_sound now users emails crates invitation rows rows' invitations invitations' h =
    let (fresh, rest) = if-eq-ok (is_expired now invitation) _ _ (rows', invitations') h in
    let (known, rest') =
      if-eq-ok (not (is_some (find users invitation.invited_user_id))) _ _ (rows', invitations')
        rest in
    let (verified, done) =
      if-eq-ok (not (is_some (verified_email emails invitation.invited_user_id))) _ _
        (rows', invitations') rest' in
    (
      ground (arith, fresh),
      some_of (verified_email emails invitation.invited_user_id) verified,
      cc done,
      cc done,
    )

-- The invitation that an answer takes away is gone, and the others are there.
pub decline-find_by_id :
    (invitation : CrateOwnerInvitation) (rows : List CrateOwnerInvitation) (u c : ℕ)
    → find_by_id (decline invitation rows) u c ≡ (
        if invitation.invited_user_id == u && invitation.crate_id == c
        then none
        else find_by_id rows u c)
unfolding decline
decline-find_by_id invitation rows u c =
    let p = λ (row : CrateOwnerInvitation).
      not (is_for invitation.invited_user_id invitation.crate_id row) in
    elim (Bool-cases (invitation.invited_user_id == u && invitation.crate_id == c)) [
      | inl e ↦ rw e (find-none p rows u c (λ row h. ground (arith, e, h)))
      | inr e ↦ rw e (find-keep p rows u c (λ row h. ground (arith, e, h)))
    ]
