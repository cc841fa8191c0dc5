-- ===== src/Owners/History.antt =====
-- The owners of crates over any sequence of requests: invitations are the only way in, and no
-- crate is left without an individual owner.
use crates_io.Prelude.{
  ℕ, ◌≡◌, refl, sym, subst, ◌⊎◌, inl, inr, Text, Option, none, some, List, [], ◌∷◌, Bool, true,
  false, Result, ok, err, arith, Bool-cases, Any, here, there, text_eq, is_some,
}
use crates_io.Errors.{AppResult}
use crates_io.Database.User.{find}
use crates_io.Database.Owners.{CrateOwner}
use crates_io.Database.Owners.Live.{IsUserOwner}
use crates_io.Database.Owners.Insert.{LiveUser, Any-insert, users_owning-Any}
use crates_io.Database.Invitations.{
  CrateOwnerInvitation, AcceptError, from_invite, accept, find_by_id, find_by_token, is_for,
}
use crates_io.Database.Invitations.Lifecycle.{accept_sound}
use crates_io.Auth.{Parts, Authentication, check, for_crate, with_endpoint_scope, default}
use crates_io.Auth
use crates_io.Auth.Writes.{check-writes}
use crates_io.Owners.Base.{Server, State}
use crates_io.Owners.Modify.{modify_owners}
use crates_io.Owners.Answer.{
  accepted_rows, answer_invitation, answer_as, handle_crate_owner_invitation,
  accept_crate_owner_invitation_with_token,
}
use crates_io.Owners.Keepers.{HasUserOwner, modify_owners-HasUserOwner}
use crates_io.Owners.Gains.{Invited, by_invitation, modify_owners-before, accept-Invited}

-- A request on owners or invitations at a time, with the state before and after.
pub data Step (server : Server) (now : ℕ) : State → State → Type 0 where
  modify :
      {s s' : State} (crate_name : Text) (parts : Parts) (logins : List Text) (add : Bool)
      → (modify_owners server now crate_name parts logins add s).1 ≡ s'
      → Step server now s s'
  respond :
      {s s' : State} (parts : Parts) (crate_id : ℕ) (accepted : Bool)
      → (handle_crate_owner_invitation server now parts crate_id accepted s).1 ≡ s'
      → Step server now s s'
  follow_link :
      {s s' : State} (token : Text)
      → (accept_crate_owner_invitation_with_token now token s).1 ≡ s'
      → Step server now s s'

pub data Steps (server : Server) : State → State → Type 0 where
  done : {s : State} → Steps server s s
  next : {s t u : State} (now : ℕ) → Step server now s t → Steps server t u → Steps server s u

find_by_id-Any :
    (rows : List CrateOwnerInvitation) (u c : ℕ) (row : CrateOwnerInvitation)
    → find_by_id rows u c ≡ some row
    → Any (λ r. r ≡ row) rows
unfolding find_by_id
find_by_id-Any [] u c row h = cc
find_by_id-Any (r ∷ rows) u c row h = elim (Bool-cases (is_for u c r)) [
  | inl e ↦ here (ground (arith, h, e))
  | inr e ↦ there (find_by_id-Any rows u c row (ground (arith, h, e)))
]

find_by_token-Any :
    (rows : List CrateOwnerInvitation) (token : Text) (row : CrateOwnerInvitation)
    → find_by_token rows token ≡ some row
    → Any (λ r. r ≡ row) rows
unfolding find_by_token
find_by_token-Any [] token row h = cc
find_by_token-Any (r ∷ rows) token row h = elim (Bool-cases (text_eq r.token token)) [
  | inl e ↦ here (ground (arith, h, e))
  | inr e ↦ there (find_by_token-Any rows token row (ground (arith, h, e)))
]

answer_invitation-Invited :
    (now : ℕ) (accepted : Bool) (s : State) (found : Option CrateOwnerInvitation) (c u : ℕ)
    → ((row : CrateOwnerInvitation)
        → found ≡ some row
        → Any (λ r. r ≡ row) s.crate_owner_invitations)
    → IsUserOwner c u (answer_invitation now accepted s found).1.crate_owners
    → IsUserOwner c u s.crate_owners ⊎ Invited now c u s
answer_invitation-Invited now accepted s none c u listed a = inl a
answer_invitation-Invited now true s (some row) c u listed a =
    accept-Invited now s row c u (listed row refl) a
answer_invitation-Invited now false s (some row) c u listed a = inl a

answer_as-Invited :
    (now crate_id : ℕ) (accepted : Bool) (s : State) (auth : AppResult Authentication) (c u : ℕ)
    → IsUserOwner c u (answer_as now crate_id accepted s auth).1.crate_owners
    → IsUserOwner c u s.crate_owners ⊎ Invited now c u s
answer_as-Invited now crate_id accepted s (err e) c u a = inl a
answer_as-Invited now crate_id accepted s (ok auth) c u a =
    answer_invitation-Invited now accepted s
      (find_by_id s.crate_owner_invitations (Auth.user auth).id crate_id) c u
      (λ row h. find_by_id-Any s.crate_owner_invitations (Auth.user auth).id crate_id row h) a

-- The check before an answer writes tokens only.
read_before :
    (s : State) (conn : Auth.Conn) (now c u : ℕ)
    → Invited now c u (record s { conn = conn })
    → Invited now c u s
read_before s conn now c u (by_invitation row address listed same_user same_crate fresh verified) =
    by_invitation row address listed same_user same_crate fresh verified

Step-Invited :
    (server : Server) (now : ℕ) (s s' : State) (c u : ℕ)
    → Step server now s s'
    → IsUserOwner c u s'.crate_owners
    → IsUserOwner c u s.crate_owners ⊎ Invited now c u s
unfolding handle_crate_owner_invitation accept_crate_owner_invitation_with_token
Step-Invited server now s s' c u (modify crate_name parts logins add e) a = inl (
    modify_owners-before server now crate_name parts logins add s c u
      (subst (λ (x : State). IsUserOwner c u x.crate_owners) (sym e) a))
Step-Invited server now s s' c u (respond parts crate_id accepted e) a =
    let checked = check server.sha256 server.allowed_origins now default parts s.conn in
    elim (answer_as-Invited now crate_id accepted (record s { conn = checked.1 }) checked.0 c u
      (subst (λ (x : State). IsUserOwner c u x.crate_owners) (sym e) a)) [
        | inl h ↦ inl h
        | inr h ↦ inr (read_before s checked.1 now c u h)
      ]
Step-Invited server now s s' c u (follow_link token e) a =
    answer_invitation-Invited now true s (find_by_token s.crate_owner_invitations token) c u
      (λ row h. find_by_token-Any s.crate_owner_invitations token row h)
      (subst (λ (x : State). IsUserOwner c u x.crate_owners) (sym e) a)

-- After any sequence of requests on owners and invitations, an individual owner of a crate was one
-- at the start, or had, at one of the requests, an unexpired invitation and a verified address.
pub Steps-Invited :
    (server : Server) (s t : State) (c u : ℕ)
    → Steps server s t
    → IsUserOwner c u t.crate_owners
    → IsUserOwner c u s.crate_owners
      ⊎ ((now : ℕ) × (r : State) × (r' : State) × Steps server s r
          × Step server now r r'
          × Steps server r' t
          × Invited now c u r)
Steps-Invited server s t c u done a = inl a
Steps-Invited server s t c u (next {t = m} now first rest) a =
    elim (Steps-Invited server m t c u rest a) [
      | inl b ↦ elim (Step-Invited server now s m c u first b) [
        | inl h ↦ inl h
        | inr h ↦ inr (now, s, m, done, first, rest, h)
      ]
      | inr (at_time, r, r', before, step, after, h) ↦
          inr (at_time, r, r', next now first before, step, after, h)
    ]

answer_invitation-HasUserOwner :
    (now : ℕ) (accepted : Bool) (s : State) (found : Option CrateOwnerInvitation) (c : ℕ)
    → HasUserOwner c s
    → HasUserOwner c (answer_invitation now accepted s found).1
answer_invitation-HasUserOwner now accepted s none c has = has
answer_invitation-HasUserOwner now false s (some row) c has = has
answer_invitation-HasUserOwner now true s (some row) c has =
    rows_after
      (accept now s.conn.users s.emails s.crates row s.crate_owners s.crate_owner_invitations) refl
  where
    rows_after :
        (r : Result (List CrateOwner × List CrateOwnerInvitation) AcceptError)
        → accept now s.conn.users s.emails s.crates row s.crate_owners s.crate_owner_invitations ≡ r
        → HasUserOwner c (accepted_rows s r).1
    rows_after (err e) h = has
    rows_after (ok (rows, invitations)) h =
        let (fresh, verified, inserted, rest) =
          accept_sound now s.conn.users s.emails s.crates row s.crate_owners rows
            s.crate_owner_invitations invitations h in
        let known = λ (id : ℕ). is_some (find s.conn.users id) ≡ true in
        (users_owning-Any s.conn.users rows c).1 (
          subst (Any (LiveUser c known)) (sym inserted) (
            Any-insert c known (from_invite row) s.crate_owners
              ((users_owning-Any s.conn.users s.crate_owners c).0 has)))

answer_as-HasUserOwner :
    (now crate_id : ℕ) (accepted : Bool) (s : State) (auth : AppResult Authentication) (c : ℕ)
    → HasUserOwner c s
    → HasUserOwner c (answer_as now crate_id accepted s auth).1
answer_as-HasUserOwner now crate_id accepted s (err e) c has = has
answer_as-HasUserOwner now crate_id accepted s (ok auth) c has =
    answer_invitation-HasUserOwner now accepted s
      (find_by_id s.crate_owner_invitations (Auth.user auth).id crate_id) c has

Step-HasUserOwner :
    (server : Server) (now : ℕ) (s s' : State) (c : ℕ)
    → Step server now s s'
    → HasUserOwner c s
    → HasUserOwner c s'
unfolding handle_crate_owner_invitation accept_crate_owner_invitation_with_token
Step-HasUserOwner server now s s' c (modify crate_name parts logins add e) has =
    subst (HasUserOwner c) e
      (modify_owners-HasUserOwner server now crate_name parts logins add s c has)
Step-HasUserOwner server now s s' c (respond parts crate_id accepted e) has =
    let checked = check server.sha256 server.allowed_origins now default parts s.conn in
    let users = (check-writes server.sha256 server.allowed_origins now default parts s.conn).0 in
    subst (HasUserOwner c) e (
      answer_as-HasUserOwner now crate_id accepted (record s { conn = checked.1 }) checked.0 c
        (λ empty. has (rw (← users) empty)))
Step-HasUserOwner server now s s' c (follow_link token e) has = subst (HasUserOwner c) e (
    answer_invitation-HasUserOwner now true s (find_by_token s.crate_owner_invitations token) c has)

-- No sequence of requests on owners and invitations leaves a crate that had an individual owner
-- without one.
pub Steps-HasUserOwner :
    (server : Server) (s t : State) (c : ℕ) → Steps server s t → HasUserOwner c s → HasUserOwner c t
Steps-HasUserOwner server s t c done has = has
Steps-HasUserOwner server s t c (next {t = m} now first rest) has =
    Steps-HasUserOwner server m t c rest (Step-HasUserOwner server now s m c first has)
