-- ===== src/Auth/Genuine.antt =====
-- Where a request that is authenticated comes from, and the tests that show it.
use crates_io.Prelude.{
  ℕ, ◌≤◌, ◌≡◌, refl, ◌↔◌, inl, inr, true, false, Option, none, some, List, arith, Text, text_eq,
  text_eq_iff, Option-cases, All, Any, any, any_iff, all_iff, ok, err, Any-imp, String, ℤ, pos,
  negsuc, parse_i32, >>=-eq-ok, ap, All-iff, starts_with, codes,
}
use crates_io.Errors.{AppResult}
use crates_io.Database.User.{User, find}
use crates_io.Database.Token.{ApiToken, parse_token}
use crates_io.Database.Token.Lookup.{IsUsable, erase}
use crates_io.Auth.{
  Parts, Conn, Authentication, cookie, token, verify_origin, still_locked, ensure_not_locked,
  find_user, optional_from_request_parts, token_user, session_user, parse_user_id, or_forbidden,
}

-- A lock has a reason, and has not ended.
abbrev pub IsUnlocked : ℕ → User → Type 0
IsUnlocked now u =
    (reason : Text)
    → u.account_lock_reason ≡ some reason
    → (until : ℕ) × (u.account_lock_until ≡ some until) × (until ≤ now)

still_locked_iff :
    (now : ℕ) (e : Option ℕ)
    → still_locked now e ≡ false
    → (until : ℕ) × (e ≡ some until) × (until ≤ now)
still_locked_iff now none h = cc
still_locked_iff now (some t) h = (t, refl, ground arith)

-- An account passes exactly when it is not locked.
ensure_not_locked_sound : (now : ℕ) (u : User) → ensure_not_locked now u ≡ ok tt → IsUnlocked now u
unfolding ensure_not_locked
ensure_not_locked_sound now u h reason e = still_locked_iff now u.account_lock_until (ground arith)

pub ensure_not_locked_complete :
    (now : ℕ) (u : User) → IsUnlocked now u → ensure_not_locked now u ≡ ok tt
unfolding ensure_not_locked
ensure_not_locked_complete now u h = elim (Option-cases u.account_lock_reason) [
  | inl e ↦ rw e
  | inr (reason, e) ↦ let (until, same, past) = h reason e in ground arith
]

-- Every `Origin` header is one of the allowed origins.
abbrev pub IsSameOrigin : List Text → List Text → Type 0
IsSameOrigin allowed = All (λ o. Any (λ a. o ≡ a) allowed)

listed_iff :
    (o : Text) (allowed : List Text) → (any (text_eq o) allowed ≡ true) ↔ Any (λ a. o ≡ a) allowed
listed_iff o allowed =
    let (to, from) = any_iff (text_eq o) allowed in
    (
      λ h. Any-imp (λ a. (text_eq_iff o a).0) (to h),
      λ h. from (Any-imp (λ a. (text_eq_iff o a).1) h),
    )

pub verify_origin_iff :
    (allowed origins : List Text)
    → (verify_origin allowed origins ≡ ok tt) ↔ IsSameOrigin allowed origins
unfolding verify_origin
verify_origin_iff allowed origins =
    let (to, from) = all_iff (λ value. any (text_eq value) allowed) origins in
    let (on, back) = All-iff (λ o. listed_iff o allowed) origins in
    (λ h. on (to (ground arith)), λ h. let e = from (back h) in ground arith)

module _ (sha256 : Text → Text) (now : ℕ) (parts : Parts) (conn : Conn) where
  -- Where the authentication comes from: the session's user, or the header's token and its user.
  pub data Genuine : Authentication → Type 0 where
    by_cookie :
        {u : User} (s : Text) (id : ℕ)
        → parts.session_user_id ≡ some s
        → parse_i32 s ≡ some (pos id)
        → find conn.users id ≡ some u
        → IsUnlocked now u
        → Genuine (cookie u)
    by_token :
        {t : ApiToken} {u : User} (plaintext : Text)
        → optional_from_request_parts parts.authorization ≡ ok (some plaintext)
        → starts_with (codes "cio") plaintext ≡ true
        → IsUsable now (sha256 plaintext) t
        → Any (λ r. erase r ≡ erase t) conn.api_tokens
        → find conn.users t.user_id ≡ some u
        → IsUnlocked now u
        → Genuine (token t u)

find_user_sound :
    (message : String) (users : List User) (id : ℤ) (u : User)
    → find_user message users id ≡ ok u
    → (n : ℕ) × (id ≡ pos n) × (find users n ≡ some u)
find_user_sound message users (pos n) u h = (n, refl, ground arith)
find_user_sound message users (negsuc n) u h = cc

pub parse_user_id_sound :
    (o : Option Text) (n : ℕ)
    → parse_user_id o ≡ some (pos n)
    → (s : Text) × (o ≡ some s) × (parse_i32 s ≡ some (pos n))
parse_user_id_sound none n h = cc
parse_user_id_sound (some s) n h = (s, refl, h)

pub session_user_sound :
    (now : ℕ) (users : List User) (o : Option ℤ) (u : User)
    → session_user now users o ≡ ok (some u)
    → (n : ℕ) × (o ≡ some (pos n)) × (find users n ≡ some u) × IsUnlocked now u
session_user_sound now users none u h = cc
session_user_sound now users (some id) u h =
    let (v, found, rest) = >>=-eq-ok (find_user _ users id) _ h in
    let (done, unlocked, same) = >>=-eq-ok (ensure_not_locked now v) _ rest in
    let (n, is_pos, row) = find_user_sound _ users id v found in
    let e : v ≡ u = cc same in
    (n, ap some is_pos, rw (← e) row, rw (← e) (ensure_not_locked_sound now v unlocked))

pub token_user_sound :
    (now : ℕ) (users : List User) (found : Option ApiToken) (auth : Authentication)
    → token_user now users found ≡ ok (some auth)
    → (t : ApiToken) × (u : User) × (auth ≡ token t u)
      × (found ≡ some t)
      × (find users t.user_id ≡ some u)
      × IsUnlocked now u
token_user_sound now users none auth h = cc
token_user_sound now users (some t) auth h =
    let (u, row, rest) = >>=-eq-ok (find_user _ users (pos t.user_id)) _ h in
    let (done, unlocked, same) = >>=-eq-ok (ensure_not_locked now u) _ rest in
    let (n, is_pos, found) = find_user_sound _ users (pos t.user_id) u row in
    (t, u, cc same, refl, ground arith, ensure_not_locked_sound now u unlocked)

pub or_forbidden_sound :
    (r : AppResult (Option Authentication)) (auth : Authentication)
    → or_forbidden r ≡ ok auth
    → r ≡ ok (some auth)
or_forbidden_sound (err e) auth h = cc
or_forbidden_sound (ok none) auth h = cc
or_forbidden_sound (ok (some a)) auth h = cc

pub parse_token_sound :
    (sha256 : Text → Text) (plaintext digest : Text)
    → parse_token sha256 plaintext ≡ some digest
    → (starts_with (codes "cio") plaintext ≡ true) × (digest ≡ sha256 plaintext)
unfolding parse_token
parse_token_sound sha256 plaintext digest h = ground arith
