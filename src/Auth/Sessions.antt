-- ===== src/Auth/Sessions.antt =====
-- What a successful check of a request shows, and that a session takes precedence over a token.
use crates_io.Prelude.{
  ℕ, ◌≡◌, refl, Option, none, some, List, arith, Text, ok, err, pos, parse_i32, >>=-eq-ok, ap, ◌∙◌,
  subst,
}
use crates_io.Errors.{AppResult}
use crates_io.Database.User.{User, find}
use crates_io.Database.Token.{parse_token}
use crates_io.Database.Token.Lookup.{find_by_api_token-IsUsable}
use crates_io.Auth.{
  Parts, Conn, AuthCheck, Authentication, cookie, token, check_token, verify_origin,
  authenticate_via_cookie, authenticate_via_token, authenticate, check, optional_from_request_parts,
  session_user, parse_user_id, via_digest, via_header, or_token, after_origin, check_auth,
}
use crates_io.Auth.Checks.{IsGranted, check_token_iff}
use crates_io.Auth.Genuine.{
  IsUnlocked, IsSameOrigin, Genuine, by_cookie, by_token, ensure_not_locked_complete,
  verify_origin_iff, parse_user_id_sound, session_user_sound, token_user_sound, or_forbidden_sound,
  parse_token_sound,
}

module _ (sha256 : Text → Text) (now : ℕ) (parts : Parts) (conn : Conn) where
  cookie-Genuine :
      (u : User)
      → authenticate_via_cookie now parts conn ≡ ok (some u)
      → Genuine sha256 now parts conn (cookie u)
  unfolding authenticate_via_cookie
  cookie-Genuine u h =
      let (n, parsed, row, unlocked) =
        session_user_sound now conn.users (parse_user_id parts.session_user_id) u h in
      let (s, entry, number) = parse_user_id_sound parts.session_user_id n parsed in
      by_cookie s n entry number row unlocked

  digest-Genuine :
      (plaintext : Text) (d : Option Text) (auth : Authentication)
      → optional_from_request_parts parts.authorization ≡ ok (some plaintext)
      → parse_token sha256 plaintext ≡ d
      → (via_digest now d conn).0 ≡ ok (some auth)
      → Genuine sha256 now parts conn auth
  digest-Genuine plaintext none auth header parsed h = cc
  digest-Genuine plaintext (some digest) auth header parsed h =
      let (t, u, is_token, found, row, unlocked) = token_user_sound now conn.users _ auth h in
      let (marked, hashed) = parse_token_sound sha256 plaintext digest parsed in
      let (usable, listed) =
        find_by_api_token-IsUsable conn.read_only now digest conn.api_tokens t found in
      rw is_token (by_token plaintext header marked (rw (← hashed) usable) listed row unlocked)

  header-Genuine :
      (r : AppResult (Option Text)) (auth : Authentication)
      → optional_from_request_parts parts.authorization ≡ r
      → (via_header sha256 now r conn).0 ≡ ok (some auth)
      → Genuine sha256 now parts conn auth
  header-Genuine (err e) auth header h = cc
  header-Genuine (ok none) auth header h = cc
  header-Genuine (ok (some plaintext)) auth header h =
      digest-Genuine plaintext (parse_token sha256 plaintext) auth header refl h

  or_token-Genuine :
      (r : AppResult (Option User)) (auth : Authentication)
      → authenticate_via_cookie now parts conn ≡ r
      → (or_token sha256 now parts conn r).0 ≡ ok auth
      → Genuine sha256 now parts conn auth
  unfolding authenticate_via_token
  or_token-Genuine (err e) auth session h = cc
  or_token-Genuine (ok (some u)) auth session h =
      let e : cookie u ≡ auth = cc h in
      subst (Genuine sha256 now parts conn) e (cookie-Genuine u session)
  or_token-Genuine (ok none) auth session h =
      header-Genuine (optional_from_request_parts parts.authorization) auth refl
        (or_forbidden_sound _ auth h)

  after_origin-Genuine :
      (allowed : List Text) (r : AppResult (Unit {0})) (auth : Authentication)
      → verify_origin allowed parts.origins ≡ r
      → (after_origin sha256 now parts conn r).0 ≡ ok auth
      → IsSameOrigin allowed parts.origins × Genuine sha256 now parts conn auth
  after_origin-Genuine allowed (err e) auth origin h = cc
  after_origin-Genuine allowed (ok tt) auth origin h =
      ((verify_origin_iff allowed parts.origins).0 origin, or_token-Genuine _ auth refl h)

-- What the endpoint asks of an authentication.
abbrev pub Passes : AuthCheck → Authentication → Type 0
Passes c (cookie u) = Unit
Passes c (token t u) = IsGranted c t

check_auth_sound :
    (c : AuthCheck) (a b : Authentication) → check_auth c a ≡ ok b → (a ≡ b) × Passes c a
check_auth_sound c (cookie u) b h = (cc h, tt)
check_auth_sound c (token t u) b h =
    let (done, passed, same) = >>=-eq-ok (check_token c t) _ h in
    (cc same, (check_token_iff c t).0 passed)

-- A request that passes a check has only allowed origins, comes from the unlocked user of its
-- session or from the unlocked user of a usable token, and a token is granted what the check asks.
pub check-Genuine :
    (sha256 : Text → Text) (allowed_origins : List Text) (now : ℕ) (c : AuthCheck) (parts : Parts)
    (conn : Conn) (auth : Authentication)
    → (check sha256 allowed_origins now c parts conn).0 ≡ ok auth
    → IsSameOrigin allowed_origins parts.origins
      × Genuine sha256 now parts conn auth
      × Passes c auth
unfolding check authenticate
check-Genuine sha256 allowed_origins now c parts conn auth h =
    let (a, authenticated, checked) =
      >>=-eq-ok (authenticate sha256 allowed_origins now parts conn).0 (check_auth c) h in
    let (origin, genuine) =
      after_origin-Genuine sha256 now parts conn allowed_origins _ a refl authenticated in
    let (same, passed) = check_auth_sound c a auth checked in
    (origin, subst (Genuine sha256 now parts conn) same genuine, subst (Passes c) same passed)

session_at :
    (now : ℕ) (users : List User) (id : ℕ) (u : User)
    → find users id ≡ some u
    → IsUnlocked now u
    → session_user now users (some (pos id)) ≡ ok (some u)
session_at now users id u row unlocked = ground (arith, ensure_not_locked_complete now u unlocked)

session_found :
    (now : ℕ) (entry : Option Text) (users : List User) (s : Text) (id : ℕ) (u : User)
    → entry ≡ some s
    → parse_i32 s ≡ some (pos id)
    → find users id ≡ some u
    → IsUnlocked now u
    → session_user now users (parse_user_id entry) ≡ ok (some u)
session_found now entry users s id u e number row unlocked =
    ap (λ o. session_user now users (parse_user_id o)) e
    ∙ ap (session_user now users) number
    ∙ session_at now users id u row unlocked

-- A request with allowed origins and the session of an unlocked user passes every check as that
-- user, whatever its `Authorization` header is, and nothing is written.
pub check_session :
    (sha256 : Text → Text) (allowed_origins : List Text) (now : ℕ) (c : AuthCheck) (parts : Parts)
    (conn : Conn) (s : Text) (id : ℕ) (u : User)
    → IsSameOrigin allowed_origins parts.origins
    → parts.session_user_id ≡ some s
    → parse_i32 s ≡ some (pos id)
    → find conn.users id ≡ some u
    → IsUnlocked now u
    → check sha256 allowed_origins now c parts conn ≡ (ok (cookie u), conn)
unfolding check authenticate authenticate_via_cookie
check_session sha256 allowed_origins now c parts conn s id u origin entry number row unlocked =
    rw ((verify_origin_iff allowed_origins parts.origins).1 origin)
      (rw (session_found now parts.session_user_id conn.users s id u entry number row unlocked))
