-- ===== src/Auth/Writes.antt =====
-- What the authentication of a request writes.
use crates_io.Prelude.{ℕ, ◌≡◌, refl, Option, none, some, List, Text, map, ok, err}
use crates_io.Errors.{AppResult}
use crates_io.Database.User.{User}
use crates_io.Database.Token.Lookup.{find_by_api_token-writes, erase}
use crates_io.Auth.{
  Parts, Conn, AuthCheck, verify_origin, authenticate_via_token, authenticate, check, via_digest,
  via_header, or_token, after_origin,
}

digest-writes :
    (now : ℕ) (d : Option Text) (conn : Conn)
    → ((via_digest now d conn).1.users ≡ conn.users)
      × (map erase (via_digest now d conn).1.api_tokens ≡ map erase conn.api_tokens)
digest-writes now none conn = (refl, refl)
digest-writes now (some digest) conn =
    (refl, (find_by_api_token-writes conn.read_only now digest conn.api_tokens).0)

header-writes :
    (sha256 : Text → Text) (now : ℕ) (r : AppResult (Option Text)) (conn : Conn)
    → ((via_header sha256 now r conn).1.users ≡ conn.users)
      × (map erase (via_header sha256 now r conn).1.api_tokens ≡ map erase conn.api_tokens)
header-writes sha256 now (err e) conn = (refl, refl)
header-writes sha256 now (ok none) conn = (refl, refl)
header-writes sha256 now (ok (some plaintext)) conn = digest-writes now _ conn

or_token-writes :
    (sha256 : Text → Text) (now : ℕ) (parts : Parts) (conn : Conn) (r : AppResult (Option User))
    → ((or_token sha256 now parts conn r).1.users ≡ conn.users)
      × (map erase (or_token sha256 now parts conn r).1.api_tokens ≡ map erase conn.api_tokens)
unfolding authenticate_via_token
or_token-writes sha256 now parts conn (err e) = (refl, refl)
or_token-writes sha256 now parts conn (ok (some u)) = (refl, refl)
or_token-writes sha256 now parts conn (ok none) = header-writes sha256 now _ conn

after_origin-writes :
    (sha256 : Text → Text) (now : ℕ) (parts : Parts) (conn : Conn) (r : AppResult (Unit {0}))
    → ((after_origin sha256 now parts conn r).1.users ≡ conn.users)
      × (map erase (after_origin sha256 now parts conn r).1.api_tokens ≡ map erase conn.api_tokens)
after_origin-writes sha256 now parts conn (err e) = (refl, refl)
after_origin-writes sha256 now parts conn (ok _) = or_token-writes sha256 now parts conn _

-- A check, passed or not, changes no user, and of a token only the time of its last use.
pub check-writes :
    (sha256 : Text → Text) (allowed_origins : List Text) (now : ℕ) (c : AuthCheck) (parts : Parts)
    (conn : Conn)
    → ((check sha256 allowed_origins now c parts conn).1.users ≡ conn.users)
      × (map erase (check sha256 allowed_origins now c parts conn).1.api_tokens
          ≡ map erase conn.api_tokens)
unfolding check authenticate
check-writes sha256 allowed_origins now c parts conn =
    after_origin-writes sha256 now parts conn (verify_origin allowed_origins parts.origins)
