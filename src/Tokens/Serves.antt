-- ===== src/Tokens/Serves.antt =====
-- What a request that presents the newest token comes to.
use crates_io.Prelude.{
  ℕ, ◌≡◌, refl, Text, none, some, List, ◌∷◌, Bool, true, false, text_eq_refl, ok, arith, String,
  codes, starts_with, pos,
}
use crates_io.Database.User.{User, find}
use crates_io.Database.Token.{ApiToken, is_unexpired, find_by_api_token, first_usable, parse_token}
use crates_io.Auth.{
  Parts, Conn, token, authenticate, authenticate_via_cookie, authenticate_via_token,
  optional_from_request_parts, find_user,
}
use crates_io.Auth.Genuine.{IsSameOrigin, IsUnlocked, verify_origin_iff, ensure_not_locked_complete}
use crates_io.Tokens.{Service}

-- The row as a check returns it.
abbrev pub marked : Bool → ℕ → ApiToken → ApiToken
marked true now row = row
marked false now row = record row { last_used_at = some now }

found-user :
    (message : String) (users : List User) (id : ℕ) (v : User)
    → find users id ≡ some v
    → find_user message users (pos id) ≡ ok v
found-user message users id v h = rw (h, find_user)

marked-user :
    (read_only : Bool) (now : ℕ) (row : ApiToken) → (marked read_only now row).user_id ≡ row.user_id
marked-user true now row = refl
marked-user false now row = refl

find_head :
    (read_only : Bool) (now : ℕ) (row : ApiToken) (rows : List ApiToken)
    → row.revoked ≡ false
    → is_unexpired now row.expired_at ≡ true
    → (find_by_api_token read_only now row.token (row ∷ rows)).0 ≡ some (marked read_only now row)
unfolding find_by_api_token first_usable
find_head true now row rows active fresh = rw (active, fresh, text_eq_refl row.token) refl
find_head false now row rows active fresh = ground (arith, active, fresh, text_eq_refl row.token)

-- A request that presents the token in front of the table, from an allowed origin and without a session.
pub serves :
    (service : Service) (later : ℕ) (plaintext : Text) (row : ApiToken) (rows : List ApiToken)
    (parts : Parts) (conn : Conn) (v : User)
    → row.token ≡ service.sha256 plaintext
    → row.revoked ≡ false
    → starts_with (codes "cio") plaintext ≡ true
    → conn.api_tokens ≡ row ∷ rows
    → IsSameOrigin service.allowed_origins parts.origins
    → parts.session_user_id ≡ none
    → optional_from_request_parts parts.authorization ≡ ok (some plaintext)
    → is_unexpired later row.expired_at ≡ true
    → find conn.users row.user_id ≡ some v
    → IsUnlocked later v
    → (authenticate service.sha256 service.allowed_origins later parts conn).0
      ≡ ok (token (marked conn.read_only later row) v)
unfolding authenticate authenticate_via_cookie authenticate_via_token parse_token
serves service later plaintext row rows parts conn v digest active prefix table origin no_session
      header fresh user unlocked =
    rw (
      (verify_origin_iff service.allowed_origins parts.origins).1 origin,
      no_session,
      header,
      prefix,
      table,
      ← digest,
      find_head conn.read_only later row rows active fresh,
      marked-user conn.read_only later row,
      found-user "user_id from token not found in database" conn.users row.user_id v user,
      ensure_not_locked_complete later v unlocked,
    )
