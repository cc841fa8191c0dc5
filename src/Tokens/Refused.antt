-- ===== src/Tokens/Refused.antt =====
-- A token that was revoked is refused from then on.
use crates_io.Prelude.{
  ℕ, ◌≡◌, Text, none, some, List, Bool, true, false, All, All-imp, ok, err, codes, starts_with,
}
use crates_io.Errors.{forbidden}
use crates_io.Database.Token.{ApiToken, parse_token}
use crates_io.Database.Token.Lookup.{IsUsable, find_by_api_token-eq-none_iff}
use crates_io.Auth.{
  Parts, Conn, AuthCheck, check, authenticate, authenticate_via_cookie, authenticate_via_token,
  optional_from_request_parts,
}
use crates_io.Auth.Genuine.{IsSameOrigin, verify_origin_iff}
use crates_io.Tokens.{Service}
use crates_io.Tokens.Alert.{Tokens}
use crates_io.Tokens.Revoked.{IsRevoked}
use crates_io.Tokens.Steps.{Steps, Steps-Stays}
use crates_io.Tokens.Unique.{IsUnique}
use crates_io.Tokens.Revocation.{Revokes, Revokes-IsRevoked}

-- The rows that a request presents a token to.
pub record Presents (service : Service) (plaintext : Text) (parts : Parts) : Type 0 where
  pub origins : IsSameOrigin service.allowed_origins parts.origins
  pub no_session : parts.session_user_id ≡ none
  pub header : optional_from_request_parts parts.authorization ≡ ok (some plaintext)
  pub marked : starts_with (codes "cio") plaintext ≡ true

unusable :
    (d : Text) (now : ℕ) (rows : List ApiToken)
    → All (λ r. r.token ≡ d → r.revoked ≡ true) rows
    → All (λ r. ¬ IsUsable now d r) rows
unusable d now rows h = All-imp (λ r f u. not_both r.revoked (f u.digest) u.not_revoked) rows h
  where
    not_both : (b : Bool) → b ≡ true → b ≡ false → ⊥
    not_both true h k = cc
    not_both false h k = cc

refused :
    (service : Service) (now : ℕ) (c : AuthCheck) (plaintext : Text) (parts : Parts) (conn : Conn)
    → Presents service plaintext parts
    → IsRevoked (service.sha256 plaintext) conn.api_tokens
    → (check service.sha256 service.allowed_origins now c parts conn).0
      ≡ err (forbidden "authentication failed")
unfolding check authenticate authenticate_via_cookie authenticate_via_token parse_token
refused service now c plaintext parts conn p h = rw (
  (verify_origin_iff service.allowed_origins parts.origins).1 p.origins,
  p.no_session,
  p.header,
  p.marked,
  (find_by_api_token-eq-none_iff conn.read_only now (service.sha256 plaintext) conn.api_tokens).1
      (unusable (service.sha256 plaintext) now conn.api_tokens h.1),
)

-- No two tokens have a digest in common: once a token is revoked, by a request that presents it, by a
-- request of its user, or because GitHub reports it and the answer is that it was one, no request that presents it,
-- from an allowed origin and without a session, passes any check, whatever is created, revoked,
-- reported or checked in between.
pub revoked-refused :
    (service : Service) (now later : ℕ) (plaintext : Text) (s t u : Tokens) (c : AuthCheck)
    (parts : Parts)
    → IsUnique s.api.conn.api_tokens
    → Revokes service now plaintext s t
    → Steps service t u
    → Presents service plaintext parts
    → (check service.sha256 service.allowed_origins later c parts u.api.conn).0
      ≡ err (forbidden "authentication failed")
revoked-refused service now later plaintext s t u c parts unique revokes steps p =
    refused service later c plaintext parts u.api.conn p (
      Steps-Stays (service.sha256 plaintext) service t u steps
        (Revokes-IsRevoked service now plaintext s t unique revokes))
