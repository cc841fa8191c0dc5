-- ===== src/Auth.antt =====
-- src/auth.rs and `verify_origin` of src/controllers/util.rs: who makes a request, and whether an
-- endpoint lets the request pass. A request is the parts of it that are read here; the digest of a
-- token, the clock and the configured origins are parameters. The entries of the request log are
-- not modelled, nor is a failing database connection.
pub mod Header
pub mod Checks
pub mod Genuine
pub mod Sessions
pub mod Writes
mod Tests
use crates_io.Prelude.{
  ℕ, Text, Option, none, some, List, [], ◌∷◌, Bool, true, false, not, ◌&&◌, ◌||◌, codes, text_eq,
  Result, ok, err, if◌then◌else◌, is_empty, is_some, starts_with, map, ltb, String, all, any,
  split_once, trim_ascii, eq_ignore_ascii_case, ◌>>=◌, ◌>>◌, ℤ, pos, negsuc, parse_i32,
}
use crates_io.Errors.{
  AppError, AppResult, custom, internal, forbidden, account_locked,
  insecurely_generated_token_revoked,
}
use crates_io.Database.User.{User, find}
use crates_io.Database.Token.{
  ApiToken, EndpointScope, publish_new, publish_update, trusted_publishing, yank, change_owners,
  CrateScope, matches, parse_token, find_by_api_token,
}

-- The headers that are read, and the entry `user_id` of the session. A header value that is not
-- visible ASCII has no text, `some none`.
pub record Parts : Type 0 where
  pub origins : List Text
  pub authorization : Option (Option Text)
  pub session_user_id : Option Text

-- The rows that are read and written.
pub record Conn : Type 0 where
  pub users : List User
  pub api_tokens : List ApiToken
  pub read_only : Bool

abbrev scheme_and_token : Text → Option (Text × Text) → Text × Text
scheme_and_token header none = ([], header)
scheme_and_token header (some parts) = parts

abbrev token_of : Text × Text → AppResult (Option Text)
token_of (scheme, token) =
    if not (eq_ignore_ascii_case scheme (codes "Bearer") || is_empty scheme)
    then err (
        custom 401
          "Invalid `Authorization` header: Found unexpected authentication scheme `{scheme}`"
          (scheme ∷ []))
    else ok (some (trim_ascii token))

-- `AuthHeader::optional_from_request_parts`
unfoldable pub optional_from_request_parts : Option (Option Text) → AppResult (Option Text)
optional_from_request_parts none = ok none
optional_from_request_parts (some none) =
    err (custom 401 "Invalid `Authorization` header: Found unexpected non-ASCII characters" [])
optional_from_request_parts (some (some header)) =
    token_of (scheme_and_token header (split_once 32 header))

-- `AuthHeader::from_request_parts`
unfoldable pub from_request_parts : Option (Option Text) → AppResult Text
unfolding optional_from_request_parts
from_request_parts header = do
  auth ← optional_from_request_parts header
  elim auth [ some token ↦ ok token | none ↦ err (custom 401 "Missing `Authorization` header" []) ]

pub record AuthCheck : Type 0 where
  pub allow_token : Bool
  pub endpoint_scope : Option EndpointScope
  pub crate_name : Option Text
  pub allow_any_crate_scope : Bool

abbrev pub default : AuthCheck
default = record {
  allow_token = true;
  endpoint_scope = none;
  crate_name = none;
  allow_any_crate_scope = false;
}

abbrev pub only_cookie : AuthCheck
only_cookie = record default { allow_token = false }

abbrev pub with_endpoint_scope : AuthCheck → EndpointScope → AuthCheck
with_endpoint_scope check scope = record check { endpoint_scope = some scope }

abbrev pub for_crate : AuthCheck → Text → AuthCheck
for_crate check name = record check { crate_name = some name }

abbrev pub with_any_crate_scope : AuthCheck → AuthCheck
with_any_crate_scope check = record check { allow_any_crate_scope = true }

pub data Authentication : Type 0 where
  cookie : User → Authentication
  token : ApiToken → User → Authentication

abbrev pub user : Authentication → User
user (cookie u) = u
user (token t u) = u

abbrev pub api_token : Authentication → Option ApiToken
api_token (cookie u) = none
api_token (token t u) = some t

-- The derived equality of `EndpointScope`.
unfoldable pub scope_eq : EndpointScope → EndpointScope → Bool
scope_eq publish_new publish_new = true
scope_eq publish_update publish_update = true
scope_eq trusted_publishing trusted_publishing = true
scope_eq yank yank = true
scope_eq change_owners change_owners = true
scope_eq _ _ = false

unfoldable pub endpoint_scope_matches : Option EndpointScope → Option (List EndpointScope) → Bool
unfolding scope_eq
endpoint_scope_matches endpoint none = true
endpoint_scope_matches none (some scopes) = false
endpoint_scope_matches (some scope) (some scopes) = any (scope_eq scope) scopes

-- A token with crate scopes, at an endpoint with or without a crate.
abbrev pub some_scope_matches : Bool → Option Text → List CrateScope → Bool
some_scope_matches any_crate none scopes = any_crate
some_scope_matches any_crate (some name) scopes = any (λ s. matches s name) scopes

unfoldable pub crate_scope_matches : AuthCheck → Option (List CrateScope) → Bool
crate_scope_matches check none = true
crate_scope_matches check (some []) = true
crate_scope_matches check (some (scope ∷ scopes)) =
    some_scope_matches check.allow_any_crate_scope check.crate_name (scope ∷ scopes)

-- The tests that `AuthCheck::check` makes of a token.
unfoldable pub check_token : AuthCheck → ApiToken → AppResult (Unit {0})
check_token check t =
    if not check.allow_token
    then err (forbidden "this action can only be performed on the crates.io website")
    else if not (endpoint_scope_matches check.endpoint_scope t.endpoint_scopes)
    then err (forbidden "this token does not have the required permissions to perform this action")
    else if not (crate_scope_matches check t.crate_scopes)
    then err (forbidden "this token does not have the required permissions to perform this action")
    else ok tt

-- `Authentication::reject_legacy_tokens`
unfoldable pub reject_legacy_tokens : Authentication → AppResult (Unit {0})
reject_legacy_tokens (cookie u) = ok tt
reject_legacy_tokens (token t u) =
    if not (is_some t.endpoint_scopes)
    then err (
        forbidden
          "This endpoint cannot be used with legacy API tokens. Use a scoped API token instead.")
    else ok tt

-- `HeaderMap::get_all(ORIGIN)` finds no value outside the allowed origins.
unfoldable pub verify_origin : List Text → List Text → AppResult (Unit {0})
verify_origin allowed_origins origins =
    if all (λ value. any (text_eq value) allowed_origins) origins
    then ok tt
    else err (forbidden "invalid origin header")

abbrev pub still_locked : ℕ → Option ℕ → Bool
still_locked now none = true
still_locked now (some until) = ltb now until

unfoldable pub ensure_not_locked : ℕ → User → AppResult (Unit {0})
ensure_not_locked now u = elim u.account_lock_reason [
  | none ↦ ok tt
  | some reason ↦
      if still_locked now u.account_lock_until
      then err (account_locked reason u.account_lock_until)
      else ok tt
]

-- `User::find` of an `i32`, its missing row an error.
abbrev pub find_user : String → List User → ℤ → AppResult User
find_user message users (pos id) = elim (find users id) [
  | some u ↦ ok u
  | none ↦ err (internal message [])
]
find_user message users (negsuc n) = err (internal message [])

abbrev parse_user_id : Option Text → Option ℤ
parse_user_id none = none
parse_user_id (some s) = parse_i32 s

abbrev session_user : ℕ → List User → Option ℤ → AppResult (Option User)
session_user now users none = ok none
session_user now users (some id) = do
  u ← find_user "user_id from cookie not found in database" users id
  ensure_not_locked now u
  ok (some u)

unfoldable pub authenticate_via_cookie : ℕ → Parts → Conn → AppResult (Option User)
authenticate_via_cookie now parts conn =
    session_user now conn.users (parse_user_id parts.session_user_id)

-- From the row that the digest finds on.
abbrev token_user : ℕ → List User → Option ApiToken → AppResult (Option Authentication)
token_user now users none = err (forbidden "authentication failed")
token_user now users (some t) = do
  u ← find_user "user_id from token not found in database" users (pos t.user_id)
  ensure_not_locked now u
  ok (some (token t u))

abbrev via_digest : ℕ → Option Text → Conn → AppResult (Option Authentication) × Conn
via_digest now none conn = (err insecurely_generated_token_revoked, conn)
via_digest now (some digest) conn =
    let (found, rows) = find_by_api_token conn.read_only now digest conn.api_tokens in
    (token_user now conn.users found, record conn { api_tokens = rows })

abbrev via_header :
    (Text → Text) → ℕ → AppResult (Option Text) → Conn → AppResult (Option Authentication) × Conn
via_header sha256 now (err e) conn = (err e, conn)
via_header sha256 now (ok none) conn = (ok none, conn)
via_header sha256 now (ok (some plaintext)) conn =
    via_digest now (parse_token sha256 plaintext) conn

unfoldable pub authenticate_via_token :
    (Text → Text) → ℕ → Parts → Conn → AppResult (Option Authentication) × Conn
authenticate_via_token sha256 now parts conn =
    via_header sha256 now (optional_from_request_parts parts.authorization) conn

abbrev or_forbidden : AppResult (Option Authentication) → AppResult Authentication
or_forbidden (ok none) = err (forbidden "this action requires authentication")
or_forbidden (ok (some auth)) = ok auth
or_forbidden (err e) = err e

abbrev or_token :
    (Text → Text) → ℕ → Parts → Conn → AppResult (Option User) → AppResult Authentication × Conn
or_token sha256 now parts conn (ok (some u)) = (ok (cookie u), conn)
or_token sha256 now parts conn (err e) = (err e, conn)
or_token sha256 now parts conn (ok none) =
    let (result, conn') = authenticate_via_token sha256 now parts conn in
    (or_forbidden result, conn')

abbrev after_origin :
    (Text → Text) → ℕ → Parts → Conn → AppResult (Unit {0}) → AppResult Authentication × Conn
after_origin sha256 now parts conn (err e) = (err e, conn)
after_origin sha256 now parts conn (ok _) =
    or_token sha256 now parts conn (authenticate_via_cookie now parts conn)

unfoldable pub authenticate :
    (Text → Text) → List Text → ℕ → Parts → Conn → AppResult Authentication × Conn
authenticate sha256 allowed_origins now parts conn =
    after_origin sha256 now parts conn (verify_origin allowed_origins parts.origins)

abbrev check_auth : AuthCheck → Authentication → AppResult Authentication
check_auth check (cookie u) = ok (cookie u)
check_auth check (token t u) = do check_token check t; ok (token t u)

-- `AuthCheck::check`
unfoldable pub check :
    (Text → Text) → List Text → ℕ → AuthCheck → Parts → Conn → AppResult Authentication × Conn
check sha256 allowed_origins now c parts conn =
    let (auth, conn') = authenticate sha256 allowed_origins now parts conn in
    (auth >>= check_auth c, conn')
