-- ===== src/Publish/Access.antt =====
-- src/controllers/krate/publish.rs: who publishes, and whether they may: the authentication by a
-- token of Trusted Publishing or as a user, the verified address, the rate limit.
use crates_io.Prelude.{
  ℕ, Text, Option, none, some, List, [], ◌∷◌, any, Bool, false, not, ◌&&◌, ◌==◌, ltb, if◌then◌else◌,
  Result, ok, err, ◌>>=◌, text_eq, starts_with,
}
use crates_io.Errors.{AppResult, bad_request, forbidden, custom, internal}
use crates_io.Database.Krate.{Crate}
use crates_io.Database.Owners.{Email, verified_email}
use crates_io.Database.Token.{EndpointScope, publish_new, publish_update}
use crates_io.Auth.{
  Parts, Conn, Authentication, AuthCheck, check, for_crate, with_endpoint_scope, default,
  optional_from_request_parts,
}
use crates_io.Auth
use crates_io.RateLimiter.{Bucket, LimitedAction, check_rate_limit}
use crates_io.Trustpub.AccessToken.{AccessToken, AccessTokenError, prefix, from_str}
use crates_io.Publish.Tables.{Tables, App, AuthType, regular, trust_pub, Request, TrustpubToken}

abbrev pub parsed_token :
    Option (Result AccessToken AccessTokenError) → AppResult (Option AccessToken)
parsed_token none = err (internal "panic" [])
parsed_token (some (err e)) =
    err (custom 401 "Invalid `Authorization` header: Failed to parse token" [])
parsed_token (some (ok token)) = ok (some token)

-- The token of Trusted Publishing in the header, if the header holds one.
unfoldable pub trustpub_token : Option Text → AppResult (Option AccessToken)
unfolding starts_with from_str
trustpub_token none = ok none
trustpub_token (some token) =
    if not (starts_with prefix token) then ok none else parsed_token (from_str token)

unfoldable pub find_token : ℕ → Text → List TrustpubToken → Option TrustpubToken
unfolding text_eq
find_token now hashed_token [] = none
find_token now hashed_token (row ∷ rows) =
    if text_eq row.hashed_token hashed_token && ltb now row.expires_at
    then some row
    else find_token now hashed_token rows

abbrev pub is_crate : ℕ → Option ℕ → Bool
is_crate id none = false
is_crate id (some crate_id) = crate_id == id

abbrev pub of_token : Crate → Option TrustpubToken → AppResult AuthType
of_token krate none = err (forbidden "Invalid authentication token")
of_token krate (some row) =
    if not (any (is_crate krate.id) row.crate_ids)
    then err
        (custom 403 "The provided access token is not valid for crate `{name}`" (krate.name ∷ []))
    else ok (trust_pub row.trustpub_data)

abbrev pub via_trustpub : App → ℕ → Option Crate → AccessToken → Tables → AppResult AuthType
via_trustpub app now none token s = err (
    forbidden
      "Trusted Publishing tokens do not support creating new crates. Publish the crate manually, first")
via_trustpub app now (some krate) token s =
    of_token krate (find_token now (app.server.sha256 token.raw) s.trustpub_tokens)

abbrev pub endpoint_scope : Option Crate → EndpointScope
endpoint_scope none = publish_new
endpoint_scope (some krate) = publish_update

abbrev pub set_conn : Conn → Tables → Tables
set_conn conn s = record s {
  registry = record s.registry { rows = record s.registry.rows { conn = conn } };
}

abbrev pub as_regular : AppResult Authentication → AppResult AuthType
as_regular (ok auth) = ok (regular auth)
as_regular (err e) = err e

abbrev pub authorize_with :
    App
    → ℕ
    → Parts
    → Request
    → Tables
    → AppResult (Option AccessToken)
    → AppResult AuthType × Tables
authorize_with app now parts request s (err e) = (err e, s)
authorize_with app now parts request s (ok (some token)) =
    (via_trustpub app now request.existing_crate token s, s)
authorize_with app now parts request s (ok none) =
    let (auth, conn) =
      check app.server.sha256 app.server.allowed_origins now
        (for_crate (with_endpoint_scope default (endpoint_scope request.existing_crate))
          request.metadata.name)
        parts s.registry.rows.conn in
    (as_regular auth, set_conn conn s)

-- The authentication, by a token of Trusted Publishing or as a user.
unfoldable pub authorize : App → ℕ → Parts → Request → Tables → AppResult AuthType × Tables
unfolding trustpub_token find_token check
authorize app now parts request s =
    authorize_with app now parts request s
      (optional_from_request_parts parts.authorization >>= trustpub_token)

abbrev pub ensure_trustpub_only : Option Crate → AuthType → AppResult (Unit {0})
ensure_trustpub_only none auth = ok tt
ensure_trustpub_only (some krate) (trust_pub data_) = ok tt
ensure_trustpub_only (some krate) (regular auth) =
    if krate.trustpub_only
    then err (
        forbidden
          "New versions of this crate can only be published using Trusted Publishing (see https://crates.io/docs/trusted-publishing).")
    else ok tt

abbrev pub required_email : Text → Option Text → AppResult (Option Text)
required_email domain none = err (
    bad_request
      "A verified email address is required to publish crates to crates.io. Visit https://{domain}/settings/profile to set and verify your email address."
      (domain ∷ []))
required_email domain (some email) = ok (some email)

abbrev pub verified : App → AuthType → List Email → AppResult (Option Text)
verified app (trust_pub data_) emails = ok none
verified app (regular auth) emails =
    required_email app.domain_name (verified_email emails (Auth.user auth).id)

abbrev pub limited_action : Option Crate → LimitedAction
limited_action none = LimitedAction.publish_new
limited_action (some krate) = LimitedAction.publish_update

abbrev pub limit :
    App → ℕ → AuthType → Option Crate → List Bucket → AppResult (Unit {0}) × List Bucket
limit app now (trust_pub data_) existing_crate buckets = (ok tt, buckets)
limit app now (regular auth) existing_crate buckets =
    check_rate_limit app.rate_limiter (Auth.user auth).id (limited_action existing_crate) now
      buckets
