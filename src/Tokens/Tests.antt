-- ===== src/Tokens/Tests.antt =====
-- Ann creates a token, uses it and revokes it with itself.
use crates_io.Prelude.{
  ◌≡◌, refl, ap, map, true, false, none, some, [], ◌∷◌, Text, codes, text_eq, strip_suffix_char,
  starts_with, ok, err, split_once, trim_ascii, eq_ignore_ascii_case, parse_i32, pos, strip_prefix,
}
use crates_io.Errors.{AppResult, bad_request, forbidden}
use crates_io.Validation.{validate_crate_name, validate_create_ident, check_chars}
use crates_io.Database.User.{User, find}
use crates_io.Database.Token.{
  ApiToken, yank, matches, find_by_api_token, first_usable, parse_token, try_from, is_valid_pattern,
  try_from_bytes, to_bytes,
}
use crates_io.Database.Token.Lookup.{erase}
use crates_io.Auth.{
  Parts, cookie, token, default, check, authenticate, authenticate_via_cookie,
  authenticate_via_token, verify_origin, ensure_not_locked, check_token, endpoint_scope_matches,
  crate_scope_matches, optional_from_request_parts,
}
use crates_io.Trustpub.AccessToken.{from_str}
use crates_io.Tokens.{
  Service, State, NewApiToken, new_token, collect, grant, insert, email, create_api_token,
}
use crates_io.Tokens.Manage.{
  list_api_tokens, find_own, find_api_token, revoke_api_token, revoke_current_api_token,
}
use crates_io.Tokens.Alert.{
  Tokens, true_positive, by_digest, send_notification_email, alert_revoke_token,
}
use crates_io.Tokens.Serves.{marked}
use crates_io.Tokens.Create.{IsAsked, create_api_token-Serves}
use crates_io.Tokens.Steps.{creates, done, next}
use crates_io.Tokens.Revocation.{by_itself}
use crates_io.Tokens.Refused.{revoked-refused}
use crates_io.Tokens.Own.{OnlyOwn, requests-OnlyOwn}

run : Unit {0}
unfolding check authenticate authenticate_via_cookie authenticate_via_token verify_origin
    ensure_not_locked check_token endpoint_scope_matches crate_scope_matches matches find
    find_by_api_token first_usable parse_token optional_from_request_parts parse_i32 text_eq
    trim_ascii eq_ignore_ascii_case split_once starts_with strip_suffix_char collect grant insert
    email create_api_token list_api_tokens find_own find_api_token revoke_api_token
    revoke_current_api_token by_digest send_notification_email alert_revoke_token strip_prefix
    from_str try_from is_valid_pattern try_from_bytes to_bytes validate_crate_name
    validate_create_ident check_chars
run = tt

abbrev ann : User
ann = record {
  id = 3;
  gh_id = pos 30;
  gh_login = codes "ann";
  gh_encrypted_token = [];
  account_lock_reason = none;
  account_lock_until = none;
  is_admin = false;
}

abbrev service : Service
service = record { sha256 = λ s. s; allowed_origins = []; disable_token_creation = none }

abbrev start : State
start = record {
  conn = record { users = ann ∷ []; api_tokens = []; read_only = false };
  emails = record { user_id = 3; email = codes "ann@example.com"; verified = true } ∷ [];
  next_token_id = 7;
  sent = [];
}

abbrev session : Parts
session = record { origins = []; authorization = none; session_user_id = some (codes "3") }

abbrev with_token : Parts
with_token = record {
  origins = [];
  authorization = some (some (codes "Bearer cioabc"));
  session_user_id = none;
}

abbrev wish : NewApiToken
wish = record {
  name = codes "ci";
  crate_scopes = some (codes "tokio-*" ∷ []);
  endpoint_scopes = some (codes "yank" ∷ []);
  expired_at = some 900;
}

abbrev row : ApiToken
row = record {
  id = 7;
  user_id = 3;
  name = codes "ci";
  token = codes "cioabc";
  revoked = false;
  crate_scopes = some (record { pattern = codes "tokio-*" } ∷ []);
  endpoint_scopes = some (yank ∷ []);
  last_used_at = none;
  expired_at = some 900;
}

abbrev created : State
created = record start {
  conn = record start.conn { api_tokens = row ∷ [] };
  next_token_id = 8;
  sent = new_token (codes "ann@example.com") (codes "ci") ∷ [];
}

creates_token :
    create_api_token service 10 (codes "abc") wish session start
    ≡ (ok (row, codes "cioabc"), created)
unfolding run
creates_token = refl

-- A token without scopes.
abbrev legacy : ApiToken
legacy = record row { crate_scopes = none; endpoint_scopes = none }

abbrev with_legacy : Tokens
with_legacy = record {
  api = record start { conn = record start.conn { api_tokens = legacy ∷ [] } };
  trustpub_tokens = [];
}

-- A token creates no token, and one with scopes not even revokes itself.
refuses_scoped :
    (revoke_current_api_token service 10 with_token created).0
    ≡ err (forbidden "this token does not have the required permissions to perform this action")
unfolding run
refuses_scoped = refl

refuses_token :
    (create_api_token service 10 (codes "def") wish with_token with_legacy.api).0
    ≡ err (bad_request "cannot use an API token to create a new API token" [])
unfolding run
refuses_token = refl

refuses_scope :
    (create_api_token service 10
      (codes "def")
      (record wish { crate_scopes = some (codes "-" ∷ []) })
      session
      start).0
    ≡ err (bad_request "invalid crate scope" [])
unfolding run
refuses_scope = refl

lists : (list_api_tokens service 20 none session created).0 ≡ ok (row ∷ [])
unfolding run
lists = refl

lists_expired : (list_api_tokens service 1000 none session created).0 ≡ ok []
unfolding run
lists_expired = refl

lists_recent : (list_api_tokens service 1000 (some (pos 1)) session created).0 ≡ ok (row ∷ [])
unfolding run
lists_recent = refl

reports :
    (alert_revoke_token service (codes "cioabc") (record { api = created; trustpub_tokens = [] })).0
    ≡ ok true_positive
unfolding run
reports = refl

presented : optional_from_request_parts with_token.authorization ≡ ok (some (codes "cioabc"))
unfolding run
presented = refl

known :
    find (create_api_token service 10 (codes "abc") wish session start).1.conn.users 3 ≡ some ann
unfolding run
known = refl

create_api_token-Serves_example :
    (u : User) × ((check service.sha256 service.allowed_origins 10 default session start.conn).0
      ≡ ok (cookie u))
    × IsAsked service u wish (codes "cioabc") row
    × (map erase (create_api_token service 10 (codes "abc") wish session start).1.conn.api_tokens
        ≡ erase row ∷ [])
    × ((authenticate service.sha256 service.allowed_origins 500 with_token
          (create_api_token service 10 (codes "abc") wish session start).1.conn).0
        ≡ ok (
            token
              (marked
                (create_api_token service 10 (codes "abc") wish session start).1.conn.read_only
                500
                row)
              ann))
create_api_token-Serves_example =
    create_api_token-Serves service 10 (codes "abc") wish session start row (codes "cioabc")
      (ap (λ (r : AppResult (ApiToken × Text) × State). r.0) creates_token) 500 with_token ann tt
      refl presented refl known (λ reason h. cc)

revoked : (revoke_current_api_token service 20 with_token with_legacy.api).0 ≡ ok tt
unfolding run
revoked = refl

abbrev after : Tokens
after = record with_legacy {
  api = (revoke_current_api_token service 20 with_token with_legacy.api).1;
}

abbrev later_tokens : Tokens
later_tokens = record after {
  api = (create_api_token service 30 (codes "def") wish session after.api).1;
}

marked_cio : starts_with (codes "cio") (codes "cioabc") ≡ true
unfolding run
marked_cio = refl

revoked-refused_example :
    (check service.sha256 service.allowed_origins 40 default with_token later_tokens.api.conn).0
    ≡ err (forbidden "authentication failed")
revoked-refused_example =
    revoked-refused service 20 40 (codes "cioabc") with_legacy after later_tokens default with_token
      (λ a. elim a [ ], tt) (by_itself with_token presented revoked refl)
      (next 30 (creates (codes "def") wish session refl) done)
      (record { origins = tt; no_session = refl; header = presented; marked = marked_cio })

requests-OnlyOwn_example :
    OnlyOwn
      (check service.sha256 service.allowed_origins 20 default with_token with_legacy.api.conn).0
      (legacy ∷ [])
      (create_api_token service 20 (codes "def") wish with_token with_legacy.api).1.conn.api_tokens
    × OnlyOwn
        (check service.sha256 service.allowed_origins 20 default with_token with_legacy.api.conn).0
        (legacy ∷ [])
        (revoke_api_token service 20 7 with_token with_legacy.api).1.conn.api_tokens
    × OnlyOwn
        (check service.sha256 service.allowed_origins 20 default with_token with_legacy.api.conn).0
        (legacy ∷ [])
        (revoke_current_api_token service 20 with_token with_legacy.api).1.conn.api_tokens
requests-OnlyOwn_example =
    requests-OnlyOwn service 20 (codes "def") wish 7 with_token with_legacy.api
      (λ a. elim a [ ], tt)
