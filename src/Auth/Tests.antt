-- ===== src/Auth/Tests.antt =====
-- Requests with a session, with a token and with neither.
use crates_io.Prelude.{
  ◌≡◌, refl, ◌↔◌, true, false, none, some, List, [], ◌∷◌, here, Text, codes, map, text_eq,
  strip_suffix_char, starts_with, ok, err, ap, split_once, trim_ascii, eq_ignore_ascii_case,
  parse_i32, pos,
}
use crates_io.Errors.{forbidden}
use crates_io.Database.User.{User, find}
use crates_io.Database.Token.{yank, matches, ApiToken, find_by_api_token, parse_token}
use crates_io.Database.Token.Lookup.{erase}
use crates_io.Auth.{
  Parts, Conn, AuthCheck, default, only_cookie, with_endpoint_scope, for_crate, cookie, token,
  optional_from_request_parts, endpoint_scope_matches, crate_scope_matches, check_token,
  verify_origin, ensure_not_locked, authenticate_via_cookie, authenticate_via_token, authenticate,
  check,
}
use crates_io.Auth.Header.{Holds, optional_from_request_parts_iff}
use crates_io.Auth.Checks.{
  EndpointGranted, CrateGranted, IsGranted, endpoint_scope_matches_iff, crate_scope_matches_iff,
  check_token_iff,
}
use crates_io.Auth.Genuine.{IsSameOrigin, Genuine}
use crates_io.Auth.Sessions.{Passes, check-Genuine, check_session}
use crates_io.Auth.Writes.{check-writes}

run : Unit {0}
unfolding check authenticate authenticate_via_cookie authenticate_via_token verify_origin
    ensure_not_locked check_token endpoint_scope_matches crate_scope_matches matches find
    find_by_api_token parse_token optional_from_request_parts parse_i32 text_eq trim_ascii
    eq_ignore_ascii_case split_once starts_with strip_suffix_char
run = tt

abbrev ann : User
ann = record {
  id = 3;
  gh_id = pos 30;
  gh_login = codes "ann";
  gh_encrypted_token = [];
  account_lock_reason = none;
  account_lock_until = none;
  is_admin = false;
}

abbrev bob : User
bob = record ann { id = 4; account_lock_reason = some (codes "spam") }

abbrev row : ApiToken
row = record {
  id = 7;
  user_id = 3;
  name = codes "ci";
  token = codes "cio123";
  revoked = false;
  crate_scopes = some (record { pattern = codes "tokio-*" } ∷ []);
  endpoint_scopes = some (yank ∷ []);
  last_used_at = none;
  expired_at = none;
}

abbrev used : ApiToken
used = record row { last_used_at = some 20 }

abbrev db : Conn
db = record { users = ann ∷ bob ∷ []; api_tokens = row ∷ []; read_only = false }

abbrev allowed : List Text
allowed = codes "https://crates.io" ∷ []

abbrev with_token : Parts
with_token = record {
  origins = [];
  authorization = some (some (codes "bearer cio123 "));
  session_user_id = none;
}

abbrev with_session : Parts
with_session = record {
  origins = allowed;
  authorization = some (some (codes "basic x"));
  session_user_id = some (codes "3");
}

abbrev yank_check : AuthCheck
yank_check = for_crate (with_endpoint_scope default yank) (codes "tokio-util")

abbrev digest : Text → Text
digest s = s

requests :
    (check digest allowed 20 yank_check with_token db
      ≡ (ok (token used ann), record db { api_tokens = used ∷ [] }))
    × (check digest allowed 20 yank_check with_session db ≡ (ok (cookie ann), db))
    × ((check digest allowed 20 only_cookie with_token db).0
        ≡ err (forbidden "this action can only be performed on the crates.io website"))
    × ((check digest allowed 20 (for_crate yank_check (codes "serde")) with_token db).0
        ≡ err
            (forbidden "this token does not have the required permissions to perform this action"))
    × ((check digest allowed 20 yank_check
          (record with_session { origins = codes "https://x" ∷ [] })
          db).0
        ≡ err (forbidden "invalid origin header"))
    × ((check digest allowed 20 yank_check (record with_token { authorization = none }) db).0
        ≡ err (forbidden "this action requires authentication"))
unfolding run
requests = (refl, refl, refl, refl, refl, refl)

optional_from_request_parts_iff_example :
    (optional_from_request_parts (some (some (codes "Bearer cio1"))) ≡ ok (some (codes "cio1")))
    ↔ Holds (codes "Bearer cio1") (codes "cio1")
optional_from_request_parts_iff_example =
    optional_from_request_parts_iff (codes "Bearer cio1") (codes "cio1")

endpoint_scope_matches_iff_example :
    (endpoint_scope_matches (some yank) row.endpoint_scopes ≡ true)
    ↔ EndpointGranted (some yank) row.endpoint_scopes
endpoint_scope_matches_iff_example = endpoint_scope_matches_iff (some yank) row.endpoint_scopes

crate_scope_matches_iff_example :
    (crate_scope_matches yank_check row.crate_scopes ≡ true)
    ↔ CrateGranted yank_check row.crate_scopes
crate_scope_matches_iff_example = crate_scope_matches_iff yank_check row.crate_scopes

check_token_iff_example : (check_token yank_check row ≡ ok tt) ↔ IsGranted yank_check row
check_token_iff_example = check_token_iff yank_check row

check-Genuine_example :
    IsSameOrigin allowed with_token.origins
    × Genuine digest 20 with_token db (token used ann)
    × Passes yank_check (token used ann)
check-Genuine_example =
    check-Genuine digest allowed 20 yank_check with_token db (token used ann)
      (ap (λ p. p.0) requests.0)

check_session_example : check digest allowed 20 yank_check with_session db ≡ (ok (cookie ann), db)
check_session_example =
    check_session digest allowed 20 yank_check with_session db (codes "3") 3 ann (here refl, tt)
      refl (unfold parse_i32 in refl) (unfold find in refl) (λ reason h. cc)

check-writes_example :
    ((check digest allowed 20 yank_check with_token db).1.users ≡ db.users)
    × (map erase (check digest allowed 20 yank_check with_token db).1.api_tokens
        ≡ map erase db.api_tokens)
check-writes_example = check-writes digest allowed 20 yank_check with_token db
