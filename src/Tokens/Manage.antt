-- ===== src/Tokens/Manage.antt =====
-- src/controllers/token.rs: a user's tokens are listed, read and revoked. The order of a
-- list is left out.
use crates_io.Prelude.{
  ℕ, ◌+◌, ◌*◌, Option, none, some, List, [], ◌∷◌, map, keep, Bool, true, not, ◌&&◌, ◌==◌,
  if◌then◌else◌, ok, err, ◌>>=◌, ℤ, pos, negsuc,
}
use crates_io.Errors.{AppResult, bad_request, not_found}
use crates_io.Database.User.{User}
use crates_io.Database.Token.{ApiToken, is_unexpired}
use crates_io.Auth.{Parts, Conn, Authentication, cookie, token, check, default, only_cookie}
use crates_io.Auth
use crates_io.Tokens.{Service, State, belongs_to}

-- `GetParams::expired_days_interval`, in microseconds.
abbrev pub expired_days_interval : Option ℤ → ℕ
expired_days_interval none = 0
expired_days_interval (some (negsuc n)) = 0
expired_days_interval (some (pos days)) = days * 86400000000

abbrev pub is_listed : ℕ → ℕ → User → ApiToken → Bool
is_listed now interval u row =
    belongs_to u row
    && not row.revoked
    && is_unexpired now (elim row.expired_at [ none ↦ none | some t ↦ some (t + interval) ])

abbrev pub listed : ℕ → ℕ → Conn → AppResult Authentication → AppResult (List ApiToken)
listed now interval conn (err e) = err e
listed now interval conn (ok auth) =
    ok (keep (is_listed now interval (Auth.user auth)) conn.api_tokens)

-- `list_api_tokens`
unfoldable pub list_api_tokens :
    Service → ℕ → Option ℤ → Parts → State → AppResult (List ApiToken) × State
unfolding check
list_api_tokens service now expired_days parts s =
    let (auth, conn) = check service.sha256 service.allowed_origins now only_cookie parts s.conn in
    (listed now (expired_days_interval expired_days) conn auth, record s { conn = conn })

unfoldable pub find_own : List ApiToken → User → ℕ → AppResult ApiToken
find_own [] u id = err not_found
find_own (row ∷ rows) u id = if belongs_to u row && row.id == id then ok row else find_own rows u id

-- `find_api_token`
unfoldable pub find_api_token : Service → ℕ → ℕ → Parts → State → AppResult ApiToken × State
unfolding check find_own
find_api_token service now id parts s =
    let (auth, conn) = check service.sha256 service.allowed_origins now default parts s.conn in
    (auth >>= λ a. find_own conn.api_tokens (Auth.user a) id, record s { conn = conn })

abbrev pub revoke_if : (ApiToken → Bool) → ApiToken → ApiToken
revoke_if p row = if p row then record row { revoked = true } else row

abbrev pub revoke_rows : (ApiToken → Bool) → State → State
revoke_rows p s = record s {
  conn = record s.conn { api_tokens = map (revoke_if p) s.conn.api_tokens };
}

abbrev pub revoke_own : ℕ → AppResult Authentication → State → AppResult (Unit {0}) × State
revoke_own id (err e) s = (err e, s)
revoke_own id (ok auth) s =
    (ok tt, revoke_rows (λ row. belongs_to (Auth.user auth) row && row.id == id) s)

-- `revoke_api_token`
unfoldable pub revoke_api_token : Service → ℕ → ℕ → Parts → State → AppResult (Unit {0}) × State
unfolding check
revoke_api_token service now id parts s =
    let (auth, conn) = check service.sha256 service.allowed_origins now default parts s.conn in
    revoke_own id auth (record s { conn = conn })

abbrev pub revoke_current : AppResult Authentication → State → AppResult (Unit {0}) × State
revoke_current (err e) s = (err e, s)
revoke_current (ok (cookie u)) s = (err (bad_request "token not provided" []), s)
revoke_current (ok (token t u)) s = (ok tt, revoke_rows (λ row. row.id == t.id) s)

-- `revoke_current_api_token`
unfoldable pub revoke_current_api_token : Service → ℕ → Parts → State → AppResult (Unit {0}) × State
unfolding check
revoke_current_api_token service now parts s =
    let (auth, conn) = check service.sha256 service.allowed_origins now default parts s.conn in
    revoke_current auth (record s { conn = conn })
