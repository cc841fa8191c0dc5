-- ===== src/Tokens.antt =====
-- src/controllers/token.rs and the insertion of crates/crates_io_database/src/models/token.rs: an API token
-- is created; Manage has the requests on those that there are. The digest, the origins and the message that disables
-- the creation of tokens are parameters, and so are the random characters of a new token. The
-- unique index on the digests makes an insertion fail. Of an e-mail only the recipient and the
-- token's name are kept; that sending it may fail changes nothing else. Times are microseconds.
pub mod Manage
pub mod Alert
pub mod Create
pub mod Unique
pub mod Revocation
pub mod Scopes
pub mod Serves
pub mod Rows
pub mod Revoked
pub mod Steps
pub mod Refused
pub mod Own
mod Tests
use crates_io.Prelude.{
  ℕ, suc, ◌+◌, ◌*◌, Text, Option, none, some, List, [], ◌∷◌, ◌++◌, map, keep, any, Bool, true,
  false, not, ◌&&◌, ◌==◌, ltb, leb, if◌then◌else◌, is_empty, length, codes, text_eq, Result, ok,
  err, map_err, String, ◌>>=◌, ◌>>◌, ℤ, pos, negsuc,
}
use crates_io.Errors.{AppResult, custom, bad_request, internal, not_found}
use crates_io.Database.User.{User}
use crates_io.Database.Owners.{Email}
use crates_io.Database.Token.{
  ApiToken, CrateScope, EndpointScope, try_from, try_from_bytes, is_unexpired,
}
use crates_io.Auth.{Parts, Conn, Authentication, cookie, token, check, default, only_cookie}
use crates_io.Auth

pub record Service : Type 0 where
  pub sha256 : Text → Text
  pub allowed_origins : List Text
  pub disable_token_creation : Option Text

-- An e-mail: its template, the recipient and the token's name.
pub data Mail : Type 0 where
  new_token token_exposed : Text → Text → Mail

pub record State : Type 0 where
  pub conn : Conn
  pub emails : List Email
  -- The sequence of the ids of `api_tokens`.
  pub next_token_id : ℕ
  -- The e-mails about tokens, newest first.
  pub sent : List Mail

-- The body of a request for a new token.
pub record NewApiToken : Type 0 where
  pub name : Text
  pub crate_scopes : Option (List Text)
  pub endpoint_scopes : Option (List Text)
  pub expired_at : Option ℕ

-- `collect` into a `Result`: the first error ends it.
unfoldable pub collect :
    {A : Type 0} → (Text → Result A String) → List Text → Result (List A) String
collect f [] = ok []
collect f (x ∷ xs) = do y ← f x; ys ← collect f xs; ok (y ∷ ys)

abbrev pub scopes_of :
    {A : Type 0}
    → String
    → (Text → Result A String)
    → Option (List Text)
    → AppResult (Option (List A))
scopes_of message f none = ok none
scopes_of message f (some texts) =
    map_err (λ e. bad_request message []) (collect f texts) >>= λ scopes. ok (some scopes)

-- `User::email`
unfoldable pub email : List Email → ℕ → Option Text
email [] user_id = none
email (e ∷ emails) user_id = if e.user_id == user_id then some e.email else email emails user_id

abbrev pub belongs_to : User → ApiToken → Bool
belongs_to u row = row.user_id == u.id

abbrev pub ensure_session : Authentication → AppResult User
ensure_session (cookie u) = ok u
ensure_session (token t u) =
    err (bad_request "cannot use an API token to create a new API token" [])

abbrev pub ensure_enabled : Option Text → AppResult (Unit {0})
ensure_enabled none = ok tt
ensure_enabled (some message) = err (custom 503 "{message}" (message ∷ []))

abbrev pub max_token_per_user : ℕ
max_token_per_user = 500

abbrev pub ensure_few : List ApiToken → User → AppResult (Unit {0})
ensure_few rows u =
    if leb max_token_per_user (length (keep (belongs_to u) rows))
    then err (bad_request "maximum tokens per user is: 500" [])
    else ok tt

-- What the new token is for: its user and its scopes.
pub record Grant : Type 0 where
  pub user : User
  pub crate_scopes : Option (List CrateScope)
  pub endpoint_scopes : Option (List EndpointScope)

-- The tests of `create_api_token` behind the authentication.
unfoldable pub grant : Service → NewApiToken → List ApiToken → Authentication → AppResult Grant
unfolding collect
grant service new rows auth = do
  u ← ensure_session auth
  ensure_enabled service.disable_token_creation
  ensure_few rows u
  crates ← scopes_of "invalid crate scope" try_from new.crate_scopes
  endpoints ← scopes_of "invalid endpoint scope" try_from_bytes new.endpoint_scopes
  ok (record { user = u; crate_scopes = crates; endpoint_scopes = endpoints })

-- `PlainToken::generate`, from its random characters.
abbrev pub generate : Text → Text
generate secret = codes "cio" ++ secret

-- The row that `NewApiToken::insert` writes.
abbrev pub new_row : Service → Text → NewApiToken → Grant → ℕ → ApiToken
new_row service plaintext new g id = record {
  id = id;
  user_id = g.user.id;
  name = new.name;
  token = service.sha256 plaintext;
  revoked = false;
  crate_scopes = g.crate_scopes;
  endpoint_scopes = g.endpoint_scopes;
  last_used_at = none;
  expired_at = new.expired_at;
}

-- `NewApiToken::insert`, under the unique index on `token`.
unfoldable pub insert : ApiToken → Text → State → AppResult (ApiToken × Text) × State
insert row plaintext s =
    if any (λ r. text_eq r.token row.token) s.conn.api_tokens
    then (
      err (internal "duplicate key value violates unique constraint" []),
      record s { next_token_id = suc s.next_token_id },
    )
    else (
      ok (row, plaintext),
      record s {
        conn = record s.conn { api_tokens = row ∷ s.conn.api_tokens };
        next_token_id = suc s.next_token_id;
      },
    )

abbrev pub send_creation_email : Option Text → Text → State → State
send_creation_email none name s = s
send_creation_email (some recipient) name s = record s { sent = new_token recipient name ∷ s.sent }

abbrev pub create_granted :
    Service → Text → NewApiToken → AppResult Grant → State → AppResult (ApiToken × Text) × State
create_granted service plaintext new (err e) s = (err e, s)
create_granted service plaintext new (ok g) s =
    insert (new_row service plaintext new g s.next_token_id) plaintext
      (send_creation_email (email s.emails g.user.id) new.name s)

-- `create_api_token`
unfoldable pub create_api_token :
    Service → ℕ → Text → NewApiToken → Parts → State → AppResult (ApiToken × Text) × State
unfolding check grant insert email
create_api_token service now secret new parts s =
    let (auth, conn) = check service.sha256 service.allowed_origins now default parts s.conn in
    if is_empty new.name
    then (err (bad_request "name must have a value" []), s)
    else create_granted service (generate secret) new (auth >>= grant service new conn.api_tokens)
        (record s { conn = conn })
