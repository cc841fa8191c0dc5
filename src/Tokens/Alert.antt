-- ===== src/Tokens/Alert.antt =====
-- src/controllers/github/secret_scanning.rs: GitHub reports tokens that it found in public code. The signature of
-- the report is not modelled, nor are the e-mails about tokens of Trusted Publishing.
use crates_io.Prelude.{
  Text, Option, none, some, List, [], ◌∷◌, keep, any, Bool, true, false, not, ◌==◌, if◌then◌else◌,
  text_eq, Result, ok, err,
}
use crates_io.Errors.{AppResult, internal}
use crates_io.Database.User.{User, find}
use crates_io.Database.Token.{ApiToken}
use crates_io.Trustpub.AccessToken.{AccessToken, AccessTokenError, from_str}
use crates_io.Publish.Tables.{TrustpubToken}
use crates_io.Tokens.{Service, State, token_exposed, email}
use crates_io.Tokens.Manage.{revoke_rows}

pub data Label : Type 0 where
  true_positive false_positive : Label

-- The tokens of both kinds.
pub record Tokens : Type 0 where
  pub api : State
  pub trustpub_tokens : List TrustpubToken

-- The row with a digest, which is unique.
unfoldable pub by_digest : Text → List ApiToken → Option ApiToken
by_digest digest [] = none
by_digest digest (row ∷ rows) = if text_eq row.token digest then some row else by_digest digest rows

abbrev pub exposed : Option Text → Text → State → State
exposed none name s = s
exposed (some recipient) name s = record s { sent = token_exposed recipient name ∷ s.sent }

abbrev pub notify : Option User → Text → State → State
notify none name s = s
notify (some u) name s = exposed (email s.emails u.id) name s

-- `send_notification_email`
unfoldable pub send_notification_email : ApiToken → State → State
unfolding email find
send_notification_email t s = notify (find s.conn.users t.user_id) t.name s

abbrev pub revoke_active : Bool → ApiToken → State → State
revoke_active true t s = s
revoke_active false t s = send_notification_email t (revoke_rows (λ row. row.id == t.id) s)

abbrev pub revoke_found : Option ApiToken → State → Label × State
revoke_found none s = (false_positive, s)
revoke_found (some t) s = (true_positive, revoke_active t.revoked t s)

abbrev pub is_digest : Text → TrustpubToken → Bool
is_digest digest row = text_eq row.hashed_token digest

abbrev pub delete_trustpub : Text → Tokens → Label × Tokens
delete_trustpub digest s =
    if any (is_digest digest) s.trustpub_tokens
    then (
      true_positive,
      record s { trustpub_tokens = keep (λ row. not (is_digest digest row)) s.trustpub_tokens },
    )
    else (false_positive, s)

abbrev pub with_api : Tokens → Label × State → Label × Tokens
with_api s (label, api) = (label, record s { api = api })

abbrev pub revoke_parsed :
    Service
    → Text
    → Option (Result AccessToken AccessTokenError)
    → Tokens
    → AppResult Label × Tokens
revoke_parsed service alerted none s = (err (internal "panic" []), s)
revoke_parsed service alerted (some (ok t)) s =
    let (label, s') = delete_trustpub (service.sha256 t.raw) s in (ok label, s')
revoke_parsed service alerted (some (err e)) s =
    let (label, s') =
      with_api s (revoke_found (by_digest (service.sha256 alerted) s.api.conn.api_tokens) s.api) in
    (ok label, s')

-- `alert_revoke_token`
unfoldable pub alert_revoke_token : Service → Text → Tokens → AppResult Label × Tokens
unfolding from_str by_digest send_notification_email
alert_revoke_token service alerted s = revoke_parsed service alerted (from_str alerted) s
