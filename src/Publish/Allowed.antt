-- ===== src/Publish/Allowed.antt =====
-- Who may publish a version of a crate that there is.
use crates_io.Prelude.{
  ℕ, ◌<◌, ◌≡◌, refl, sym, ◌∙◌, ap, subst, Text, Option, none, some, List, [], ◌∷◌, any, Bool, true,
  false, not, ◌&&◌, if◌then◌else◌, text_eq, text_eq_iff, Result, ok, err, ok-eq, Any, here, there,
  Any-imp, any_iff, ltb, ltb_iff, >>=-eq-ok, if-eq-ok, starts_with, &&_iff, ==_iff, ◌>>=◌,
}
use crates_io.Errors.{AppResult}
use crates_io.Database.Krate.{Crate}
use crates_io.Auth.{
  Parts, Conn, Authentication, check, for_crate, with_endpoint_scope, default,
  optional_from_request_parts,
}
use crates_io.Trustpub.AccessToken.{AccessToken, AccessTokenError, prefix, from_str, finalize}
use crates_io.Trustpub.RoundTrip.{from_str-ok_iff}
use crates_io.Publish.Tables.{Tables, App, AuthType, regular, trust_pub, Request, TrustpubToken}
use crates_io.Publish.Access.{
  parsed_token, trustpub_token, find_token, is_crate, of_token, via_trustpub, endpoint_scope,
  as_regular, authorize_with, authorize,
}

-- A row of `trustpub_tokens` that serves a token for a crate now.
abbrev pub Serves : Text → ℕ → ℕ → TrustpubToken → Type 0
Serves hashed_token now crate_id row =
    (row.hashed_token ≡ hashed_token)
    × (now < row.expires_at)
    × Any (λ id. id ≡ some crate_id) row.crate_ids

-- The header holds a token of Trusted Publishing that serves the crate.
abbrev pub TokenFor : App → ℕ → Parts → Crate → List TrustpubToken → Type 0
TokenFor app now parts krate tokens =
    (token : AccessToken) × (optional_from_request_parts parts.authorization
      ≡ ok (some (finalize token)))
    × Any (Serves (app.server.sha256 token.raw) now krate.id) tokens

-- The user of the request passes the check of publishing.
abbrev pub CheckedUser : App → ℕ → Parts → Option Crate → Text → Conn → Authentication → Type 0
CheckedUser app now parts existing name conn auth =
    (check app.server.sha256 app.server.allowed_origins now
      (for_crate (with_endpoint_scope default (endpoint_scope existing)) name) parts conn).0
    ≡ ok auth

find_token-Serves :
    (now : ℕ) (h : Text) (rows : List TrustpubToken) (row : TrustpubToken) (id : ℕ)
    → find_token now h rows ≡ some row
    → Any (λ o. o ≡ some id) row.crate_ids
    → Any (Serves h now id) rows
unfolding find_token
find_token-Serves now h [] row id e k = cc
find_token-Serves now h (r ∷ rows) row id e k =
    by_test (text_eq r.hashed_token h && ltb now r.expires_at) refl e
      (λ e'. find_token-Serves now h rows row id e' k)
  where
    by_test :
        (b : Bool)
        → (text_eq r.hashed_token h && ltb now r.expires_at) ≡ b
        → (if b then some r else find_token now h rows) ≡ some row
        → (find_token now h rows ≡ some row → Any (Serves h now id) rows)
        → Any (Serves h now id) (r ∷ rows)
    by_test false t e rest = there (rest e)
    by_test true t e rest =
        let (same, alive) = (&&_iff (text_eq r.hashed_token h) (ltb now r.expires_at)).0 t in
        let is_row : r ≡ row = cc in
        here (
          (text_eq_iff r.hashed_token h).0 same,
          (ltb_iff now r.expires_at).0 alive,
          subst (λ x. Any (λ o. o ≡ some id) x.crate_ids) (sym is_row) k,
        )

is_crate-some : (id : ℕ) (o : Option ℕ) → is_crate id o ≡ true → o ≡ some id
is_crate-some id none h = cc
is_crate-some id (some c) h = ap some ((==_iff c id).0 h)

not-false : (b : Bool) → not b ≡ false → b ≡ true
not-false true h = refl
not-false false h = cc

of_token-ok :
    (krate : Crate) (o : Option TrustpubToken) (auth : AuthType)
    → of_token krate o ≡ ok auth
    → (row : TrustpubToken) × (o ≡ some row)
      × Any (λ c. c ≡ some krate.id) row.crate_ids
      × (auth ≡ trust_pub row.trustpub_data)
of_token-ok krate none auth h = cc
of_token-ok krate (some row) auth h =
    let (listed, done) =
      if-eq-ok (not (any (is_crate krate.id) row.crate_ids)) _ (ok (trust_pub row.trustpub_data))
        auth h in
    (
      row,
      refl,
      Any-imp (is_crate-some krate.id)
          ((any_iff (is_crate krate.id) row.crate_ids).0 (not-false _ listed)),
      sym (ok-eq (trust_pub row.trustpub_data) auth done),
    )

parsed_token-some :
    (r : Option (Result AccessToken AccessTokenError)) (token : AccessToken)
    → parsed_token r ≡ ok (some token)
    → r ≡ some (ok token)
parsed_token-some none token h = cc
parsed_token-some (some (err e)) token h = cc
parsed_token-some (some (ok t)) token h = cc

-- The text of a token of Trusted Publishing is the token's.
trustpub_token-finalize :
    (o : Option Text) (token : AccessToken)
    → trustpub_token o ≡ ok (some token)
    → o ≡ some (finalize token)
unfolding trustpub_token
trustpub_token-finalize none token h = cc
trustpub_token-finalize (some text) token h = by_prefix (starts_with prefix text) h
  where
    by_prefix :
        (b : Bool)
        → (if not b then ok none else parsed_token (from_str text)) ≡ ok (some token)
        → some text ≡ some (finalize token)
    by_prefix false k = cc
    by_prefix true k =
        ap some ((from_str-ok_iff text token.raw).0 (parsed_token-some (from_str text) token k)).1

-- How the authentication of a publish request succeeds.
pub data Authorized (app : App) (now : ℕ) (parts : Parts) (request : Request) (s : Tables)
    : AuthType → Type 0 where
  by_token :
      (krate : Crate) (data_ : Option Text)
      → request.existing_crate ≡ some krate
      → TokenFor app now parts krate s.trustpub_tokens
      → Authorized app now parts request s (trust_pub data_)
  by_user :
      (auth : Authentication)
      → CheckedUser app now parts request.existing_crate request.metadata.name s.registry.rows.conn
          auth
      → Authorized app now parts request s (regular auth)

as_regular-ok :
    (r : AppResult Authentication) (auth : AuthType)
    → as_regular r ≡ ok auth
    → (a : Authentication) × (r ≡ ok a) × (auth ≡ regular a)
as_regular-ok (err e) auth h = cc
as_regular-ok (ok a) auth h = (a, refl, sym (ok-eq (regular a) auth h))

module _ (app : App) (now : ℕ) (parts : Parts) (request : Request) (s : Tables) where
  via_trustpub-Authorized :
      (existing : Option Crate) (token : AccessToken) (auth : AuthType)
      → request.existing_crate ≡ existing
      → optional_from_request_parts parts.authorization ≡ ok (some (finalize token))
      → via_trustpub app now existing token s ≡ ok auth
      → Authorized app now parts request s auth
  via_trustpub-Authorized none token auth e header h = cc
  via_trustpub-Authorized (some krate) token auth e header h =
      let (row, found, listed, is_auth) =
        of_token-ok krate (find_token now (app.server.sha256 token.raw) s.trustpub_tokens) auth h in
      subst (Authorized app now parts request s) (sym is_auth) (
        by_token krate row.trustpub_data e (
          token,
          header,
          find_token-Serves now (app.server.sha256 token.raw) s.trustpub_tokens row krate.id found
              listed,
        ))

  authorize_with-Authorized :
      (r : AppResult (Option AccessToken)) (auth : AuthType)
      → (optional_from_request_parts parts.authorization >>= trustpub_token) ≡ r
      → (authorize_with app now parts request s r).0 ≡ ok auth
      → Authorized app now parts request s auth
  authorize_with-Authorized (err e) auth k h = cc
  authorize_with-Authorized (ok none) auth k h =
      let (a, checked, is_auth) = as_regular-ok _ auth h in
      subst (Authorized app now parts request s) (sym is_auth) (by_user a checked)
  authorize_with-Authorized (ok (some token)) auth k h =
      let (text, header, parsed) =
        >>=-eq-ok (optional_from_request_parts parts.authorization) trustpub_token k in
      via_trustpub-Authorized request.existing_crate token auth refl
        (header ∙ ap ok (trustpub_token-finalize text token parsed)) h

  pub authorize-Authorized :
      (auth : AuthType)
      → (authorize app now parts request s).0 ≡ ok auth
      → Authorized app now parts request s auth
  unfolding authorize
  authorize-Authorized auth h =
      authorize_with-Authorized (optional_from_request_parts parts.authorization >>= trustpub_token)
        auth refl h
