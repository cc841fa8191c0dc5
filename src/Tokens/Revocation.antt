-- ===== src/Tokens/Revocation.antt =====
-- src/controllers/token.rs and src/controllers/github/secret_scanning.rs: the three ways in which a token is
-- revoked.
use crates_io.Prelude.{
  ℕ, ◌≡◌, refl, sym, ◌∙◌, ap, subst, inl, inr, Text, Option, none, some, List, [], ◌∷◌, map,
  Bool-cases, All-imp, Any, Any-imp, here, there, text_eq, text_eq_iff, Result, ok, err, arith,
  ◌==◌, >>=-eq-ok, ==_iff, &&_iff, ◌&&◌, ok-eq,
}
use crates_io.Errors.{AppResult}
use crates_io.Database.User.{User}
use crates_io.Database.Token.{ApiToken}
use crates_io.Database.Token.Lookup.{erase}
use crates_io.Auth.{
  Parts, Conn, AuthCheck, Authentication, cookie, token, default, check, authenticate,
  authenticate_via_cookie, authenticate_via_token, optional_from_request_parts,
}
use crates_io.Auth
use crates_io.Auth.Genuine.{Genuine, by_token}
use crates_io.Auth.Sessions.{check-Genuine}
use crates_io.Auth.Writes.{check-writes}
use crates_io.Tokens.{Service, State, belongs_to}
use crates_io.Tokens.Manage.{
  find_own, find_api_token, revoke_if, revoke_api_token, revoke_current, revoke_current_api_token,
}
use crates_io.Tokens.Alert.{
  Tokens, true_positive, by_digest, revoke_found, revoke_parsed, alert_revoke_token,
}
use crates_io.Tokens.Revoked.{IsRevoked, revoke_active-rows}
use crates_io.Trustpub.AccessToken.{AccessTokenError, AccessToken, from_str}
use crates_io.Tokens.Unique.{
  IsUnique, Listed, only_row, IsUnique-same, Listed-same, IsRevoked-IsRevoked, same_id,
}

revoke_current-ok :
    (r : AppResult Authentication) (s : State)
    → (revoke_current r s).0 ≡ ok tt
    → (t : ApiToken) × (u : User) × (r ≡ ok (token t u))
revoke_current-ok (err e) s h = cc
revoke_current-ok (ok (cookie u)) s h = cc
revoke_current-ok (ok (token t u)) s h = (t, u, refl)

token-Listed :
    (sha256 : Text → Text) (now : ℕ) (parts : Parts) (conn : Conn) (t : ApiToken) (u : User)
    (plaintext : Text)
    → Genuine sha256 now parts conn (token t u)
    → optional_from_request_parts parts.authorization ≡ ok (some plaintext)
    → (t.token ≡ sha256 plaintext) × Listed t conn.api_tokens
token-Listed sha256 now parts conn t u plaintext
      (by_token p header marked usable listed row unlocked) e =
    let same : p ≡ plaintext = cc (header, e) in (usable.digest ∙ ap sha256 same, listed)

find_own_sound :
    (rows : List ApiToken) (u : User) (id : ℕ) (t : ApiToken)
    → find_own rows u id ≡ ok t
    → (t.user_id ≡ u.id) × (t.id ≡ id) × Listed t rows
unfolding find_own
find_own_sound [] u id t h = cc
find_own_sound (row ∷ rows) u id t h = elim (Bool-cases (belongs_to u row && row.id == id)) [
  | inl e ↦
      let same : row ≡ t = ground (arith, h, e) in
      let (mine, at) = (&&_iff (belongs_to u row) (row.id == id)).0 e in
      (
        ap (λ (y : ApiToken). y.user_id) (sym same) ∙ (==_iff row.user_id u.id).0 mine,
        ap (λ (y : ApiToken). y.id) (sym same) ∙ (==_iff row.id id).0 at,
        here (ap erase same),
      )
  | inr e ↦
      let (mine, at, listed) = find_own_sound rows u id t (ground (arith, h, e)) in
      (mine, at, there listed)
]

by_digest_sound :
    (digest : Text) (rows : List ApiToken) (t : ApiToken)
    → by_digest digest rows ≡ some t
    → (t.token ≡ digest) × Any (λ r. r ≡ t) rows
unfolding by_digest
by_digest_sound digest [] t h = cc
by_digest_sound digest (row ∷ rows) t h = elim (Bool-cases (text_eq row.token digest)) [
  | inl e ↦
      let same : row ≡ t = ground (arith, h, e) in
      (ap (λ (y : ApiToken). y.token) (sym same) ∙ (text_eq_iff row.token digest).0 e, here same)
  | inr e ↦
      let (at, listed) = by_digest_sound digest rows t (ground (arith, h, e)) in (at, there listed)
]

module _ (service : Service) (now : ℕ) (plaintext : Text) (s : Tokens)
    (unique : IsUnique s.api.conn.api_tokens) where
  abbrev Revoked : State → Type 0
  Revoked api = IsRevoked (service.sha256 plaintext) api.conn.api_tokens

  itself-Revoked :
      (parts : Parts)
      → optional_from_request_parts parts.authorization ≡ ok (some plaintext)
      → (revoke_current_api_token service now parts s.api).0 ≡ ok tt
      → Revoked (revoke_current_api_token service now parts s.api).1
  unfolding revoke_current_api_token
  itself-Revoked parts header h =
      let checked = check service.sha256 service.allowed_origins now default parts s.api.conn in
      let same =
        (check-writes service.sha256 service.allowed_origins now default parts s.api.conn).1 in
      let (t, u, e) = revoke_current-ok checked.0 (record s.api { conn = checked.1 }) h in
      let (_, genuine, _) =
        check-Genuine service.sha256 service.allowed_origins now default parts s.api.conn
          (token t u) e in
      let (digest, listed) =
        token-Listed service.sha256 now parts s.api.conn t u plaintext genuine header in
      rw e (
        subst (λ d. IsRevoked d (map (revoke_if (λ row. row.id == t.id)) checked.1.api_tokens))
          digest
          (IsRevoked-IsRevoked (λ row. row.id == t.id) t checked.1.api_tokens
            (IsUnique-same s.api.conn.api_tokens checked.1.api_tokens same unique)
            (Listed-same t s.api.conn.api_tokens checked.1.api_tokens same listed) (same_id t)))

  user-Revoked :
      (id : ℕ) (parts : Parts) (t : ApiToken)
      → (find_api_token service now id parts s.api).0 ≡ ok t
      → t.token ≡ service.sha256 plaintext
      → Revoked (revoke_api_token service now id parts s.api).1
  unfolding revoke_api_token find_api_token
  user-Revoked id parts t h digest =
      let checked = check service.sha256 service.allowed_origins now default parts s.api.conn in
      let same =
        (check-writes service.sha256 service.allowed_origins now default parts s.api.conn).1 in
      let (a, e, found) =
        >>=-eq-ok checked.0 (λ a. find_own checked.1.api_tokens (Auth.user a) id) h in
      let (mine, at, listed) = find_own_sound checked.1.api_tokens (Auth.user a) id t found in
      rw e (
        subst
          (λ d. IsRevoked d (
            map (revoke_if (λ row. belongs_to (Auth.user a) row && row.id == id))
              checked.1.api_tokens))
          digest
          (IsRevoked-IsRevoked (λ row. belongs_to (Auth.user a) row && row.id == id) t
            checked.1.api_tokens
            (IsUnique-same s.api.conn.api_tokens checked.1.api_tokens same unique) listed
            (λ r q. (&&_iff (belongs_to (Auth.user a) r) (r.id == id)).1 (
              (==_iff r.user_id (Auth.user a).id).1 (ap (λ (y : ApiToken). y.user_id) q ∙ mine),
              (==_iff r.id id).1 (ap (λ (y : ApiToken). y.id) q ∙ at),
            ))))

  found-Revoked :
      (o : Option ApiToken)
      → by_digest (service.sha256 plaintext) s.api.conn.api_tokens ≡ o
      → (revoke_found o s.api).0 ≡ true_positive
      → Revoked (revoke_found o s.api).1
  found-Revoked none e h = cc
  found-Revoked (some t) e h =
      let (digest, listed) = by_digest_sound (service.sha256 plaintext) s.api.conn.api_tokens t e in
      let erased : Listed t s.api.conn.api_tokens = Any-imp (λ r q. ap erase q) listed in
      elim (revoke_active-rows t.revoked t s.api) [
        | inl (already, q) ↦
            subst (λ (c : Conn). IsRevoked (service.sha256 plaintext) c.api_tokens) (sym q)
              (
                Any-imp (λ r x. ap (λ (y : ApiToken). y.token) x ∙ digest) listed,
                All-imp
                    (λ r only d. ap (λ (y : ApiToken). y.revoked) (only (d ∙ sym digest)) ∙ already)
                    s.api.conn.api_tokens (only_row t s.api.conn.api_tokens unique erased),
              )
        | inr q ↦
            subst (λ (c : Conn). IsRevoked (service.sha256 plaintext) c.api_tokens) (sym q)
              (subst
                (λ d. IsRevoked d (map (revoke_if (λ row. row.id == t.id)) s.api.conn.api_tokens))
                digest
                (IsRevoked-IsRevoked (λ row. row.id == t.id) t s.api.conn.api_tokens unique erased
                  (same_id t)))
      ]

  report-Revoked :
      (p : Option (Result AccessToken AccessTokenError)) (e : AccessTokenError)
      → p ≡ some (err e)
      → (revoke_parsed service plaintext p s).0 ≡ ok true_positive
      → Revoked (revoke_parsed service plaintext p s).1.api
  report-Revoked none e q h = cc
  report-Revoked (some (ok t)) e q h = cc
  report-Revoked (some (err x)) e q h =
      found-Revoked (by_digest (service.sha256 plaintext) s.api.conn.api_tokens) refl (ok-eq _ _ h)

-- A token is revoked: by a request that presents it, by its user, or by a report of GitHub.
pub data Revokes (service : Service) (now : ℕ) (plaintext : Text) (s : Tokens)
    : Tokens → Type 0 where
  by_itself :
      {s' : Tokens} (parts : Parts)
      → optional_from_request_parts parts.authorization ≡ ok (some plaintext)
      → (revoke_current_api_token service now parts s.api).0 ≡ ok tt
      → record s { api = (revoke_current_api_token service now parts s.api).1 } ≡ s'
      → Revokes service now plaintext s s'
  by_user :
      {s' : Tokens} (id : ℕ) (parts : Parts) (t : ApiToken)
      → (find_api_token service now id parts s.api).0 ≡ ok t
      → t.token ≡ service.sha256 plaintext
      → record s { api = (revoke_api_token service now id parts s.api).1 } ≡ s'
      → Revokes service now plaintext s s'
  by_report :
      {s' : Tokens} (e : AccessTokenError)
      → from_str plaintext ≡ some (err e)
      → (alert_revoke_token service plaintext s).0 ≡ ok true_positive
      → (alert_revoke_token service plaintext s).1 ≡ s'
      → Revokes service now plaintext s s'

pub Revokes-IsRevoked :
    (service : Service) (now : ℕ) (plaintext : Text) (s s' : Tokens)
    → IsUnique s.api.conn.api_tokens
    → Revokes service now plaintext s s'
    → IsRevoked (service.sha256 plaintext) s'.api.conn.api_tokens
unfolding alert_revoke_token
Revokes-IsRevoked service now plaintext s s' unique (by_itself parts header done e) =
    subst (λ (x : Tokens). IsRevoked (service.sha256 plaintext) x.api.conn.api_tokens) e
      (itself-Revoked service now plaintext s unique parts header done)
Revokes-IsRevoked service now plaintext s s' unique (by_user id parts t found digest e) =
    subst (λ (x : Tokens). IsRevoked (service.sha256 plaintext) x.api.conn.api_tokens) e
      (user-Revoked service now plaintext s unique id parts t found digest)
Revokes-IsRevoked service now plaintext s s' unique (by_report x kind done e) =
    subst (λ (x : Tokens). IsRevoked (service.sha256 plaintext) x.api.conn.api_tokens) e
      (report-Revoked service now plaintext s unique (from_str plaintext) x kind done)
