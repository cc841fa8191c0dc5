-- ===== src/Tokens/Revoked.antt =====
-- A revoked token stays revoked.
use crates_io.Prelude.{
  ℕ, ◌≡◌, refl, sym, ◌∙◌, subst, ◌⊎◌, inl, inr, Text, Option, none, some, List, map, any, any-false,
  Bool, true, false, Bool-cases, All, All-map, Any, Any-map, Any-over, All-unmap, there, text_eq,
  text_eq_iff, Result, ok, err, arith, ◌==◌,
}
use crates_io.Errors.{AppResult}
use crates_io.Database.User.{User}
use crates_io.Database.Token.{ApiToken}
use crates_io.Database.Token.Lookup.{erase}
use crates_io.Auth.{Parts, Conn, AuthCheck, Authentication, cookie, token, check}
use crates_io.Auth.Writes.{check-writes}
use crates_io.Tokens.{
  Service, State, NewApiToken, Grant, new_row, insert, email, send_creation_email, create_granted,
}
use crates_io.Tokens.Manage.{revoke_if, revoke_rows, revoke_own, revoke_current}
use crates_io.Tokens.Alert.{
  Tokens, by_digest, exposed, send_notification_email, notify, revoke_active, revoke_found,
  delete_trustpub, revoke_parsed,
}
use crates_io.Trustpub.AccessToken.{AccessToken, AccessTokenError}

-- There is a row with the digest, and every such row is revoked.
abbrev pub IsRevoked : Text → List ApiToken → Type 0
IsRevoked digest rows =
    Any (λ r. r.token ≡ digest) rows × All (λ r. r.token ≡ digest → r.revoked ≡ true) rows

IsRevoked-erase :
    (d : Text) (rows : List ApiToken) → IsRevoked d (map erase rows) → IsRevoked d rows
IsRevoked-erase d rows (found, all) = (
  Any-map erase (λ r e. e) rows found,
  All-unmap (λ r. r.token ≡ d → r.revoked ≡ true) erase (λ r h. h) rows all,
)

-- Rows that differ in the times of last use only.
pub IsRevoked-same :
    (d : Text) (rows rows' : List ApiToken)
    → map erase rows' ≡ map erase rows
    → IsRevoked d rows
    → IsRevoked d rows'
IsRevoked-same d rows rows' e (found, all) = IsRevoked-erase d rows' (
    subst (IsRevoked d) (sym e) (
      Any-over erase (λ r h. h) rows found,
      All-map (λ r. r.token ≡ d → r.revoked ≡ true) erase (λ r h. h) rows all,
    ))

pub revoke_if-token : (p : ApiToken → Bool) (r : ApiToken) → (revoke_if p r).token ≡ r.token
revoke_if-token p r = ground arith

revoke_if-revoked :
    (p : ApiToken → Bool) (r : ApiToken) → r.revoked ≡ true → (revoke_if p r).revoked ≡ true
revoke_if-revoked p r h = ground arith

IsRevoked-map :
    (d : Text) (p : ApiToken → Bool) (rows : List ApiToken)
    → IsRevoked d rows
    → IsRevoked d (map (revoke_if p) rows)
IsRevoked-map d p rows (found, all) = (
  Any-over (revoke_if p) (λ r h. revoke_if-token p r ∙ h) rows found,
  All-map (λ r. r.token ≡ d → r.revoked ≡ true) (revoke_if p)
      (λ r h e. revoke_if-revoked p r (h (sym (revoke_if-token p r) ∙ e))) rows all,
)

abbrev pub Stays : Text → State → State → Type 0
Stays d s s' = IsRevoked d s.conn.api_tokens → IsRevoked d s'.conn.api_tokens

insert-Stays :
    (d : Text) (row : ApiToken) (plaintext : Text) (s : State)
    → Stays d s (insert row plaintext s).1
unfolding insert
insert-Stays d row plaintext s h =
    elim (Bool-cases (any (λ r. text_eq r.token row.token) s.conn.api_tokens)) [
      | inl e ↦ rw e h
      | inr e ↦ rw e (
        there h.0,
        (
          λ same. absurd (
              any-false {P = λ r. r.token ≡ d} (λ r. text_eq r.token row.token) s.conn.api_tokens
                (λ a q. (text_eq_iff a.token row.token).1 (q ∙ sym same)) e h.0),
          h.1,
        ),
      )
    ]

pub create_granted-Stays :
    (d : Text) (service : Service) (plaintext : Text) (new : NewApiToken) (g : AppResult Grant)
    (s : State)
    → Stays d s (create_granted service plaintext new g s).1
create_granted-Stays d service plaintext new (err e) s h = h
create_granted-Stays d service plaintext new (ok g) s h =
    insert-Stays d (new_row service plaintext new g s.next_token_id) plaintext
      (send_creation_email (email s.emails g.user.id) new.name s) (sent (email s.emails g.user.id))
  where
    sent : (to : Option Text) → IsRevoked d (send_creation_email to new.name s).conn.api_tokens
    sent none = h
    sent (some recipient) = h

pub revoke_own-Stays :
    (d : Text) (id : ℕ) (auth : AppResult Authentication) (s : State)
    → Stays d s (revoke_own id auth s).1
revoke_own-Stays d id (err e) s h = h
revoke_own-Stays d id (ok auth) s h = IsRevoked-map d _ s.conn.api_tokens h

pub revoke_current-Stays :
    (d : Text) (auth : AppResult Authentication) (s : State) → Stays d s (revoke_current auth s).1
revoke_current-Stays d (err e) s h = h
revoke_current-Stays d (ok (cookie u)) s h = h
revoke_current-Stays d (ok (token t u)) s h = IsRevoked-map d _ s.conn.api_tokens h

notify-conn : (o : Option User) (name : Text) (s : State) → (notify o name s).conn ≡ s.conn
notify-conn none name s = refl
notify-conn (some u) name s = sent (email s.emails u.id)
  where
    sent : (to : Option Text) → (exposed to name s).conn ≡ s.conn
    sent none = refl
    sent (some recipient) = refl

pub revoke_active-rows :
    (b : Bool) (t : ApiToken) (s : State)
    → (b ≡ true) × ((revoke_active b t s).conn ≡ s.conn)
      ⊎ ((revoke_active b t s).conn ≡ (revoke_rows (λ row. row.id == t.id) s).conn)
unfolding send_notification_email
revoke_active-rows true t s = inl (refl, refl)
revoke_active-rows false t s = inr (notify-conn _ t.name (revoke_rows (λ row. row.id == t.id) s))

revoke_found-Stays :
    (d : Text) (found : Option ApiToken) (s : State) → Stays d s (revoke_found found s).1
revoke_found-Stays d none s h = h
revoke_found-Stays d (some t) s h = elim (revoke_active-rows t.revoked t s) [
  | inl e ↦ subst (λ (c : Conn). IsRevoked d c.api_tokens) (sym e.1) h
  | inr e ↦
      subst (λ (c : Conn). IsRevoked d c.api_tokens) (sym e)
        (IsRevoked-map d (λ row. row.id == t.id) s.conn.api_tokens h)
]

delete_trustpub-api : (digest : Text) (s : Tokens) → (delete_trustpub digest s).1.api ≡ s.api
delete_trustpub-api digest s = ground arith

pub revoke_parsed-Stays :
    (d : Text) (service : Service) (alerted : Text)
    (p : Option (Result AccessToken AccessTokenError)) (s : Tokens)
    → Stays d s.api (revoke_parsed service alerted p s).1.api
revoke_parsed-Stays d service alerted none s h = h
revoke_parsed-Stays d service alerted (some (ok t)) s h =
    subst (λ (a : State). IsRevoked d a.conn.api_tokens)
      (sym (delete_trustpub-api (service.sha256 t.raw) s)) h
revoke_parsed-Stays d service alerted (some (err e)) s h =
    revoke_found-Stays d (by_digest (service.sha256 alerted) s.api.conn.api_tokens) s.api h

-- What a check writes.
pub check-Stays :
    (d : Text) (service : Service) (now : ℕ) (c : AuthCheck) (parts : Parts) (conn : Conn)
    → IsRevoked d conn.api_tokens
    → IsRevoked d (check service.sha256 service.allowed_origins now c parts conn).1.api_tokens
check-Stays d service now c parts conn h =
    IsRevoked-same d conn.api_tokens _
      (check-writes service.sha256 service.allowed_origins now c parts conn).1 h
