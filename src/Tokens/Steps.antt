-- ===== src/Tokens/Steps.antt =====
-- What happens to the tokens, one request after another.
use crates_io.Prelude.{ℕ, ◌≡◌, subst, inl, inr, Text, Bool-cases, is_empty, ◌>>=◌}
use crates_io.Auth.{Parts, AuthCheck, default, check}
use crates_io.Tokens.{Service, State, NewApiToken, generate, create_api_token, grant}
use crates_io.Tokens.Manage.{revoke_api_token, revoke_current_api_token}
use crates_io.Tokens.Alert.{Tokens, alert_revoke_token}
use crates_io.Trustpub.AccessToken.{from_str}
use crates_io.Tokens.Revoked.{
  IsRevoked, Stays, create_granted-Stays, revoke_own-Stays, revoke_current-Stays,
  revoke_parsed-Stays, check-Stays,
}

-- What happens to the tokens, at a time: a request of any endpoint is checked, or a request on tokens or a report
-- of GitHub is served.
pub data Step (service : Service) (now : ℕ) : Tokens → Tokens → Type 0 where
  checks :
      {s s' : Tokens} (c : AuthCheck) (parts : Parts)
      → record s {
        api = record s.api {
          conn = (check service.sha256 service.allowed_origins now c parts s.api.conn).1;
        };
      }
        ≡ s'
      → Step service now s s'
  creates :
      {s s' : Tokens} (secret : Text) (new : NewApiToken) (parts : Parts)
      → record s { api = (create_api_token service now secret new parts s.api).1 } ≡ s'
      → Step service now s s'
  revokes :
      {s s' : Tokens} (id : ℕ) (parts : Parts)
      → record s { api = (revoke_api_token service now id parts s.api).1 } ≡ s'
      → Step service now s s'
  revokes_current :
      {s s' : Tokens} (parts : Parts)
      → record s { api = (revoke_current_api_token service now parts s.api).1 } ≡ s'
      → Step service now s s'
  alerts :
      {s s' : Tokens} (alerted : Text)
      → (alert_revoke_token service alerted s).1 ≡ s'
      → Step service now s s'

pub data Steps (service : Service) : Tokens → Tokens → Type 0 where
  done : {s : Tokens} → Steps service s s
  next : {s t u : Tokens} (now : ℕ) → Step service now s t → Steps service t u → Steps service s u

create-Stays :
    (d : Text) (service : Service) (now : ℕ) (secret : Text) (new : NewApiToken) (parts : Parts)
    (s : State)
    → Stays d s (create_api_token service now secret new parts s).1
unfolding create_api_token
create-Stays d service now secret new parts s h =
    let checked = check service.sha256 service.allowed_origins now default parts s.conn in
    elim (Bool-cases (is_empty new.name)) [
      | inl e ↦ rw e h
      | inr e ↦ rw e (
          create_granted-Stays d service (generate secret) new
            (checked.0 >>= grant service new checked.1.api_tokens) (record s { conn = checked.1 })
            (check-Stays d service now default parts s.conn h))
    ]

Step-Stays :
    (d : Text) (service : Service) (now : ℕ) (s s' : Tokens)
    → Step service now s s'
    → Stays d s.api s'.api
unfolding revoke_api_token revoke_current_api_token alert_revoke_token
Step-Stays d service now s s' (checks c parts e) h =
    subst (λ (x : Tokens). IsRevoked d x.api.conn.api_tokens) e
      (check-Stays d service now c parts s.api.conn h)
Step-Stays d service now s s' (creates secret new parts e) h =
    subst (λ (x : Tokens). IsRevoked d x.api.conn.api_tokens) e
      (create-Stays d service now secret new parts s.api h)
Step-Stays d service now s s' (revokes id parts e) h =
    let checked = check service.sha256 service.allowed_origins now default parts s.api.conn in
    subst (λ (x : Tokens). IsRevoked d x.api.conn.api_tokens) e
      (revoke_own-Stays d id checked.0 (record s.api { conn = checked.1 })
        (check-Stays d service now default parts s.api.conn h))
Step-Stays d service now s s' (revokes_current parts e) h =
    let checked = check service.sha256 service.allowed_origins now default parts s.api.conn in
    subst (λ (x : Tokens). IsRevoked d x.api.conn.api_tokens) e
      (revoke_current-Stays d checked.0 (record s.api { conn = checked.1 })
        (check-Stays d service now default parts s.api.conn h))
Step-Stays d service now s s' (alerts alerted e) h =
    subst (λ (x : Tokens). IsRevoked d x.api.conn.api_tokens) e
      (revoke_parsed-Stays d service alerted (from_str alerted) s h)

pub Steps-Stays :
    (d : Text) (service : Service) (s s' : Tokens) → Steps service s s' → Stays d s.api s'.api
Steps-Stays d service s s' done h = h
Steps-Stays d service s s' (next {t = m} now first rest) h =
    Steps-Stays d service m s' rest (Step-Stays d service now s m first h)
