-- ===== src/Tokens/Create.antt =====
-- A token that is created serves its user.
use crates_io.Prelude.{
  ℕ, ◌≡◌, refl, sym, ◌∙◌, ap, subst, inl, inr, Text, Option, none, some, List, ◌∷◌, map, true,
  Bool-cases, ok, err, arith, codes, starts_with, >>=-eq-ok, ◌>>=◌, is_empty,
}
use crates_io.Errors.{AppResult}
use crates_io.Database.User.{User, find}
use crates_io.Database.Token.{ApiToken, is_unexpired}
use crates_io.Database.Token.Lookup.{erase}
use crates_io.Auth.{
  Parts, Conn, Authentication, cookie, token, default, check, authenticate,
  optional_from_request_parts,
}
use crates_io.Auth.Genuine.{IsSameOrigin, IsUnlocked}
use crates_io.Auth.Writes.{check-writes}
use crates_io.Tokens.{
  Service, State, NewApiToken, Grant, grant, generate, new_row, email, send_creation_email,
  create_granted, create_api_token,
}
use crates_io.Tokens.Scopes.{Asks, grant_sound, insert_sound}
use crates_io.Tokens.Serves.{marked, serves}

pub send-conn :
    (to : Option Text) (name : Text) (s : State) → (send_creation_email to name s).conn ≡ s.conn
send-conn none name s = refl
send-conn (some recipient) name s = refl

create_granted_sound :
    (service : Service) (plaintext : Text) (new : NewApiToken) (o : AppResult Grant) (s : State)
    (r : ApiToken × Text)
    → (create_granted service plaintext new o s).0 ≡ ok r
    → (g : Grant) × (o ≡ ok g)
      × (r ≡ (new_row service plaintext new g s.next_token_id, plaintext))
      × ((create_granted service plaintext new o s).1.conn ≡ record s.conn {
        api_tokens = new_row service plaintext new g s.next_token_id ∷ s.conn.api_tokens;
      })
create_granted_sound service plaintext new (err e) s r h = cc
create_granted_sound service plaintext new (ok g) s r h =
    let to = email s.emails g.user.id in
    let same = send-conn to new.name s in
    let row = new_row service plaintext new g s.next_token_id in
    let (is_row, after) = insert_sound row plaintext (send_creation_email to new.name s) r h in
    (g, refl, is_row, after ∙ ap (λ (c : Conn). record c { api_tokens = row ∷ c.api_tokens }) same)

-- The new row, as it was asked for.
pub record IsAsked (service : Service) (u : User) (new : NewApiToken) (plaintext : Text)
    (row : ApiToken) : Type 0 where
  pub owner : row.user_id ≡ u.id
  pub name : row.name ≡ new.name
  pub digest : row.token ≡ service.sha256 plaintext
  pub scopes : Asks new row.crate_scopes row.endpoint_scopes
  pub expiry : row.expired_at ≡ new.expired_at

-- What a later request with the token comes to.
abbrev Serves : Service → Text → ApiToken → Conn → Type 0
Serves service plaintext row conn =
    (later : ℕ) (parts : Parts) (v : User)
    → IsSameOrigin service.allowed_origins parts.origins
    → parts.session_user_id ≡ none
    → optional_from_request_parts parts.authorization ≡ ok (some plaintext)
    → is_unexpired later row.expired_at ≡ true
    → find conn.users row.user_id ≡ some v
    → IsUnlocked later v
    → (authenticate service.sha256 service.allowed_origins later parts conn).0
      ≡ ok (token (marked conn.read_only later row) v)

generate-cio : (secret : Text) → starts_with (codes "cio") (generate secret) ≡ true
unfolding starts_with
generate-cio secret = refl

abbrev Granted :
    Service → NewApiToken → AppResult Authentication → Conn → Conn → ApiToken × Text → Type 0
Granted service new auth conn conn' (row, plaintext) =
    (u : User) × (auth ≡ ok (cookie u))
    × IsAsked service u new plaintext row
    × (conn'.api_tokens ≡ row ∷ conn.api_tokens)
    × Serves service plaintext row conn'

Granted-sound :
    (service : Service) (secret : Text) (new : NewApiToken) (auth : AppResult Authentication)
    (s : State) (r : ApiToken × Text)
    → (create_granted service
        (generate secret)
        new
        (auth >>= grant service new s.conn.api_tokens)
        s).0
      ≡ ok r
    → Granted service new auth s.conn
        (create_granted service
          (generate secret)
          new
          (auth >>= grant service new s.conn.api_tokens)
          s).1.conn
        r
Granted-sound service secret new auth s r h =
    let plaintext = generate secret in
    let (g, given, is_row, after) =
      create_granted_sound service plaintext new (auth >>= grant service new s.conn.api_tokens) s r
        h in
    let (a, by, tested) = >>=-eq-ok auth (grant service new s.conn.api_tokens) given in
    let (session, asks) = grant_sound service new s.conn.api_tokens a g tested in
    let row = new_row service plaintext new g s.next_token_id in
    subst (Granted service new auth s.conn _) (sym is_row) (
      g.user,
      by ∙ ap ok session,
      record { owner = refl; name = refl; digest = refl; scopes = asks; expiry = refl },
      ap (λ (c : Conn). c.api_tokens) after,
      subst (Serves service plaintext row) (sym after)
          (λ later parts v origin no_session header fresh user unlocked.
            serves service later plaintext row s.conn.api_tokens parts _ v refl refl
              (generate-cio secret) refl origin no_session header fresh user unlocked),
    )

-- A request for a new token that succeeds comes from a user by their session, never by a token. The row that is
-- added in front of the tokens is of that user and has the name, the scopes and the time of expiry that were asked
-- for. A later request that presents the text that was returned, from an allowed origin, without a session and
-- before the expiry, is authenticated as the row's user with that token, if the user is there and not locked.
pub create_api_token-Serves :
    (service : Service) (now : ℕ) (secret : Text) (new : NewApiToken) (parts : Parts) (s : State)
    (row : ApiToken) (plaintext : Text)
    → (create_api_token service now secret new parts s).0 ≡ ok (row, plaintext)
    → (later : ℕ) (parts' : Parts) (v : User) → IsSameOrigin service.allowed_origins parts'.origins
    → parts'.session_user_id ≡ none
    → optional_from_request_parts parts'.authorization ≡ ok (some plaintext)
    → is_unexpired later row.expired_at ≡ true
    → find (create_api_token service now secret new parts s).1.conn.users row.user_id ≡ some v
    → IsUnlocked later v
    → (u : User) × ((check service.sha256 service.allowed_origins now default parts s.conn).0
        ≡ ok (cookie u))
      × IsAsked service u new plaintext row
      × (map erase (create_api_token service now secret new parts s).1.conn.api_tokens
          ≡ erase row ∷ map erase s.conn.api_tokens)
      × ((authenticate service.sha256 service.allowed_origins later parts'
            (create_api_token service now secret new parts s).1.conn).0
          ≡ ok (
              token
                (marked
                  (create_api_token service now secret new parts s).1.conn.read_only
                  later
                  row)
                v))
unfolding create_api_token
create_api_token-Serves service now secret new parts s row plaintext h later parts' v origin
      no_session header fresh user unlocked =
    let checked = check service.sha256 service.allowed_origins now default parts s.conn in
    let same = (check-writes service.sha256 service.allowed_origins now default parts s.conn).1 in
    elim (Bool-cases (is_empty new.name)) [
      | inl e ↦ absurd (ground (arith, h, e))
      | inr e ↦
          let (u, by, asked, rows, serves) =
            Granted-sound service secret new checked.0 (record s { conn = checked.1 })
              (row, plaintext) (ground (arith, h, e)) in
          rw e (
            u,
            by,
            asked,
            ap (map erase) rows ∙ ap (λ (x : List ApiToken). erase row ∷ x) same,
            serves later parts' v origin no_session header fresh (rw e at user) unlocked,
          )
    ]
