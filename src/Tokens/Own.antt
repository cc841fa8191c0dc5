-- ===== src/Tokens/Own.antt =====
-- A request on tokens writes tokens of its user only.
use crates_io.Prelude.{
  ℕ, ◌≡◌, refl, sym, ◌∙◌, ap, ◌⊎◌, inl, inr, Text, List, [], ◌∷◌, map, keep, true, Bool-cases, All,
  All-imp, Any, ok, err, any, text_eq, ◌==◌, ==_iff, &&_iff, ◌&&◌, Distinct, is_empty, ◌>>=◌,
}
use crates_io.Errors.{AppResult}
use crates_io.Database.User.{User}
use crates_io.Database.Token.{ApiToken}
use crates_io.Database.Token.Lookup.{erase}
use crates_io.Auth.{Parts, Conn, Authentication, cookie, token, default, check}
use crates_io.Auth
use crates_io.Auth.Genuine.{Genuine, by_token}
use crates_io.Auth.Sessions.{check-Genuine}
use crates_io.Auth.Writes.{check-writes}
use crates_io.Rights.Owners.{find-id}
use crates_io.Tokens.{
  Service, State, NewApiToken, Grant, belongs_to, grant, generate, new_row, insert, email,
  send_creation_email, create_granted, create_api_token,
}
use crates_io.Tokens.Manage.{revoke_own, revoke_api_token, revoke_current, revoke_current_api_token}
use crates_io.Tokens.Scopes.{grant_sound}
use crates_io.Tokens.Create.{send-conn}
use crates_io.Tokens.Create.{send-conn}
use crates_io.Tokens.Rows.{SameId, only_user, OwnerOf, all-same, others, others-same, others-revoke}

-- What a request that is authenticated so may write.
abbrev pub OnlyOwn : AppResult Authentication → List ApiToken → List ApiToken → Type 0
OnlyOwn (err e) rows rows' = map erase rows' ≡ map erase rows
OnlyOwn (ok auth) rows rows' = others (Auth.user auth).id rows' ≡ others (Auth.user auth).id rows

-- The write comes behind a check.
behind_check :
    (auth : AppResult Authentication) (rows rows' rows'' : List ApiToken)
    → map erase rows' ≡ map erase rows
    → OnlyOwn auth rows' rows''
    → OnlyOwn auth rows rows''
behind_check (err e) rows rows' rows'' same h = h ∙ same
behind_check (ok auth) rows rows' rows'' same h =
    h ∙ others-same (Auth.user auth).id rows rows' same

revoke_own-OnlyOwn :
    (id : ℕ) (auth : AppResult Authentication) (s : State)
    → OnlyOwn auth s.conn.api_tokens (revoke_own id auth s).1.conn.api_tokens
revoke_own-OnlyOwn id (err e) s = refl
revoke_own-OnlyOwn id (ok auth) s =
    others-revoke (Auth.user auth).id (λ row. belongs_to (Auth.user auth) row && row.id == id)
      s.conn.api_tokens (every s.conn.api_tokens)
  where
    every :
        (rows : List ApiToken)
        → All
            (λ r.
              (belongs_to (Auth.user auth) r && r.id == id) ≡ true
              → r.user_id ≡ (Auth.user auth).id)
            rows
    every [] = tt
    every (r ∷ rows) = (
      λ h.
          (==_iff r.user_id (Auth.user auth).id).0
            ((&&_iff (belongs_to (Auth.user auth) r) (r.id == id)).0 h).0,
      every rows,
    )

insert-rows :
    (row : ApiToken) (plaintext : Text) (s : State)
    → ((insert row plaintext s).1.conn.api_tokens ≡ s.conn.api_tokens)
      ⊎ ((insert row plaintext s).1.conn.api_tokens ≡ row ∷ s.conn.api_tokens)
unfolding insert
insert-rows row plaintext s =
    elim (Bool-cases (any (λ r. text_eq r.token row.token) s.conn.api_tokens)) [
      | inl e ↦ inl (rw e refl)
      | inr e ↦ inr (rw e refl)
    ]

others-own :
    (id : ℕ) (row : ApiToken) (rows : List ApiToken)
    → row.user_id ≡ id
    → others id (row ∷ rows) ≡ others id rows
others-own id row rows e = rw (keep, (==_iff row.user_id id).1 e) refl

create-OnlyOwn :
    (service : Service) (plaintext : Text) (new : NewApiToken) (auth : AppResult Authentication)
    (s : State)
    → OnlyOwn auth s.conn.api_tokens
        (create_granted service plaintext new
          (auth >>= grant service new s.conn.api_tokens)
          s).1.conn.api_tokens
create-OnlyOwn service plaintext new (err e) s = refl
create-OnlyOwn service plaintext new (ok auth) s =
    by_grant (grant service new s.conn.api_tokens auth) refl
  where
    by_grant :
        (g : AppResult Grant)
        → grant service new s.conn.api_tokens auth ≡ g
        → others (Auth.user auth).id (create_granted service plaintext new g s).1.conn.api_tokens
          ≡ others (Auth.user auth).id s.conn.api_tokens
    by_grant (err e) given = refl
    by_grant (ok g) given =
        let (session, _) = grant_sound service new s.conn.api_tokens auth g given in
        let to = email s.emails g.user.id in
        let row = new_row service plaintext new g s.next_token_id in
        let sent = ap (λ (c : Conn). c.api_tokens) (send-conn to new.name s) in
        let own : g.user.id ≡ (Auth.user auth).id = rw session refl in
        elim (insert-rows row plaintext (send_creation_email to new.name s)) [
          | inl e ↦ ap (others (Auth.user auth).id) (e ∙ sent)
          | inr e ↦
              ap (others (Auth.user auth).id) (e ∙ ap (λ (x : List ApiToken). row ∷ x) sent)
              ∙ others-own (Auth.user auth).id row s.conn.api_tokens own
        ]

revoke_current-OnlyOwn :
    (auth : AppResult Authentication) (s : State)
    → ((t : ApiToken) (u : User)
        → auth ≡ ok (token t u)
        → All (λ r. (r.id == t.id) ≡ true → r.user_id ≡ u.id) s.conn.api_tokens)
    → OnlyOwn auth s.conn.api_tokens (revoke_current auth s).1.conn.api_tokens
revoke_current-OnlyOwn (err e) s h = refl
revoke_current-OnlyOwn (ok (cookie u)) s h = refl
revoke_current-OnlyOwn (ok (token t u)) s h =
    others-revoke u.id (λ row. row.id == t.id) s.conn.api_tokens (h t u refl)

token-own :
    (sha256 : Text → Text) (now : ℕ) (parts : Parts) (conn : Conn) (t : ApiToken) (u : User)
    → Genuine sha256 now parts conn (token t u)
    → Any (λ r. erase r ≡ erase t) conn.api_tokens × (t.user_id ≡ u.id)
token-own sha256 now parts conn t u (by_token p header marked usable listed row unlocked) =
    (listed, sym (find-id conn.users t.user_id u row))

OnlyOwn-refl : (auth : AppResult Authentication) (rows : List ApiToken) → OnlyOwn auth rows rows
OnlyOwn-refl (err e) rows = refl
OnlyOwn-refl (ok auth) rows = refl

-- No two tokens have an id in common: a request that creates or revokes tokens writes, but for the times of last
-- use, no token of another user than the one that its check yields, and none at all where the check fails.
pub requests-OnlyOwn :
    (service : Service) (now : ℕ) (secret : Text) (new : NewApiToken) (id : ℕ) (parts : Parts)
    (s : State)
    → Distinct SameId s.conn.api_tokens
    → OnlyOwn
        (check service.sha256 service.allowed_origins now default parts s.conn).0
        s.conn.api_tokens
        (create_api_token service now secret new parts s).1.conn.api_tokens
      × OnlyOwn
          (check service.sha256 service.allowed_origins now default parts s.conn).0
          s.conn.api_tokens
          (revoke_api_token service now id parts s).1.conn.api_tokens
      × OnlyOwn
          (check service.sha256 service.allowed_origins now default parts s.conn).0
          s.conn.api_tokens
          (revoke_current_api_token service now parts s).1.conn.api_tokens
unfolding create_api_token revoke_api_token revoke_current_api_token OwnerOf
requests-OnlyOwn service now secret new id parts s unique =
    let checked = check service.sha256 service.allowed_origins now default parts s.conn in
    let same = (check-writes service.sha256 service.allowed_origins now default parts s.conn).1 in
    let s' : State = record s { conn = checked.1 } in
    let rows = s.conn.api_tokens in
    let behind =
      λ (after : List ApiToken). behind_check checked.0 rows checked.1.api_tokens after same in
    (
      elim (Bool-cases (is_empty new.name)) [
        | inl e ↦ rw e (OnlyOwn-refl checked.0 rows)
        | inr e ↦ rw e (behind _ (create-OnlyOwn service (generate secret) new checked.0 s'))
      ],
      behind (revoke_own id checked.0 s').1.conn.api_tokens (revoke_own-OnlyOwn id checked.0 s'),
      behind (revoke_current checked.0 s').1.conn.api_tokens (
          revoke_current-OnlyOwn checked.0 s' (λ t u e.
            let (_, genuine, _) =
              check-Genuine service.sha256 service.allowed_origins now default parts s.conn
                (token t u) e in
            let (listed, mine) = token-own service.sha256 now parts s.conn t u genuine in
            all-same t.id u.id rows checked.1.api_tokens same
              (All-imp (λ r f q. f q ∙ mine) rows (only_user t rows unique listed)))),
    )
