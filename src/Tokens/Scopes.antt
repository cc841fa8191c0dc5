-- ===== src/Tokens/Scopes.antt =====
-- What the tests of `create_api_token` grant.
use crates_io.Prelude.{
  ◌≡◌, refl, sym, subst, inl, inr, Text, Option, none, some, List, [], ◌∷◌, map, Bool-cases,
  text_eq, Result, ok, err, arith, String, any, >>=-eq-ok, map_err, ok-eq,
}
use crates_io.Errors.{bad_request}
use crates_io.Database.User.{User}
use crates_io.Database.Token.{
  ApiToken, CrateScope, EndpointScope, try_from, try_from_bytes, to_bytes,
}
use crates_io.Database.Token.Scopes.{try_from_iff, try_from_bytes_iff}
use crates_io.Auth.{Authentication, cookie, token}
use crates_io.Tokens.{
  Service, State, NewApiToken, Grant, collect, scopes_of, grant, insert, ensure_session,
  ensure_enabled, ensure_few,
}

-- Scopes that were read are written as the texts that were given.
collect_sound :
    {A : Type 0} (f : Text → Result A String) (g : A → Text)
    → ((x : Text) (y : A) → f x ≡ ok y → g y ≡ x)
    → (xs : List Text) (ys : List A) → collect f xs ≡ ok ys
    → map g ys ≡ xs
unfolding collect
collect_sound f g e [] ys h = rw (← ok-eq [] ys h) refl
collect_sound f g e (x ∷ xs) ys h =
    let (y, first, rest) = >>=-eq-ok (f x) _ h in
    let (zs, others, done) = >>=-eq-ok (collect f xs) _ rest in
    rw (← ok-eq (y ∷ zs) ys done) (cc (e x y first, collect_sound f g e xs zs others))

map_err-ok : {A E F : Type 0} (f : E → F) (r : Result A E) (a : A) → map_err f r ≡ ok a → r ≡ ok a
map_err-ok f (ok b) a h = cc h
map_err-ok f (err x) a h = cc

-- The scopes of a request and those of a row: none, or the same texts.
abbrev pub SameScopes : {A : Type 0} → (A → Text) → Option (List Text) → Option (List A) → Type 0
SameScopes g none none = Unit
SameScopes g none (some ys) = ⊥
SameScopes g (some xs) none = ⊥
SameScopes g (some xs) (some ys) = map g ys ≡ xs

scopes_of_sound :
    {A : Type 0} (message : String) (f : Text → Result A String) (g : A → Text)
    → ((x : Text) (y : A) → f x ≡ ok y → g y ≡ x)
    → (texts : Option (List Text)) (scopes : Option (List A))
    → scopes_of message f texts ≡ ok scopes
    → SameScopes g texts scopes
scopes_of_sound message f g e none scopes h = rw (← ok-eq none scopes h) tt
scopes_of_sound message f g e (some texts) scopes h =
    let (ys, collected, done) =
      >>=-eq-ok (map_err (λ x. bad_request message []) (collect f texts)) _ h in
    rw (← ok-eq (some ys) scopes done) (
      collect_sound f g e texts ys
        (map_err-ok (λ x. bad_request message []) (collect f texts) ys collected))

pattern_of : (x : Text) (y : CrateScope) → try_from x ≡ ok y → y.pattern ≡ x
pattern_of x y h = ((try_from_iff x y).0 h).0

name_of : (x : Text) (y : EndpointScope) → try_from_bytes x ≡ ok y → to_bytes y ≡ x
name_of x y h = sym ((try_from_bytes_iff x y).0 h)

ensure_session-ok : (a : Authentication) (u : User) → ensure_session a ≡ ok u → a ≡ cookie u
ensure_session-ok (cookie v) u h = cc h
ensure_session-ok (token t v) u h = cc

-- The scopes that a request asks for.
abbrev pub Asks : NewApiToken → Option (List CrateScope) → Option (List EndpointScope) → Type 0
Asks new crates endpoints =
    SameScopes (λ (s : CrateScope). s.pattern) new.crate_scopes crates
    × SameScopes to_bytes new.endpoint_scopes endpoints

pub grant_sound :
    (service : Service) (new : NewApiToken) (rows : List ApiToken) (auth : Authentication)
    (g : Grant)
    → grant service new rows auth ≡ ok g
    → (auth ≡ cookie g.user) × Asks new g.crate_scopes g.endpoint_scopes
unfolding grant
grant_sound service new rows auth g h =
    let (u, session, h1) = >>=-eq-ok (ensure_session auth) _ h in
    let (done, enabled, h2) = >>=-eq-ok (ensure_enabled service.disable_token_creation) _ h1 in
    let (done', few, h3) = >>=-eq-ok (ensure_few rows u) _ h2 in
    let (crates, c, h4) =
      >>=-eq-ok (scopes_of "invalid crate scope" try_from new.crate_scopes) _ h3 in
    let (endpoints, e, h5) =
      >>=-eq-ok (scopes_of "invalid endpoint scope" try_from_bytes new.endpoint_scopes) _ h4 in
    let same = ok-eq _ g h5 in
    subst (λ (g : Grant). (auth ≡ cookie g.user) × Asks new g.crate_scopes g.endpoint_scopes) same
      (
        ensure_session-ok auth u session,
        (
          scopes_of_sound "invalid crate scope" try_from (λ (s : CrateScope). s.pattern) pattern_of
              new.crate_scopes crates c,
          scopes_of_sound "invalid endpoint scope" try_from_bytes to_bytes name_of
              new.endpoint_scopes endpoints e,
        ),
      )

pub insert_sound :
    (row : ApiToken) (plaintext : Text) (s : State) (r : ApiToken × Text)
    → (insert row plaintext s).0 ≡ ok r
    → (r ≡ (row, plaintext))
      × ((insert row plaintext s).1.conn ≡ record s.conn { api_tokens = row ∷ s.conn.api_tokens })
unfolding insert
insert_sound row plaintext s r h =
    elim (Bool-cases (any (λ r. text_eq r.token row.token) s.conn.api_tokens)) [
      | inl e ↦ absurd (ground (arith, h, e))
      | inr e ↦ (ground (arith, h, e), rw e refl)
    ]
