-- ===== src/Auth/Checks.antt =====
-- What an endpoint asks of a token.
use crates_io.Prelude.{
  ◌≡◌, refl, ◌↔◌, ◌⊎◌, inl, inr, Bool, true, Option, none, some, List, [], ◌∷◌, arith, Text, Any,
  sym, subst, any, any_iff, ok, Any-imp,
}
use crates_io.Database.Token.{ApiToken, EndpointScope, CrateScope, matches}
use crates_io.Auth.{
  AuthCheck, scope_eq, endpoint_scope_matches, crate_scope_matches, check_token, some_scope_matches,
}

pub scope_eq_iff : (a b : EndpointScope) → (scope_eq a b ≡ true) ↔ (a ≡ b)
unfolding scope_eq
scope_eq_iff a b = ground arith

-- A token without endpoint scopes passes everywhere, any other only where its list has the scope
-- of the endpoint.
abbrev pub EndpointGranted : Option EndpointScope → Option (List EndpointScope) → Type 0
EndpointGranted endpoint none = Unit
EndpointGranted endpoint (some scopes) =
    (s : EndpointScope) × (endpoint ≡ some s) × Any (λ t. t ≡ s) scopes

-- A token without crate scopes passes for every crate. Any other passes where one of its scopes
-- matches the endpoint's crate, and without a crate only where the endpoint allows that.
abbrev pub CrateGranted : AuthCheck → Option (List CrateScope) → Type 0
CrateGranted c none = Unit
CrateGranted c (some []) = Unit
CrateGranted c (some (x ∷ scopes)) =
    ((c.crate_name ≡ none) × (c.allow_any_crate_scope ≡ true))
    ⊎ ((name : Text) × (c.crate_name ≡ some name) × Any (λ s. matches s name ≡ true) (x ∷ scopes))

pub endpoint_scope_matches_iff :
    (endpoint : Option EndpointScope) (scopes : Option (List EndpointScope))
    → (endpoint_scope_matches endpoint scopes ≡ true) ↔ EndpointGranted endpoint scopes
unfolding endpoint_scope_matches
endpoint_scope_matches_iff endpoint none = (λ _. tt, λ _. refl)
endpoint_scope_matches_iff none (some scopes) = (λ h. cc, λ g. cc (g.1))
endpoint_scope_matches_iff (some s) (some scopes) =
    let (to, from) = any_iff (scope_eq s) scopes in
    (
      λ h. (s, refl, Any-imp (λ t e. sym ((scope_eq_iff s t).0 e)) (to h)),
      λ g. from (Any-imp (λ t e. (scope_eq_iff s t).1 (cc (g.1))) g.2),
    )

some_scope_iff :
    (any_crate : Bool) (krate : Option Text) (scopes : List CrateScope)
    → (some_scope_matches any_crate krate scopes ≡ true) ↔ (
        ((krate ≡ none) × (any_crate ≡ true))
        ⊎ ((name : Text) × (krate ≡ some name) × Any (λ s. matches s name ≡ true) scopes))
some_scope_iff any_crate none scopes = (λ h. inl (refl, h), from)
  where
    from :
        ((◌≡◌ {A = Option Text} none none) × (any_crate ≡ true))
          ⊎ ((name : Text) × (none ≡ some name) × Any (λ s. matches s name ≡ true) scopes)
        → any_crate ≡ true
    from (inl h) = h.1
    from (inr h) = cc (h.1)
some_scope_iff any_crate (some name) scopes =
    let (to, back) = any_iff (λ s. matches s name) scopes in
    (λ h. inr (name, refl, to h), from back)
  where
    from :
        (Any (λ s. matches s name ≡ true) scopes → any (λ s. matches s name) scopes ≡ true)
        → ((some name ≡ none) × (any_crate ≡ true))
          ⊎ ((n : Text) × (some name ≡ some n) × Any (λ s. matches s n ≡ true) scopes)
        → any (λ s. matches s name) scopes ≡ true
    from back (inl h) = cc (h.0)
    from back (inr (n, e, h)) = back (subst (λ m. Any (λ s. matches s m ≡ true) scopes) (cc e) h)

pub crate_scope_matches_iff :
    (c : AuthCheck) (scopes : Option (List CrateScope))
    → (crate_scope_matches c scopes ≡ true) ↔ CrateGranted c scopes
unfolding crate_scope_matches
crate_scope_matches_iff c none = (λ _. tt, λ _. refl)
crate_scope_matches_iff c (some []) = (λ _. tt, λ _. refl)
crate_scope_matches_iff c (some (x ∷ scopes)) =
    some_scope_iff c.allow_any_crate_scope c.crate_name (x ∷ scopes)

-- The endpoint lets the token pass.
pub record IsGranted (c : AuthCheck) (t : ApiToken) : Type 0 where
  pub token_allowed : c.allow_token ≡ true
  pub endpoint : EndpointGranted c.endpoint_scope t.endpoint_scopes
  pub krate : CrateGranted c t.crate_scopes

-- A token passes the check exactly when the endpoint allows tokens and both scopes grant it.
pub check_token_iff : (c : AuthCheck) (t : ApiToken) → (check_token c t ≡ ok tt) ↔ IsGranted c t
unfolding check_token
check_token_iff c t =
    let (e, e') = endpoint_scope_matches_iff c.endpoint_scope t.endpoint_scopes in
    let (k, k') = crate_scope_matches_iff c t.crate_scopes in
    (
      λ h. record {
        token_allowed = ground arith;
        endpoint = e (ground arith);
        krate = k (ground arith);
      },
      λ g. let a = g.token_allowed in let b = e' g.endpoint in let d = k' g.krate in ground arith,
    )
