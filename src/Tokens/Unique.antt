-- ===== src/Tokens/Unique.antt =====
-- Rows of tokens with unique digests.
use crates_io.Prelude.{
  ◌≡◌, refl, sym, ◌∙◌, ap, subst, List, [], ◌∷◌, map, Bool, true, false, All, All-map, Any, Any-map,
  Any-imp, Any-over, Distinct-unmap, here, there, ◌==◌, if◌then◌else◌, Distinct, Distinct-map,
  ==_iff,
}
use crates_io.Database.Token.{ApiToken}
use crates_io.Database.Token.Lookup.{erase}
use crates_io.Tokens.Manage.{revoke_if}
use crates_io.Tokens.Revoked.{IsRevoked, revoke_if-token}

abbrev pub SameDigest : ApiToken → ApiToken → Type 0
SameDigest a b = a.token ≡ b.token

-- The unique index on `token`.
abbrev pub IsUnique : List ApiToken → Type 0
IsUnique = Distinct SameDigest

abbrev pub Listed : ApiToken → List ApiToken → Type 0
Listed t = Any (λ r. erase r ≡ erase t)

-- The only row with the digest of a row of the table is that row.
pub only_row :
    (t : ApiToken) (rows : List ApiToken)
    → IsUnique rows
    → Listed t rows
    → All (λ r. r.token ≡ t.token → erase r ≡ erase t) rows
only_row t [] u a = tt
only_row t (r ∷ rows) u (here e) = (λ same. e, others rows u.0)
  where
    others :
        (xs : List ApiToken)
        → ¬ Any (SameDigest r) xs
        → All (λ x. x.token ≡ t.token → erase x ≡ erase t) xs
    others [] n = tt
    others (x ∷ xs) n = (
      λ same. absurd (n (here (ap (λ (y : ApiToken). y.token) e ∙ sym same))),
      others xs (λ a. n (there a)),
    )
only_row t (r ∷ rows) u (there a) = (
  λ same. absurd (u.0 (Any-imp (λ x e. same ∙ sym (ap (λ (y : ApiToken). y.token) e)) a)),
  only_row t rows u.1 a,
)

IsUnique-erase : (rows : List ApiToken) → IsUnique (map erase rows) → IsUnique rows
IsUnique-erase rows u = Distinct-unmap {Same = SameDigest} erase (λ a b h. h) rows u

-- The rows of a check.
pub IsUnique-same :
    (rows rows' : List ApiToken) → map erase rows' ≡ map erase rows → IsUnique rows → IsUnique rows'
IsUnique-same rows rows' e u =
    IsUnique-erase rows'
      (subst IsUnique (sym e) (Distinct-map {Same = SameDigest} erase (λ a b h. h) rows u))

pub Listed-same :
    (t : ApiToken) (rows rows' : List ApiToken)
    → map erase rows' ≡ map erase rows
    → Listed t rows
    → Listed t rows'
Listed-same t rows rows' e a =
    Any-map erase (λ r h. h) rows'
      (subst (Any (λ r. r ≡ erase t)) (sym e) (Any-over erase (λ r h. h) rows a))

-- Rows that a test selects are revoked.
pub IsRevoked-IsRevoked :
    (p : ApiToken → Bool) (t : ApiToken) (rows : List ApiToken)
    → IsUnique rows
    → Listed t rows
    → ((r : ApiToken) → erase r ≡ erase t → p r ≡ true)
    → IsRevoked t.token (map (revoke_if p) rows)
IsRevoked-IsRevoked p t rows u a selected = (
  Any-over (revoke_if p) (λ r e. revoke_if-token p r ∙ ap (λ (y : ApiToken). y.token) e) rows a,
  All-map (λ r. r.token ≡ t.token → r.revoked ≡ true) (revoke_if p)
      (λ r only same. revoke (p r) r (selected r (only (sym (revoke_if-token p r) ∙ same)))) rows
      (only_row t rows u a),
)
  where
    revoke :
        (b : Bool) (r : ApiToken)
        → b ≡ true
        → (if b then record r { revoked = true } else r).revoked ≡ true
    revoke true r e = refl
    revoke false r e = cc

pub same_id : (t r : ApiToken) → erase r ≡ erase t → (r.id == t.id) ≡ true
same_id t r e = (==_iff r.id t.id).1 (ap (λ (y : ApiToken). y.id) e)
