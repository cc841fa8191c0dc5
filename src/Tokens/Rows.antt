-- ===== src/Tokens/Rows.antt =====
-- The rows of the tokens of other users.
use crates_io.Prelude.{
  ℕ, ◌≡◌, refl, sym, ◌∙◌, ap, subst, inl, inr, List, [], ◌∷◌, map, keep, Bool, true, false, not,
  Bool-cases, All, All-map, All-unmap, Any, Any-imp, here, there, ◌==◌, ==_iff, Distinct,
}
use crates_io.Database.Token.{ApiToken}
use crates_io.Database.Token.Lookup.{erase}
use crates_io.Tokens.Manage.{revoke_if}

-- The tokens of other users, apart from when they were last used.
abbrev pub others : ℕ → List ApiToken → List ApiToken
others id rows = map erase (keep (λ r. not (r.user_id == id)) rows)

others-erase :
    (id : ℕ) (rows : List ApiToken)
    → others id rows ≡ keep (λ r. not (r.user_id == id)) (map erase rows)
others-erase id [] = refl
others-erase id (r ∷ rows) = elim (Bool-cases (r.user_id == id)) [
  | inl e ↦ rw (keep, e) (others-erase id rows)
  | inr e ↦ rw (keep, e) (ap (λ (x : List ApiToken). erase r ∷ x) (others-erase id rows))
]

pub others-same :
    (id : ℕ) (rows rows' : List ApiToken)
    → map erase rows' ≡ map erase rows
    → others id rows' ≡ others id rows
others-same id rows rows' e =
    others-erase id rows' ∙ ap (keep (λ r. not (r.user_id == id))) e ∙ sym (others-erase id rows)

not_selected : (p : ApiToken → Bool) (r : ApiToken) → p r ≡ false → revoke_if p r ≡ r
not_selected p r e = rw e refl

-- Revoking rows of one user.
pub others-revoke :
    (id : ℕ) (p : ApiToken → Bool) (rows : List ApiToken)
    → All (λ r. p r ≡ true → r.user_id ≡ id) rows
    → others id (map (revoke_if p) rows) ≡ others id rows
others-revoke id p [] h = refl
others-revoke id p (r ∷ rows) h = elim (Bool-cases (p r)) [
  | inl e ↦ rw (keep, e, (==_iff r.user_id id).1 (h.0 e)) (others-revoke id p rows h.1)
  | inr e ↦ elim (Bool-cases (r.user_id == id)) [
    | inl own ↦ rw (keep, e, own) (others-revoke id p rows h.1)
    | inr other ↦
        rw (keep, e, other)
          (ap (λ (x : ApiToken). erase x ∷ others id (map (revoke_if p) rows)) (not_selected p r e)
            ∙ ap (λ (x : List ApiToken). erase r ∷ x) (others-revoke id p rows h.1))
  ]
]

abbrev pub SameId : ApiToken → ApiToken → Type 0
SameId a b = a.id ≡ b.id

-- Rows with the id of a row of the table are of its user.
pub only_user :
    (t : ApiToken) (rows : List ApiToken)
    → Distinct SameId rows
    → Any (λ r. erase r ≡ erase t) rows
    → All (λ r. (r.id == t.id) ≡ true → r.user_id ≡ t.user_id) rows
only_user t [] u a = tt
only_user t (r ∷ rows) u (here e) =
    (λ h. ap (λ (x : ApiToken). x.user_id) e, others_differ rows u.0)
  where
    others_differ :
        (xs : List ApiToken)
        → ¬ Any (SameId r) xs
        → All (λ x. (x.id == t.id) ≡ true → x.user_id ≡ t.user_id) xs
    others_differ [] n = tt
    others_differ (x ∷ xs) n = (
      λ same. absurd (n (here (ap (λ (y : ApiToken). y.id) e ∙ sym ((==_iff x.id t.id).0 same)))),
      others_differ xs (λ a. n (there a)),
    )
only_user t (r ∷ rows) u (there a) = (
  λ same.
      absurd
        (u.0 (Any-imp (λ x e. (==_iff r.id t.id).0 same ∙ sym (ap (λ (y : ApiToken). y.id) e)) a)),
  only_user t rows u.1 a,
)

unfoldable pub OwnerOf : ℕ → ℕ → ApiToken → Type 0
OwnerOf id user_id r = (r.id == id) ≡ true → r.user_id ≡ user_id

all-erase :
    (id user_id : ℕ) (rows : List ApiToken)
    → All (OwnerOf id user_id) (map erase rows)
    → All (OwnerOf id user_id) rows
unfolding OwnerOf
all-erase id user_id rows h = All-unmap (OwnerOf id user_id) erase (λ r q. q) rows h

pub all-same :
    (id user_id : ℕ) (rows rows' : List ApiToken)
    → map erase rows' ≡ map erase rows
    → All (OwnerOf id user_id) rows
    → All (OwnerOf id user_id) rows'
unfolding OwnerOf
all-same id user_id rows rows' e h = all-erase id user_id rows' (
    subst (All (OwnerOf id user_id)) (sym e) (All-map (OwnerOf id user_id) erase (λ r q. q) rows h))
