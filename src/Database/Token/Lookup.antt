-- ===== src/Database/Token/Lookup.antt =====
-- Which row an API token finds, and what the lookup writes.
use crates_io.Prelude.{
  All-iff, Any-map, Any-imp, ℕ, ◌<◌, ◌≡◌, refl, ap, ◌↔◌, inl, inr, Bool, true, false, Option, none,
  some, List, [], ◌∷◌, arith, Text, text_eq_iff, Bool-cases, All, Any, here, there, map, false_iff,
}
use crates_io.Database.Token.{
  ApiToken, is_unexpired, is_usable, touch, first_usable, find_by_api_token,
}

-- The row is for this digest, is not revoked, and has no expiry date in the past.
pub record IsUsable (now : ℕ) (token : Text) (row : ApiToken) : Type 0 where
  pub not_revoked : row.revoked ≡ false
  pub unexpired : (t : ℕ) → row.expired_at ≡ some t → now < t
  pub digest : row.token ≡ token

unexpired_iff :
    (now : ℕ) (e : Option ℕ) → (is_unexpired now e ≡ true) ↔ ((t : ℕ) → e ≡ some t → now < t)
unexpired_iff now none = (λ _ t h. cc, λ _. refl)
unexpired_iff now (some x) = (λ h t e. ground arith, λ h. let l = h x refl in ground arith)

pub is_usable_iff :
    (now : ℕ) (token : Text) (row : ApiToken)
    → (is_usable now token row ≡ true) ↔ IsUsable now token row
is_usable_iff now token row =
    let (unexpired, unexpired') = unexpired_iff now row.expired_at in
    let (same, same') = text_eq_iff row.token token in
    (
      λ h. record {
        not_revoked = ground arith;
        unexpired = unexpired (ground arith);
        digest = same (ground arith);
      },
      λ u.
          let e = unexpired' u.unexpired in
          let d = same' u.digest in let r = u.not_revoked in ground arith,
    )

-- A row apart from when it was last used.
abbrev pub erase : ApiToken → ApiToken
erase row = record row { last_used_at = none }

first_usable_sound :
    (now : ℕ) (token : Text) (rows : List ApiToken) {row : ApiToken}
    → first_usable now token rows ≡ some row
    → (is_usable now token row ≡ true) × Any (λ r. r ≡ row) rows
unfolding first_usable
first_usable_sound now token [] h = cc
first_usable_sound now token (r ∷ rows) {row} h = elim (Bool-cases (is_usable now token r)) [
  | inl u ↦ let e : r ≡ row = ground arith in (rw (← e) u, here e)
  | inr n ↦
      let (u, found) = first_usable_sound now token rows {row = row} (ground arith) in
      (u, there found)
]

is_usable-touch :
    (now : ℕ) (token : Text) (r : ApiToken)
    → is_usable now token (touch now token r) ≡ is_usable now token r
is_usable-touch now token r = elim (Bool-cases (is_usable now token r)) [
  | inl u ↦ rw (u, touch) u
  | inr n ↦ rw (n, touch) n
]

erase-touch : (now : ℕ) (token : Text) (r : ApiToken) → erase (touch now token r) ≡ erase r
erase-touch now token r = elim (Bool-cases (is_usable now token r)) [
  | inl u ↦ rw (u, touch)
  | inr n ↦ rw (n, touch)
]

-- The row that is found is usable, and the table held it, but for the time of its last use.
pub find_by_api_token-IsUsable :
    (read_only : Bool) (now : ℕ) (token : Text) (rows : List ApiToken) (row : ApiToken)
    → (find_by_api_token read_only now token rows).0 ≡ some row
    → IsUsable now token row × Any (λ r. erase r ≡ erase row) rows
unfolding find_by_api_token
find_by_api_token-IsUsable true now token rows row h =
    let (u, found) = first_usable_sound now token rows h in
    ((is_usable_iff now token row).0 u, Any-imp (λ r e. ap erase e) found)
find_by_api_token-IsUsable false now token rows row h =
    let (u, found) = first_usable_sound now token (map (touch now token) rows) h in
    (
      (is_usable_iff now token row).0 u,
      Any-map (touch now token) (λ r e. rw (← erase-touch now token r) (ap erase e)) rows found,
    )

first_usable-none_iff :
    (now : ℕ) (token : Text) (rows : List ApiToken)
    → (first_usable now token rows ≡ none) ↔ All (λ r. is_usable now token r ≡ false) rows
unfolding first_usable
first_usable-none_iff now token [] = (λ _. tt, λ _. refl)
first_usable-none_iff now token (r ∷ rows) = (
  λ h. (ground arith, (first_usable-none_iff now token rows).0 (ground arith)),
  λ h. rw h.0 ((first_usable-none_iff now token rows).1 h.1),
)

first_usable-touch :
    (now : ℕ) (token : Text) (rows : List ApiToken)
    → (first_usable now token (map (touch now token) rows) ≡ none)
      ↔ (first_usable now token rows ≡ none)
unfolding first_usable
first_usable-touch now token [] = (λ h. h, λ h. h)
first_usable-touch now token (r ∷ rows) = rw (is_usable-touch now token r) (
    let (to, from) = first_usable-touch now token rows in
    elim (Bool-cases (is_usable now token r)) [
      | inl u ↦ rw u (λ h. cc, λ h. cc)
      | inr n ↦ rw n (to, from)
    ])

unusable :
    (now : ℕ) (token : Text) (rows : List ApiToken)
    → All (λ r. is_usable now token r ≡ false) rows ↔ All (λ r. ¬ IsUsable now token r) rows
unusable now token = All-iff (λ r. false_iff _ (is_usable_iff now token r))

-- No row is found exactly when none is usable.
pub find_by_api_token-eq-none_iff :
    (read_only : Bool) (now : ℕ) (token : Text) (rows : List ApiToken)
    → ((find_by_api_token read_only now token rows).0 ≡ none)
      ↔ All (λ r. ¬ IsUsable now token r) rows
unfolding find_by_api_token
find_by_api_token-eq-none_iff true now token rows =
    let (to, from) = first_usable-none_iff now token rows in
    let (on, back) = unusable now token rows in (λ h. on (to h), λ h. from (back h))
find_by_api_token-eq-none_iff false now token rows =
    let (to, from) = first_usable-none_iff now token rows in
    let (on, back) = unusable now token rows in
    let (cleared, kept) = first_usable-touch now token rows in
    (λ h. on (to (cleared h)), λ h. kept (from (back h)))

erase-touches :
    (now : ℕ) (token : Text) (rows : List ApiToken)
    → map erase (map (touch now token) rows) ≡ map erase rows
erase-touches now token [] = refl
erase-touches now token (r ∷ rows) = cc (erase-touch now token r, erase-touches now token rows)

-- The lookup writes nothing but times of last use, and nothing at all in a read-only database.
pub find_by_api_token-writes :
    (read_only : Bool) (now : ℕ) (token : Text) (rows : List ApiToken)
    → (map erase (find_by_api_token read_only now token rows).1 ≡ map erase rows)
      × (read_only ≡ true → (find_by_api_token read_only now token rows).1 ≡ rows)
unfolding find_by_api_token
find_by_api_token-writes true now token rows = (refl, λ _. refl)
find_by_api_token-writes false now token rows = (erase-touches now token rows, λ h. cc)
