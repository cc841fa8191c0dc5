-- ===== src/Database/Token/Scopes.antt =====
-- The scopes of a token: their database text, the patterns that are accepted, and the crates that
-- a pattern selects.
use crates_io.Prelude.{
  ◌≡◌, refl, sym, ◌↔◌, inl, inr, true, false, [], ◌∷◌, ◌++◌, arith, Text, codes, text_eq,
  text_eq_iff, ok, Lacks, strip_suffix_char, strip_suffix_char-append, strip_suffix_char-none,
  strip_suffix_char_sound, starts_with_sound, starts_with-append, Option-cases, Bool-cases,
  Result-cases, is_ok, false≢true,
}
use crates_io.Validation.{validate_crate_name}
use crates_io.Validation.Names.{IsCrateName, IsCrateName-Lacks, validate_crate_name_iff}
use crates_io.Database.Token.{
  EndpointScope, publish_new, publish_update, trusted_publishing, yank, change_owners, to_bytes,
  try_from_bytes, CrateScope, is_valid_pattern, try_from, matches,
}

bytes_back : (s : EndpointScope) → try_from_bytes (to_bytes s) ≡ ok s
unfolding try_from_bytes to_bytes text_eq
bytes_back publish_new = refl
bytes_back publish_update = refl
bytes_back trusted_publishing = refl
bytes_back yank = refl
bytes_back change_owners = refl

bytes_sound : (b : Text) (s : EndpointScope) → try_from_bytes b ≡ ok s → b ≡ to_bytes s
unfolding try_from_bytes to_bytes
bytes_sound b s h = ground (
  arith,
  text_eq_iff b (codes "publish-new"),
  text_eq_iff b (codes "publish-update"),
  text_eq_iff b (codes "trusted-publishing"),
  text_eq_iff b (codes "yank"),
  text_eq_iff b (codes "change-owners"),
)

-- A text is read as a scope exactly when it is the text that the scope is written as.
pub try_from_bytes_iff :
    (b : Text) (s : EndpointScope) → (try_from_bytes b ≡ ok s) ↔ (b ≡ to_bytes s)
try_from_bytes_iff b s = (bytes_sound b s, λ e. rw e (bytes_back s))

-- What a crate scope can say.
pub data Pattern : Type 0 where
  everything : Pattern
  exact prefix : Text → Pattern

abbrev pub text_of : Pattern → Text
text_of everything = codes "*"
text_of (exact name) = name
text_of (prefix name) = name ++ codes "*"

-- A name in a pattern is a crate name, also in front of the wildcard.
abbrev pub IsPattern : Pattern → Type 0
IsPattern everything = Unit
IsPattern (exact name) = IsCrateName name
IsPattern (prefix name) = IsCrateName name

abbrev pub Selects : Pattern → Text → Type 0
Selects everything crate_name = Unit
Selects (exact name) crate_name = crate_name ≡ name
Selects (prefix name) crate_name = (rest : Text) × (crate_name ≡ name ++ rest)

Lacks-star : (name : Text) → IsCrateName name → Lacks b'*' name
Lacks-star = IsCrateName-Lacks b'*' (omega arith)

not_star : (name : Text) → IsCrateName name → text_eq name (codes "*") ≡ false
unfolding text_eq
not_star [] h = absurd h
not_star (c ∷ s) h = ground arith

not_star_prefix : (name : Text) → IsCrateName name → text_eq (name ++ codes "*") (codes "*") ≡ false
unfolding text_eq
not_star_prefix [] h = absurd h
not_star_prefix (c ∷ s) h = ground arith

-- A scope with an accepted pattern matches exactly the crates that the pattern selects.
pub matches_iff :
    (p : Pattern) (crate_name : Text)
    → IsPattern p
    → (matches (record { pattern = text_of p }) crate_name ≡ true) ↔ Selects p crate_name
unfolding matches
matches_iff everything n h = (λ _. tt, λ _. unfold text_eq in refl)
matches_iff (exact name) n h =
    rw (not_star name h)
      (rw (strip_suffix_char-none b'*' name (Lacks-star name h)) (text_eq_iff n name))
matches_iff (prefix name) n h = rw (not_star_prefix name h) (
    rw (strip_suffix_char-append b'*' name)
      (starts_with_sound name n, λ s. rw s.1 (starts_with-append name s.0)))

IsCrateName-is_ok :
    (name : Text) → (is_ok (validate_crate_name (codes "crate") name) ≡ true) ↔ IsCrateName name
IsCrateName-is_ok name = elim (Result-cases (validate_crate_name (codes "crate") name)) [
  | inl (done, e) ↦ (λ _. (validate_crate_name_iff _ name).0 e, λ _. rw e)
  | inr (x, e) ↦ (
    λ h. absurd (false≢true (rw e at h)),
    λ h. absurd (ground (arith, (validate_crate_name_iff (codes "crate") name).1 h)),
  )
]

Accepted : Text → Type 0
Accepted t = (p : Pattern) × (text_of p ≡ t) × IsPattern p

valid_sound : (t : Text) → is_valid_pattern t ≡ true → Accepted t
unfolding is_valid_pattern Accepted
valid_sound [] h = cc
valid_sound (c ∷ s) h = elim (Bool-cases (text_eq (c ∷ s) (codes "*"))) [
  | inl e ↦ (everything, sym ((text_eq_iff _ _).0 e), tt)
  | inr e ↦ elim (Option-cases (strip_suffix_char b'*' (c ∷ s))) [
    | inl plain ↦ (exact (c ∷ s), refl, (IsCrateName-is_ok (c ∷ s)).0 (ground arith))
    | inr (name, split) ↦ (
      prefix name,
      sym (strip_suffix_char_sound b'*' _ name split),
      (IsCrateName-is_ok name).0 (ground arith),
    )
  ]
]

valid_complete : (p : Pattern) → IsPattern p → is_valid_pattern (text_of p) ≡ true
unfolding is_valid_pattern
valid_complete everything h = unfold text_eq in refl
valid_complete (exact []) h = absurd h
valid_complete (exact (c ∷ s)) h = ground (
  arith,
  not_star (c ∷ s) h,
  strip_suffix_char-none b'*' (c ∷ s) (Lacks-star (c ∷ s) h),
  (IsCrateName-is_ok (c ∷ s)).1 h,
)
valid_complete (prefix []) h = absurd h
valid_complete (prefix (c ∷ s)) h = ground (
  arith,
  not_star_prefix (c ∷ s) h,
  strip_suffix_char-append b'*' (c ∷ s),
  (IsCrateName-is_ok (c ∷ s)).1 h,
)

-- A text is accepted as a crate scope exactly when it is `*`, a crate name, or a crate name
-- followed by `*`; the scope then holds the text.
pub try_from_iff :
    (t : Text) (scope : CrateScope)
    → (try_from t ≡ ok scope)
      ↔ ((scope.pattern ≡ t) × ((p : Pattern) × (text_of p ≡ t) × IsPattern p))
unfolding try_from Accepted
try_from_iff t scope = (
  λ h. (ground arith, valid_sound t (ground arith)),
  λ h.
      let valid : is_valid_pattern t ≡ true = rw (← h.1.1) (valid_complete h.1.0 h.1.2) in
      ground arith,
)
