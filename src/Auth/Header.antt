-- ===== src/Auth/Header.antt =====
-- Which texts of an `Authorization` header hold a token, and which token.
use crates_io.Prelude.{
  ◌≡◌, refl, ◌↔◌, ◌⊎◌, inl, inr, true, Option, none, some, [], ◌∷◌, ◌++◌, arith, Text, codes, ok,
  Lacks, split_once, split_once-some, split_once-none, split_once_sound, Lacks-of_none,
  eq_ignore_ascii_case, trim_ascii, is_empty, ||_iff, ◌||◌,
}
use crates_io.Auth.{optional_from_request_parts, token_of, scheme_and_token}

-- `Bearer` in any case, or nothing in front of the space.
abbrev pub IsScheme : Text → Type 0
IsScheme scheme = (eq_ignore_ascii_case scheme (codes "Bearer") ≡ true) ⊎ (scheme ≡ [])

-- The whole header, if it has no space, or what stands behind the first space and a scheme.
abbrev pub Holds : Text → Text → Type 0
Holds header token =
    (Lacks 32 header × (token ≡ trim_ascii header))
    ⊎ ((scheme : Text) × (rest : Text) × (header ≡ scheme ++ 32 ∷ rest)
        × Lacks 32 scheme
        × IsScheme scheme
        × (token ≡ trim_ascii rest))

is_empty_iff : (s : Text) → (is_empty s ≡ true) ↔ (s ≡ [])
is_empty_iff [] = (λ _. refl, λ _. refl)
is_empty_iff (c ∷ s) = (λ h. cc, λ h. cc)

IsScheme-iff :
    (scheme : Text)
    → ((eq_ignore_ascii_case scheme (codes "Bearer") || is_empty scheme) ≡ true) ↔ IsScheme scheme
IsScheme-iff scheme =
    let (to, from) = ||_iff (eq_ignore_ascii_case scheme (codes "Bearer")) (is_empty scheme) in
    let (on, back) = is_empty_iff scheme in (λ h. either on (to h), λ h. from (either back h))
  where
    either : {A B C : Type 0} → (B → C) → A ⊎ B → A ⊎ C
    either f (inl a) = inl a
    either f (inr b) = inr (f b)

token_of_iff :
    (scheme rest token : Text)
    → (token_of (scheme, rest) ≡ ok (some token)) ↔ (IsScheme scheme × (token ≡ trim_ascii rest))
token_of_iff scheme rest token =
    let (to, from) = IsScheme-iff scheme in
    (λ h. (to (ground arith), ground arith), λ h. let e = from h.0 in let t = h.1 in ground arith)

header_sound :
    (header token : Text) (split : Option (Text × Text))
    → split_once 32 header ≡ split
    → token_of (scheme_and_token header split) ≡ ok (some token)
    → Holds header token
header_sound header token none e h =
    inl (Lacks-of_none 32 header e, ((token_of_iff [] header token).0 h).1)
header_sound header token (some (scheme, rest)) e h =
    let (whole, lacks) = split_once_sound 32 header scheme rest e in
    let (good, same) = (token_of_iff scheme rest token).0 h in
    inr (scheme, rest, whole, lacks, good, same)

header_complete :
    (header token : Text)
    → Holds header token
    → token_of (scheme_and_token header (split_once 32 header)) ≡ ok (some token)
header_complete header token (inl h) =
    rw (split_once-none 32 header h.0) ((token_of_iff [] header token).1 (inr refl, h.1))
header_complete header token (inr (scheme, rest, whole, lacks, good, same)) =
    rw whole
      (rw (split_once-some 32 scheme rest lacks) ((token_of_iff scheme rest token).1 (good, same)))

-- A header holds a token exactly when it has no space and is the token, or has the token behind a
-- space with `Bearer`, in any case, or nothing in front; ASCII white space around it is cut off.
pub optional_from_request_parts_iff :
    (header token : Text)
    → (optional_from_request_parts (some (some header)) ≡ ok (some token)) ↔ Holds header token
unfolding optional_from_request_parts
optional_from_request_parts_iff header token =
    (header_sound header token (split_once 32 header) refl, header_complete header token)
