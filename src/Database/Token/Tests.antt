-- ===== src/Database/Token/Tests.antt =====
-- Scopes and tokens at concrete values, some from the tests of token/scopes.rs.
use crates_io.Prelude.{
  ◌≡◌, refl, ◌↔◌, true, false, none, some, [], ◌∷◌, arith, codes, map, text_eq, strip_suffix_char,
  starts_with, ok,
}
use crates_io.Validation.{validate_crate_name, validate_create_ident, check_chars}
use crates_io.Database.Token.{
  yank, CrateScope, is_valid_pattern, try_from, matches, ApiToken, find_by_api_token, parse_token,
}
use crates_io.Database.Token.Scopes.{
  Pattern, prefix, text_of, IsPattern, Selects, try_from_iff, matches_iff,
}
use crates_io.Database.Token.Lookup.{erase, find_by_api_token-writes}

abbrev tokio : CrateScope
tokio = record { pattern = codes "tokio-*" }

patterns :
    (is_valid_pattern (codes "foo*") ≡ true)
    × (is_valid_pattern (codes "*") ≡ true)
    × (is_valid_pattern (codes "**") ≡ false)
    × (is_valid_pattern (codes "fo*o") ≡ false)
    × (is_valid_pattern [] ≡ false)
    × (matches tokio (codes "tokio-console") ≡ true)
    × (matches tokio (codes "tokio") ≡ false)
unfolding is_valid_pattern matches validate_crate_name validate_create_ident check_chars text_eq
    strip_suffix_char starts_with
patterns = (refl, refl, refl, refl, refl, refl, refl)

token_prefix :
    (parse_token (λ s. s) (codes "cioabc") ≡ some (codes "cioabc"))
    × (parse_token (λ s. s) (codes "abc") ≡ none)
unfolding parse_token starts_with
token_prefix = (refl, refl)

abbrev row : ApiToken
row = record {
  id = 7;
  user_id = 3;
  name = codes "ci";
  token = codes "digest";
  revoked = false;
  crate_scopes = some (tokio ∷ []);
  endpoint_scopes = some (yank ∷ []);
  last_used_at = none;
  expired_at = some 50;
}

abbrev used : ApiToken
used = record row { last_used_at = some 20 }

lookups :
    (find_by_api_token false 20 (codes "digest") (row ∷ []) ≡ (some used, used ∷ []))
    × (find_by_api_token true 20 (codes "digest") (row ∷ []) ≡ (some row, row ∷ []))
    × (find_by_api_token false 50 (codes "digest") (row ∷ []) ≡ (none, row ∷ []))
unfolding find_by_api_token text_eq
lookups = (refl, refl, refl)

try_from_iff_example : (try_from (codes "tokio-*") ≡ ok tokio) ↔ (
    (codes "tokio-*" ≡ codes "tokio-*")
    × ((p : Pattern) × (text_of p ≡ codes "tokio-*") × IsPattern p))
try_from_iff_example = try_from_iff (codes "tokio-*") tokio

matches_iff_example :
    (matches tokio (codes "tokio-console") ≡ true)
    ↔ Selects (prefix (codes "tokio-")) (codes "tokio-console")
matches_iff_example = matches_iff (prefix (codes "tokio-")) (codes "tokio-console") tokio_name
  where
    tokio_name : IsPattern (prefix (codes "tokio-"))
    tokio_name = omega arith

find_by_api_token-writes_example :
    (map erase (find_by_api_token true 20 (codes "digest") (row ∷ [])).1 ≡ map erase (row ∷ []))
    × (true ≡ true → (find_by_api_token true 20 (codes "digest") (row ∷ [])).1 ≡ row ∷ [])
find_by_api_token-writes_example = find_by_api_token-writes true 20 (codes "digest") (row ∷ [])
