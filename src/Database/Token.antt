-- ===== src/Database/Token.antt =====
-- crates/crates_io_database/src/models/token.rs and models/token/scopes.rs, and the tokens of
-- utils/token.rs. The SHA-256 digest is a parameter.
pub mod Scopes
pub mod Lookup
mod Tests
use crates_io.Prelude.{
  ℕ, Text, Option, none, some, List, [], ◌∷◌, Bool, true, false, not, ◌&&◌, codes, text_eq, Result,
  ok, err, if◌then◌else◌, is_empty, is_ok, is_some, strip_suffix_char, starts_with, map, ltb,
  String,
}
use crates_io.Validation.{validate_crate_name}

pub data EndpointScope : Type 0 where
  publish_new publish_update trusted_publishing yank change_owners : EndpointScope

-- `From<&EndpointScope> for &[u8]`
unfoldable pub to_bytes : EndpointScope → Text
to_bytes publish_new = codes "publish-new"
to_bytes publish_update = codes "publish-update"
to_bytes trusted_publishing = codes "trusted-publishing"
to_bytes yank = codes "yank"
to_bytes change_owners = codes "change-owners"

-- `TryFrom<&[u8]> for EndpointScope`
unfoldable pub try_from_bytes : Text → Result EndpointScope String
try_from_bytes bytes =
    if text_eq bytes (codes "publish-new")
    then ok publish_new
    else if text_eq bytes (codes "publish-update")
    then ok publish_update
    else if text_eq bytes (codes "trusted-publishing")
    then ok trusted_publishing
    else if text_eq bytes (codes "yank")
    then ok yank
    else if text_eq bytes (codes "change-owners")
    then ok change_owners
    else err "Unrecognized enum variant"

pub record CrateScope : Type 0 where
  pub pattern : Text

-- `pattern.strip_suffix('*').unwrap_or(pattern)`
abbrev pub without_wildcard : Text → Text
without_wildcard pattern = elim (strip_suffix_char b'*' pattern) [ none ↦ pattern | some p ↦ p ]

unfoldable pub is_valid_pattern : Text → Bool
is_valid_pattern pattern =
    if is_empty pattern
    then false
    else if text_eq pattern (codes "*")
    then true
    else is_ok (validate_crate_name (codes "crate") (without_wildcard pattern))

-- `TryFrom<&str> for CrateScope`, and `TryFrom<String>`.
unfoldable pub try_from : Text → Result CrateScope String
try_from pattern =
    if is_valid_pattern pattern
    then ok (record { pattern = pattern })
    else err "Invalid crate scope pattern"

unfoldable pub matches : CrateScope → Text → Bool
matches scope crate_name =
    if text_eq scope.pattern (codes "*")
    then true
    else elim (strip_suffix_char b'*' scope.pattern) [
      | some prefix ↦ starts_with prefix crate_name
      | none ↦ text_eq crate_name scope.pattern
    ]

-- `HashedToken::parse`: a token of another kind is rejected before it is hashed.
unfoldable pub parse_token : (Text → Text) → Text → Option Text
parse_token sha256 plaintext =
    if not (starts_with (codes "cio") plaintext) then none else some (sha256 plaintext)

-- A row of `api_tokens`; `token` is the digest.
pub record ApiToken : Type 0 where
  pub id : ℕ
  pub user_id : ℕ
  pub name : Text
  pub token : Text
  pub revoked : Bool
  pub crate_scopes : Option (List CrateScope)
  pub endpoint_scopes : Option (List EndpointScope)
  pub last_used_at : Option ℕ
  pub expired_at : Option ℕ

abbrev pub is_unexpired : ℕ → Option ℕ → Bool
is_unexpired now none = true
is_unexpired now (some t) = ltb now t

-- The filters of `find_by_api_token`.
abbrev pub is_usable : ℕ → Text → ApiToken → Bool
is_usable now token row =
    not row.revoked && is_unexpired now row.expired_at && text_eq row.token token

-- The update's `SET` on one row.
abbrev pub touch : ℕ → Text → ApiToken → ApiToken
touch now token row =
    if is_usable now token row then record row { last_used_at = some now } else row

unfoldable pub first_usable : ℕ → Text → List ApiToken → Option ApiToken
first_usable now token [] = none
first_usable now token (row ∷ rows) =
    if is_usable now token row then some row else first_usable now token rows

-- `ApiToken::find_by_api_token` on the rows of `api_tokens`: the update sets `last_used_at` and
-- returns the row; where it fails, as it does in a read-only database, the row is only read.
unfoldable pub find_by_api_token : Bool → ℕ → Text → List ApiToken → Option ApiToken × List ApiToken
unfolding first_usable
find_by_api_token true now token rows = (first_usable now token rows, rows)
find_by_api_token false now token rows =
    let updated = map (touch now token) rows in (first_usable now token updated, updated)
