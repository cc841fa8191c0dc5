-- ===== src/Errors.antt =====
-- src/util/errors.rs and src/util/errors/json.rs: the errors that a handler returns.
-- An error's detail is its format string with the texts that fill the string in.
use crates_io.Prelude.{ℕ, String, List, [], ◌∷◌, Text, Result, Option, none, some}

pub data AppError : Type 0 where
  -- `custom`: the response's status code and the detail.
  custom : ℕ → String → List Text → AppError
  -- `InternalAppError`, and every error of a library that is boxed as it is.
  internal : String → List Text → AppError
  insecurely_generated_token_revoked : AppError
  -- `TooManyRequests`: the action's number and the time to retry after.
  too_many_requests : ℕ → ℕ → AppError

abbrev pub AppResult {ℓ} : Type ℓ → Type ℓ
AppResult A = Result A AppError

abbrev pub bad_request : String → List Text → AppError
bad_request = custom 400

abbrev pub forbidden : String → AppError
forbidden detail = custom 403 detail []

abbrev pub not_found : AppError
not_found = custom 404 "Not Found" []

abbrev pub crate_not_found : Text → AppError
crate_not_found krate = custom 404 "crate `{krate}` does not exist" (krate ∷ [])

abbrev pub version_not_found : Text → Text → AppError
version_not_found krate version =
    custom 404 "crate `{krate}` does not have a version `{version}`" (krate ∷ version ∷ [])

-- The date is left to the format string: only whether there is one matters here.
abbrev pub account_locked : Text → Option ℕ → AppError
account_locked reason none =
    custom 403 "This account is indefinitely locked. Reason: {reason}" (reason ∷ [])
account_locked reason (some until) =
    custom 403 "This account is locked until {until}. Reason: {reason}" ((until ∷ []) ∷ reason ∷ [])

-- The status code of `AppError::response`.
unfoldable pub status : AppError → ℕ
status (custom code detail args) = code
status (internal detail args) = 500
status insecurely_generated_token_revoked = 401
status (too_many_requests action retry_after) = 429
