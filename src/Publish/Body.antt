-- ===== src/Publish/Body.antt =====
-- src/controllers/krate/publish.rs, the body of a request: metadata in JSON and a tarball, each
-- behind its length in four bytes, the lowest first. The JSON parser is a parameter.
use crates_io.Prelude.{
  ℕ, zero, suc, ◌+◌, ◌*◌, Text, Option, none, some, List, [], ◌∷◌, Bool, Result, ok, err, ltb,
  if◌then◌else◌, String, map_err, ◌>>=◌,
}
use crates_io.Errors.{AppError, AppResult, bad_request, custom, internal}

-- What the stream of the body still yields, and whether it then breaks off with an error other
-- than the end of the body.
pub record Reader : Type 0 where
  pub bytes : List ℕ
  pub breaks_off : Bool

pub record PublishMetadata : Type 0 where
  pub name : Text
  pub vers : Text
  pub readme : Option Text
  pub readme_file : Option Text

-- The error of a read that gets too few bytes.
abbrev pub short_read : String → List Text → Reader → AppError
short_read detail args reader =
    if reader.breaks_off then internal "{error}" [] else bad_request detail args

abbrev pub decode_u32_le : ℕ → ℕ → ℕ → ℕ → ℕ
decode_u32_le a b c d = a + 256 * b + 65536 * c + 16777216 * d

unfoldable pub read_u32_le : Reader → Option (ℕ × Reader)
read_u32_le reader = elim reader.bytes [
  | a ∷ b ∷ c ∷ d ∷ rest ↦ some (decode_u32_le a b c d, record reader { bytes = rest })
  | _ ↦ none
]

abbrev pub cons_front : ℕ → Option (List ℕ × List ℕ) → Option (List ℕ × List ℕ)
cons_front x none = none
cons_front x (some (front, rest)) = some (x ∷ front, rest)

unfoldable pub split_bytes : ℕ → List ℕ → Option (List ℕ × List ℕ)
split_bytes zero bytes = some ([], bytes)
split_bytes (suc n) [] = none
split_bytes (suc n) (x ∷ bytes) = cons_front x (split_bytes n bytes)

abbrev pub with_rest : Reader → Option (List ℕ × List ℕ) → Option (List ℕ × Reader)
with_rest reader none = none
with_rest reader (some (front, rest)) = some (front, record reader { bytes = rest })

unfoldable pub read_exact : ℕ → Reader → Option (List ℕ × Reader)
unfolding split_bytes
read_exact n reader = with_rest reader (split_bytes n reader.bytes)

abbrev pub ok_or {ℓ} : {A : Type ℓ} → Option A → AppError → AppResult A
ok_or none e = err e
ok_or (some a) e = ok a

-- `read_json_metadata`
unfoldable pub read_json_metadata :
    (List ℕ → Result PublishMetadata Text) → ℕ → Reader → AppResult (PublishMetadata × Reader)
unfolding read_u32_le read_exact
read_json_metadata from_slice max_length reader = do
  (json_len, reader) ← ok_or (read_u32_le reader) (short_read "invalid metadata length" [] reader)
  (json_bytes, rest) ←
      if ltb max_length json_len
      then err (custom 413 "JSON metadata blob too large" [])
      else ok_or (read_exact json_len reader) (
          short_read "invalid metadata length for remaining payload: {json_len}"
            ((json_len ∷ []) ∷ []) reader)
  metadata ←
      map_err (λ e. bad_request "invalid upload request: {e}" (e ∷ [])) (from_slice json_bytes)
  ok (metadata, rest)

-- `read_tarball_bytes`
unfoldable pub read_tarball_bytes : ℕ → Reader → AppResult (List ℕ × Reader)
unfolding read_u32_le read_exact
read_tarball_bytes max_length reader = do
  (tarball_len, reader) ← ok_or (read_u32_le reader) (short_read "invalid tarball length" [] reader)
  if ltb max_length tarball_len
      then err (custom 413 "max upload size is: {max_length}" ((max_length ∷ []) ∷ []))
      else ok_or (read_exact tarball_len reader) (
          short_read "invalid tarball length for remaining payload: {tarball_len}"
            ((tarball_len ∷ []) ∷ []) reader)
