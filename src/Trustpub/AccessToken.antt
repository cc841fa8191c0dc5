-- ===== src/Trustpub/AccessToken.antt =====
-- crates/crates_io_trustpub/src/access_token.rs: the text of a token and what it is parsed to. The
-- random characters of a new token are not modelled.
use Prim.Native.Nat.{bit_xor}
use crates_io.Prelude.{
  ℕ, suc, ◌%◌, Text, Option, none, some, [], ◌∷◌, ◌++◌, not, codes, Result, ok, err, all,
  strip_prefix, is_ascii_alphanumeric, ◌==◌, if◌then◌else◌, byte_length, length, take, nth,
}

-- The raw token, without prefix and checksum.
pub record AccessToken : Type 0 where
  pub raw : Text

pub data AccessTokenError : Type 0 where
  missing_prefix invalid_length invalid_character : AccessTokenError
  invalid_checksum : ℕ → ℕ → AccessTokenError

abbrev pub prefix : Text
prefix = codes "cio_tp_"

abbrev pub raw_length : ℕ
raw_length = 31

abbrev pub alphanumeric : Text
alphanumeric = codes "ABCDEFGHIJKLMNOPQRSTUVWXYZabcdefghijklmnopqrstuvwxyz0123456789"

-- The fold of the bytes.
unfoldable pub xor_bytes : ℕ → Text → ℕ
xor_bytes acc [] = acc
xor_bytes acc (b ∷ raw) = xor_bytes (bit_xor acc b) raw

abbrev or_zero : Option ℕ → ℕ
or_zero none = b'0'
or_zero (some c) = c

unfoldable pub checksum : Text → ℕ
checksum raw = or_zero (nth (xor_bytes 0 raw % length alphanumeric) alphanumeric)

unfoldable pub finalize : AccessToken → Text
finalize token = prefix ++ (token.raw ++ checksum token.raw ∷ [])

abbrev pub compare_checksum : Text → ℕ → ℕ → Result AccessToken AccessTokenError
compare_checksum raw claimed actual =
    if not (claimed == actual)
    then err (invalid_checksum claimed actual)
    else ok (record { raw = raw })

-- From the text behind the prefix on; `none` is the panic of `unwrap`.
abbrev pub claimed_checksum : Text → Option ℕ → Option (Result AccessToken AccessTokenError)
claimed_checksum raw none = none
claimed_checksum raw (some c) = some (compare_checksum raw c (checksum raw))

abbrev pub from_suffix : Text → Option (Result AccessToken AccessTokenError)
from_suffix suffix =
    if not (byte_length suffix == suc raw_length)
    then some (err invalid_length)
    else if not (all is_ascii_alphanumeric suffix)
    then some (err invalid_character)
    else claimed_checksum (take raw_length suffix) (nth raw_length suffix)

abbrev pub after_prefix : Option Text → Option (Result AccessToken AccessTokenError)
after_prefix none = some (err missing_prefix)
after_prefix (some suffix) = from_suffix suffix

-- `FromStr::from_str`
unfoldable pub from_str : Text → Option (Result AccessToken AccessTokenError)
from_str s = after_prefix (strip_prefix prefix s)
