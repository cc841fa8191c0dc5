-- ===== src/Trustpub/Tests.antt =====
-- The token of the source's own tests.
use crates_io.Prelude.{◌≡◌, refl, codes, some, ok, err, strip_prefix}
use crates_io.Trustpub.AccessToken.{
  AccessToken, from_str, finalize, checksum, xor_bytes, invalid_checksum, invalid_character,
  invalid_length, missing_prefix,
}
use crates_io.Trustpub.RoundTrip.{from_str-ok_iff}

abbrev example : AccessToken
example = record { raw = codes "gGK6jurSwKyl9V3Az19z7YEFQI9aoOO" }

finalizes : finalize example ≡ codes "cio_tp_gGK6jurSwKyl9V3Az19z7YEFQI9aoOOd"
unfolding finalize checksum xor_bytes
finalizes = refl

refuses :
    (from_str (codes "cio_tp_00000000000000000000000000000000")
      ≡ some (err (invalid_checksum b'0' b'w')))
    × (from_str (codes "cio_tp_000000@0000000000000000000000000") ≡ some (err invalid_character))
    × (from_str (codes "cio_tp_invalid_token") ≡ some (err invalid_length))
    × (from_str (codes "invalid_token") ≡ some (err missing_prefix))
unfolding from_str checksum xor_bytes strip_prefix
refuses = (refl, refl, refl, refl)

from_str-ok_iff_example :
    from_str (codes "cio_tp_gGK6jurSwKyl9V3Az19z7YEFQI9aoOOd") ≡ some (ok example)
unfolding finalize checksum xor_bytes
from_str-ok_iff_example =
    (from_str-ok_iff (codes "cio_tp_gGK6jurSwKyl9V3Az19z7YEFQI9aoOOd") example.raw).1
      ((refl, refl), refl)
