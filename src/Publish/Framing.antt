-- ===== src/Publish/Framing.antt =====
-- The body of a publish request, written and read.
use crates_io.Prelude.{
  ℕ, zero, suc, ◌/◌, ◌%◌, ◌≤◌, ◌≡◌, refl, ◌∙◌, ap, subst, Text, Option, none, some, List, [], ◌∷◌,
  ◌++◌, false, Result, ok, ltb, length, arith, append-nil, if-eq-ok, >>=-eq-ok,
}
use crates_io.Errors.{AppError}
use crates_io.Publish.Body.{
  Reader, PublishMetadata, decode_u32_le, read_u32_le, cons_front, split_bytes, with_rest,
  read_exact, ok_or, short_read, read_json_metadata, read_tarball_bytes,
}

-- The four bytes of a number, the lowest first.
abbrev pub encode_u32_le : ℕ → List ℕ
encode_u32_le n = n % 256 ∷ n / 256 % 256 ∷ n / 65536 % 256 ∷ n / 16777216 ∷ []

-- The body that cargo sends.
abbrev pub encode_body : List ℕ → List ℕ → List ℕ
encode_body json tarball =
    encode_u32_le (length json) ++ (json ++ (encode_u32_le (length tarball) ++ tarball))

decode-encode :
    (n : ℕ) → decode_u32_le (n % 256) (n / 256 % 256) (n / 65536 % 256) (n / 16777216) ≡ n
decode-encode n = omega arith

split_bytes-append :
    (front rest : List ℕ) → split_bytes (length front) (front ++ rest) ≡ some (front, rest)
unfolding split_bytes
split_bytes-append [] rest = refl
split_bytes-append (x ∷ front) rest = rw (split_bytes-append front rest) refl

cons_front-some :
    (x : ℕ) (o : Option (List ℕ × List ℕ)) (front rest : List ℕ)
    → cons_front x o ≡ some (front, rest)
    → (f : List ℕ) × (front ≡ x ∷ f) × (o ≡ some (f, rest))
cons_front-some x none front rest h = cc
cons_front-some x (some (f, r)) front rest h = (f, cc, cc)

split_bytes-length :
    (n : ℕ) (bytes front rest : List ℕ)
    → split_bytes n bytes ≡ some (front, rest)
    → length front ≡ n
unfolding split_bytes
split_bytes-length zero bytes front rest h = ground arith
split_bytes-length (suc n) [] front rest h = cc
split_bytes-length (suc n) (x ∷ bytes) front rest h =
    let (f, e, k) = cons_front-some x (split_bytes n bytes) front rest h in
    ap length e ∙ ap suc (split_bytes-length n bytes f rest k)

ltb-le : (m n : ℕ) → n ≤ m → ltb m n ≡ false
ltb-le m n h = ground arith

read_json_metadata-encoded :
    (from_slice : List ℕ → Result PublishMetadata Text) (max_length : ℕ) (json rest : List ℕ)
    (metadata : PublishMetadata)
    → length json ≤ max_length
    → from_slice json ≡ ok metadata
    → read_json_metadata from_slice max_length
        (record { bytes = encode_u32_le (length json) ++ (json ++ rest); breaks_off = false })
      ≡ ok (metadata, record { bytes = rest; breaks_off = false })
unfolding read_json_metadata read_u32_le read_exact
read_json_metadata-encoded from_slice max_length json rest metadata h e =
    rw
      (decode-encode (length json), ltb-le max_length (length json) h, split_bytes-append json rest)
      (rw e refl)

read_tarball_bytes-encoded :
    (max_length : ℕ) (tarball : List ℕ)
    → length tarball ≤ max_length
    → read_tarball_bytes max_length
        (record { bytes = encode_u32_le (length tarball) ++ tarball; breaks_off = false })
      ≡ ok (tarball, record { bytes = []; breaks_off = false })
unfolding read_tarball_bytes read_u32_le read_exact
read_tarball_bytes-encoded max_length tarball h =
    let split : split_bytes (length tarball) tarball ≡ some (tarball, []) =
      subst (λ t. split_bytes (length tarball) t ≡ some (tarball, [])) (append-nil tarball)
        (split_bytes-append tarball []) in
    rw (decode-encode (length tarball), ltb-le max_length (length tarball) h, split) refl

-- A body with metadata and a tarball that are no longer than their limits is read back: the parsed
-- metadata, then the tarball, with nothing left.
pub read-encode_body :
    (from_slice : List ℕ → Result PublishMetadata Text) (max_json max_tarball : ℕ)
    (json tarball : List ℕ) (metadata : PublishMetadata)
    → length json ≤ max_json
    → length tarball ≤ max_tarball
    → from_slice json ≡ ok metadata
    → (rest : Reader) × (read_json_metadata from_slice max_json
          (record { bytes = encode_body json tarball; breaks_off = false })
        ≡ ok (metadata, rest))
      × (read_tarball_bytes max_tarball rest
          ≡ ok (tarball, record { bytes = []; breaks_off = false }))
read-encode_body from_slice max_json max_tarball json tarball metadata h k e = (
  record { bytes = encode_u32_le (length tarball) ++ tarball; breaks_off = false },
  read_json_metadata-encoded from_slice max_json json (encode_u32_le (length tarball) ++ tarball)
      metadata h e,
  read_tarball_bytes-encoded max_tarball tarball k,
)

ok_or-ok : {A : Type 0} (o : Option A) (e : AppError) (a : A) → ok_or o e ≡ ok a → o ≡ some a
ok_or-ok none e a h = cc
ok_or-ok (some b) e a h = cc

with_rest-some :
    (reader : Reader) (o : Option (List ℕ × List ℕ)) (front : List ℕ) (rest : Reader)
    → with_rest reader o ≡ some (front, rest)
    → (r : List ℕ) × (o ≡ some (front, r))
with_rest-some reader none front rest h = cc
with_rest-some reader (some (f, r)) front rest h = (r, cc)

-- A tarball that is read is no longer than the limit.
pub read_tarball_bytes-le :
    (max_length : ℕ) (reader rest : Reader) (tarball : List ℕ)
    → read_tarball_bytes max_length reader ≡ ok (tarball, rest)
    → length tarball ≤ max_length
unfolding read_tarball_bytes read_exact
read_tarball_bytes-le max_length reader rest tarball h =
    let ((n, reader'), first, next) =
      >>=-eq-ok (ok_or (read_u32_le reader) (short_read "invalid tarball length" [] reader)) _ h in
    let (fits, read) = if-eq-ok (ltb max_length n) _ _ (tarball, rest) next in
    let (r, split) =
      with_rest-some reader' (split_bytes n reader'.bytes) tarball rest
        (ok_or-ok _ _ (tarball, rest) read) in
    let long = split_bytes-length n reader'.bytes tarball r split in ground arith
