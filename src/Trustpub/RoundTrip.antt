-- ===== src/Trustpub/RoundTrip.antt =====
-- Which texts are tokens of Trusted Publishing.
use crates_io.Prelude.{
  ℕ, suc, zero, ◌%◌, ◌≡◌, ◌≢◌, ◌<◌, refl, sym, ◌∙◌, ap, ◌↔◌, inl, inr, Text, Option, none, some, [],
  ◌∷◌, ◌++◌, Bool, true, false, not, Result, ok, err, all, strip_prefix, strip_prefix_sound,
  strip_prefix-append, is_ascii_alphanumeric, ◌==◌, if◌then◌else◌, byte_length, length, take, nth,
  arith, subst, length-append, Option-cases, ==_iff,
}
use crates_io.Trustpub.AccessToken.{
  AccessToken, AccessTokenError, prefix, raw_length, checksum, finalize, claimed_checksum,
  from_suffix, xor_bytes, alphanumeric, after_prefix, from_str, invalid_length, invalid_character,
  invalid_checksum,
}

-- A raw token: 31 letters and digits.
abbrev pub IsRaw : Text → Type 0
IsRaw raw = (length raw ≡ raw_length) × (all is_ascii_alphanumeric raw ≡ true)

byte_length-ascii : (s : Text) → all is_ascii_alphanumeric s ≡ true → byte_length s ≡ length s
byte_length-ascii [] h = refl
byte_length-ascii (c ∷ s) h = ground (arith, byte_length-ascii s)

two_items : (s : Text) → suc (suc (length s)) ≢ 1
two_items s h = omega (arith, h)

-- The last of `n + 1` items.
take-nth :
    (n : ℕ) (s : Text) → length s ≡ suc n → (c : ℕ) × (nth n s ≡ some c) × (s ≡ take n s ++ c ∷ [])
take-nth zero [] h = cc
take-nth zero (c ∷ []) h = (c, refl, refl)
take-nth zero (c ∷ (d ∷ s)) h = absurd (two_items s h)
take-nth (suc n) [] h = cc
take-nth (suc n) (x ∷ s) h =
    let (c, e, f) = take-nth n s (omega (arith, h)) in (c, e, ap (λ t. x ∷ t) f)

take-append : (a b : Text) → take (length a) (a ++ b) ≡ a
take-append [] b = refl
take-append (x ∷ a) b = ap (λ t. x ∷ t) (take-append a b)

nth-append : (a : Text) (c : ℕ) → nth (length a) (a ++ c ∷ []) ≡ some c
nth-append [] c = refl
nth-append (x ∷ a) c = nth-append a c

nth-all : (p : ℕ → Bool) (s : Text) (n c : ℕ) → all p s ≡ true → nth n s ≡ some c → p c ≡ true
nth-all p [] n c h e = cc
nth-all p (x ∷ s) zero c h e = ground arith
nth-all p (x ∷ s) (suc n) c h e = nth-all p s n c (ground arith) e

all-append : (p : ℕ → Bool) (a b : Text) → all p a ≡ true → all p b ≡ true → all p (a ++ b) ≡ true
all-append p [] b h k = k
all-append p (x ∷ a) b h k = ground (arith, all-append p a b)

all-take : (p : ℕ → Bool) (n : ℕ) (s : Text) → all p s ≡ true → all p (take n s) ≡ true
all-take p zero s h = refl
all-take p (suc n) [] h = refl
all-take p (suc n) (x ∷ s) h = ground (arith, all-take p n s)

length-take : (n : ℕ) (s : Text) → n < length s → length (take n s) ≡ n
length-take zero s h = refl
length-take (suc n) [] h = omega (arith, h)
length-take (suc n) (x ∷ s) h = ap suc (length-take n s (omega (arith, h)))

checksum-alphanumeric : (raw : Text) → is_ascii_alphanumeric (checksum raw) ≡ true
unfolding checksum
checksum-alphanumeric raw =
    elim (Option-cases (nth (xor_bytes 0 raw % length alphanumeric) alphanumeric)) [
      | inl e ↦ rw e refl
      | inr (c, e) ↦ rw e (
          nth-all is_ascii_alphanumeric alphanumeric (xor_bytes 0 raw % length alphanumeric) c refl
            e)
    ]

guarded-ok :
    {A : Type 0} {E : Type 0} (b : Bool) (e : E) (r : Option (Result A E)) (a : A)
    → (if not b then some (err e) else r) ≡ some (ok a)
    → (b ≡ true) × (r ≡ some (ok a))
guarded-ok true e r a h = (refl, h)
guarded-ok false e r a h = cc

checked-ok :
    (b : Bool) (e : AccessTokenError) (t u : AccessToken)
    → (if not b then err e else ok t) ≡ ok u
    → (b ≡ true) × (t ≡ u)
checked-ok true e t u h = (refl, cc)
checked-ok false e t u h = cc

claimed_checksum-ok :
    (raw' : Text) (o : Option ℕ) (c : ℕ) (raw : Text)
    → o ≡ some c
    → claimed_checksum raw' o ≡ some (ok (record { raw = raw }))
    → (raw' ≡ raw) × (c ≡ checksum raw)
claimed_checksum-ok raw' none c raw e h = cc
claimed_checksum-ok raw' (some d) c raw e h =
    let (same, tokens) =
      checked-ok (d == checksum raw') (invalid_checksum d (checksum raw')) (record { raw = raw' })
        (record { raw = raw }) cc in
    let raws : raw' ≡ raw = ap (λ t. t.raw) tokens in
    let digits : d ≡ c = cc in
    (raws, sym digits ∙ ((==_iff d (checksum raw')).0 same ∙ ap checksum raws))

-- Every check on the way to a token was passed.
from_suffix-ok :
    (suffix raw : Text)
    → from_suffix suffix ≡ some (ok (record { raw = raw }))
    → IsRaw raw × (suffix ≡ raw ++ checksum raw ∷ [])
from_suffix-ok suffix raw h =
    let (long, h₁) =
      guarded-ok (byte_length suffix == 32) invalid_length _ (record { raw = raw }) h in
    let (ascii, h₂) =
      guarded-ok (all is_ascii_alphanumeric suffix) invalid_character _ (record { raw = raw }) h₁ in
    let n : length suffix ≡ 32 =
      sym (byte_length-ascii suffix ascii) ∙ (==_iff (byte_length suffix) 32).0 long in
    let (c, at, split) = take-nth 31 suffix n in
    let (raws, sums) = claimed_checksum-ok (take 31 suffix) (nth 31 suffix) c raw at h₂ in
    (
      (
        subst (λ r. length r ≡ 31) raws (length-take 31 suffix (omega (arith, n))),
        subst (λ r. all is_ascii_alphanumeric r ≡ true) raws
            (all-take is_ascii_alphanumeric 31 suffix ascii),
      ),
      split ∙ (ap (λ r. r ++ c ∷ []) raws ∙ ap (λ d. raw ++ d ∷ []) sums),
    )

from_suffix-finalized :
    (raw : Text)
    → IsRaw raw
    → from_suffix (raw ++ checksum raw ∷ []) ≡ some (ok (record { raw = raw }))
from_suffix-finalized raw (n, ascii) =
    let c = checksum raw in
    let all_ascii : all is_ascii_alphanumeric (raw ++ c ∷ []) ≡ true =
      all-append is_ascii_alphanumeric raw (c ∷ []) ascii
        (ground (arith, checksum-alphanumeric raw)) in
    let long : byte_length (raw ++ c ∷ []) ≡ 32 =
      byte_length-ascii (raw ++ c ∷ []) all_ascii ∙ omega (arith, length-append raw (c ∷ []), n) in
    let front : take 31 (raw ++ c ∷ []) ≡ raw =
      subst (λ k. take k (raw ++ c ∷ []) ≡ raw) n (take-append raw (c ∷ [])) in
    let last : nth 31 (raw ++ c ∷ []) ≡ some c =
      subst (λ k. nth k (raw ++ c ∷ []) ≡ some c) n (nth-append raw c) in
    rw (long, all_ascii, front, last, (==_iff c c).1 refl) refl

-- A text is parsed to a token exactly when the token is 31 ASCII letters or digits and the text
-- is the one that the token is written as, the prefix, the token and its checksum.
pub from_str-ok_iff :
    (s raw : Text)
    → (from_str s ≡ some (ok (record { raw = raw })))
      ↔ (IsRaw raw × (s ≡ finalize (record { raw = raw })))
unfolding from_str finalize
from_str-ok_iff s raw = (to, from)
  where
    by_suffix :
        (o : Option Text)
        → strip_prefix prefix s ≡ o
        → after_prefix o ≡ some (ok (record { raw = raw }))
        → IsRaw raw × (s ≡ prefix ++ (raw ++ checksum raw ∷ []))
    by_suffix none e h = cc
    by_suffix (some suffix) e h =
        let (is_raw, parts) = from_suffix-ok suffix raw h in
        (is_raw, strip_prefix_sound prefix s suffix e ∙ ap (λ t. prefix ++ t) parts)

    to :
        from_str s ≡ some (ok (record { raw = raw }))
        → IsRaw raw × (s ≡ finalize (record { raw = raw }))
    to h = by_suffix (strip_prefix prefix s) refl h

    from :
        IsRaw raw × (s ≡ finalize (record { raw = raw }))
        → from_str s ≡ some (ok (record { raw = raw }))
    from (is_raw, e) =
        rw (e, strip_prefix-append prefix (raw ++ checksum raw ∷ []))
          (from_suffix-finalized raw is_raw)
