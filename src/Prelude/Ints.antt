-- ===== src/Prelude/Ints.antt =====
-- Signed integers, and `str::parse::<i32>`.
use Prim.Native.Nat.{ℕ, ◌+◌, ◌-◌, ◌*◌}
use mathlib.Core.Option.{Option, none, some}
use mathlib.Core.List.{[], ◌∷◌}
use crates_io.Prelude.Tests.{leb, ◌==◌, if◌then◌else◌}
use crates_io.Prelude.Texts.{Text, is_ascii_digit}

-- `negsuc n` is -(n + 1).
pub data ℤ : Type 0 where
  pos : ℕ → ℤ
  negsuc : ℕ → ℤ

-- The value of decimal digits behind a value; no other character is accepted.
unfoldable pub digits_from : ℕ → Text → Option ℕ
digits_from acc [] = some acc
digits_from acc (c ∷ s) = if is_ascii_digit c then digits_from (acc * 10 + (c - b'0')) s else none

unfoldable pub parse_digits : Text → Option ℕ
unfolding digits_from
parse_digits [] = none
parse_digits (c ∷ s) = digits_from 0 (c ∷ s)

abbrev in_i32 : Option ℕ → Option ℤ
in_i32 none = none
in_i32 (some n) = if leb n 2147483647 then some (pos n) else none

abbrev in_negated_i32 : Option ℕ → Option ℤ
in_negated_i32 none = none
in_negated_i32 (some n) =
    if n == 0 then some (pos 0) else if leb n 2147483648 then some (negsuc (n - 1)) else none

-- An optional sign, then digits, and a value in range.
unfoldable pub parse_i32 : Text → Option ℤ
unfolding parse_digits
parse_i32 [] = none
parse_i32 (c ∷ s) =
    if c == b'-'
    then in_negated_i32 (parse_digits s)
    else in_i32 (if c == b'+' then parse_digits s else parse_digits (c ∷ s))
