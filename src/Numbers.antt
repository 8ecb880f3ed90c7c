-- ===== src/Numbers.antt =====
-- src/libswish3/string.c: decimal numbers.
pub mod Decimal
use libswish.Prelude.{
  ℕ, zero, suc, ◌+◌, ◌-◌, ◌*◌, ◌/◌, ◌%◌, ◌^◌, Bool, true, false, ◌&&◌, ◌||◌, [], ◌∷◌, Bytes, Run,
  ok, croak, ◌>>=◌, ◌>>◌, guard, if◌then◌else◌, ◌==◌, ltb, leb, drop, bad_number,
}
use libswish.Str.{at, skip_ws}

-- `negsuc n` is `- (n + 1)`.
pub data ℤ : Type 0 where
  pos : ℕ → ℤ
  negsuc : ℕ → ℤ

-- The digits that `strtol` reads.
unfoldable pub read_digits : ℕ → Bytes → ℕ
read_digits n [] = n
read_digits n (c ∷ s) = if leb 48 c && leb c 57 then read_digits (n * 10 + (c - 48)) s else n

-- The cast of a `long` to a 32-bit `int`, for a number and its negation.
unfoldable pub int_of : ℕ → ℤ
int_of n = let r = n % 2 ^ 32 in if ltb r (2 ^ 31) then ℤ.pos r else ℤ.negsuc (2 ^ 32 - 1 - r)

unfoldable pub int_of_neg : ℕ → ℤ
unfolding int_of
int_of_neg n = int_of (2 ^ 32 - n % 2 ^ 32)

-- `strtol` behind the white space, and the cast. A number that no 64-bit `long` holds ends the
-- program.
unfoldable pub signed_int : Bytes → Run ℤ
unfolding read_digits int_of int_of_neg
signed_int s =
    let digits = if at s 0 == 45 || at s 0 == 43 then drop 1 s else s in
    let n = read_digits 0 digits in
    if at s 0 == 45
    then guard (leb n (2 ^ 63)) bad_number >> ok (int_of_neg n)
    else guard (ltb n (2 ^ 63)) bad_number >> ok (int_of n)

unfoldable pub string_to_int : Bytes → Run ℤ
unfolding signed_int
string_to_int buf = signed_int (skip_ws buf)

-- The decimal digits that `%d` prints.
unfoldable pub digits_of : ℕ → ℕ → Bytes → Bytes
digits_of zero n acc = acc
digits_of (suc fuel) n acc =
    let acc' = (48 + n % 10) ∷ acc in
    let more = digits_of fuel (n / 10) acc' in if ltb n 10 then acc' else more

unfoldable pub int_to_string : ℤ → Bytes
unfolding digits_of
int_to_string (ℤ.pos n) = digits_of (n + 1) n []
int_to_string (ℤ.negsuc n) = 45 ∷ digits_of (n + 2) (n + 1) []
