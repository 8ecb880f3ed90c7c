-- ===== src/Numbers/Decimal.antt =====
-- A number that is printed is read back.
use libswish.Ctype.{is_space}
use libswish.Numbers.{
  ℤ, read_digits, int_of, int_of_neg, signed_int, string_to_int, digits_of, int_to_string,
}
use libswish.Prelude.{
  ℕ, zero, suc, ◌+◌, ◌/◌, ◌%◌, ◌^◌, ◌<◌, ◌≤◌, ◌≡◌, refl, ◌∙◌, sym, ap, true, false, [], ◌∷◌, Bytes,
  ok, ltb, arith, ◌⊎◌, inl, inr,
}
use libswish.Str.{skip_ws}

read_digits-digits_of :
    (fuel n : ℕ) (acc : Bytes) → n < fuel → read_digits 0 (digits_of fuel n acc) ≡ read_digits n acc
unfolding read_digits digits_of
read_digits-digits_of zero n acc h = absurd (omega arith)
read_digits-digits_of (suc fuel) n acc h =
    ground (arith, read_digits-digits_of fuel (n / 10) ((48 + n % 10) ∷ acc))

-- The digits are there: the first is a byte from '0' to '9'.
record StartsInDigit (s : Bytes) : Type 0 where
  first : ℕ
  rest : Bytes
  is : s ≡ first ∷ rest
  low : 48 ≤ first
  high : first ≤ 57

digits_of-StartsInDigit :
    (fuel n : ℕ) (acc : Bytes) → n < fuel → StartsInDigit (digits_of fuel n acc)
unfolding digits_of
digits_of-StartsInDigit zero n acc h = absurd (omega arith)
digits_of-StartsInDigit (suc fuel) n acc h = elim (ten n) [
  | inl small ↦
      rw small (record {
        first = 48 + n % 10;
        rest = acc;
        is = refl;
        low = omega arith;
        high = omega arith;
      })
  | inr (big, less) ↦
      rw big (digits_of-StartsInDigit fuel (n / 10) ((48 + n % 10) ∷ acc) (omega arith))
]
  where
    ten : (m : ℕ) → (ltb m 10 ≡ true) ⊎ ((ltb m 10 ≡ false) × (10 ≤ m))
    ten m = ground arith

-- The numbers of a 32-bit `int`.
abbrev pub IsInt : ℤ → Type 0
IsInt (ℤ.pos n) = n < 2 ^ 31
IsInt (ℤ.negsuc n) = n < 2 ^ 31

int_of_small : (n : ℕ) → n < 2147483648 → int_of n ≡ ℤ.pos n
unfolding int_of
int_of_small n h = ground arith

int_of_neg_small : (n : ℕ) → n < 2147483648 → int_of_neg (n + 1) ≡ ℤ.negsuc n
unfolding int_of_neg int_of
int_of_neg_small n h = ground arith

signed_int_pos :
    (c n : ℕ) (s : Bytes)
    → 48 ≤ c
    → read_digits 0 (c ∷ s) ≡ n
    → n < 2147483648
    → signed_int (c ∷ s) ≡ ok (ℤ.pos n)
unfolding signed_int
signed_int_pos c n s lo e h = ground (arith, e, int_of_small n h)

signed_int_neg :
    (n : ℕ) (s : Bytes)
    → read_digits 0 s ≡ n + 1
    → n < 2147483648
    → signed_int (45 ∷ s) ≡ ok (ℤ.negsuc n)
unfolding signed_int
signed_int_neg n s e h = ground (arith, e, int_of_neg_small n h)

skip_ws_ink : (c : ℕ) (s : Bytes) → 45 ≤ c → skip_ws (c ∷ s) ≡ c ∷ s
unfolding skip_ws is_space
skip_ws_ink c s h = ground arith

read_back :
    (s : Bytes) (n : ℕ)
    → StartsInDigit s
    → read_digits 0 s ≡ n
    → n < 2147483648
    → string_to_int s ≡ ok (ℤ.pos n)
unfolding string_to_int
read_back s n d value h =
    ap string_to_int d.is
    ∙ ap signed_int (skip_ws_ink d.first d.rest (omega (arith, d.low)))
    ∙ signed_int_pos d.first n d.rest d.low (ap (read_digits 0) (sym d.is) ∙ value) h

-- Every 32-bit number that is printed in decimal is read back as itself.
pub string_to_int-int_to_string : (n : ℤ) → IsInt n → string_to_int (int_to_string n) ≡ ok n
unfolding string_to_int int_to_string
string_to_int-int_to_string (ℤ.pos n) h =
    read_back (digits_of (n + 1) n []) n (digits_of-StartsInDigit (n + 1) n [] (omega arith))
      (read_digits-digits_of (n + 1) n [] (omega arith)) h
string_to_int-int_to_string (ℤ.negsuc n) h =
    rw (skip_ws_ink 45 (digits_of (n + 2) (n + 1) []) (omega arith)) (
      signed_int_neg n (digits_of (n + 2) (n + 1) [])
        (read_digits-digits_of (n + 2) (n + 1) [] (omega arith)) h)
