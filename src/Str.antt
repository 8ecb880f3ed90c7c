-- ===== src/Str.antt =====
-- src/libswish3/string.c: white space, case, code points and Booleans.
pub mod Whitespace
pub mod Letters
use libswish.Ctype.{is_space, to_lower}
use libswish.Prelude.{
  ℕ, zero, suc, ◌+◌, ◌-◌, ◌*◌, Bool, true, false, not, ◌&&◌, ◌||◌, List, [], ◌∷◌, map, Option, none,
  some, ltb, leb, ◌==◌, if◌then◌else◌, length, take, drop, Bytes, Run, ok, croak, ◌>>=◌, bad_utf8,
}

-- `s[i]`; the byte behind the last one is the NUL.
abbrev pub at : Bytes → ℕ → ℕ
at [] i = 0
at (c ∷ s) zero = c
at (c ∷ s) (suc i) = at s i

unfoldable pub skip_ws : Bytes → Bytes
skip_ws [] = []
skip_ws (c ∷ s) = if is_space c then skip_ws s else c ∷ s

-- The loop of `swish_str_trim_ws`; a NUL written at `i` cuts the string there.
unfoldable pub trim_from : ℕ → Bytes → Bytes
trim_from zero s = s
trim_from (suc i) s = elim (is_space (at s i)) [ true ↦ trim_from i (take i s) | false ↦ s ]

unfoldable pub trim_ws : Bytes → Bytes
unfolding trim_from
trim_ws s = trim_from (length s) s

unfoldable pub all_ws_len : Bytes → ℕ → Bool
all_ws_len s zero = true
all_ws_len [] (suc n) = false
all_ws_len (c ∷ s) (suc n) = if not (is_space c) then false else all_ws_len s n

unfoldable pub all_ws : Bytes → Bool
unfolding all_ws_len
all_ws s = all_ws_len s (length s)

-- The loop of `swish_is_ascii`.
unfoldable pub all_below_0x80 : Bytes → Bool
all_below_0x80 [] = true
all_below_0x80 (c ∷ s) = if leb 0x80 c then false else all_below_0x80 s

unfoldable pub is_ascii : Bytes → Bool
unfolding all_below_0x80
is_ascii [] = false
is_ascii s = all_below_0x80 s

unfoldable pub ctrl_to_ws : Bytes → Bytes
unfolding is_ascii
ctrl_to_ws s = if not (is_ascii s) then s else map (λ c. if ltb c 32 then 32 else c) s

unfoldable pub ascii_str_tolower : Bytes → Bytes
ascii_str_tolower = map to_lower

-- The C library's conversions between the locale's bytes and wide characters, and `towlower`.
-- `none` is the -1 by which `mbstowcs` and `wcstombs` report a bad sequence.
pub record Wide : Type 0 where
  pub mbstowcs : Bytes → Option (List ℕ)
  pub wcstombs : List ℕ → Option Bytes
  pub towlower : ℕ → ℕ

unfoldable pub locale_to_wchar : Wide → Bytes → Run (List ℕ)
locale_to_wchar w s = elim (w.mbstowcs s) [ none ↦ croak bad_utf8 | some cs ↦ ok cs ]

unfoldable pub wchar_to_locale : Wide → List ℕ → Run Bytes
wchar_to_locale w cs = elim (w.wcstombs cs) [ none ↦ croak bad_utf8 | some s ↦ ok s ]

unfoldable pub wstr_tolower : Wide → List ℕ → List ℕ
wstr_tolower w = map w.towlower

unfoldable pub utf8_str_tolower : Wide → Bytes → Run Bytes
unfolding locale_to_wchar wchar_to_locale wstr_tolower
utf8_str_tolower w s = do cs ← locale_to_wchar w s; wchar_to_locale w (wstr_tolower w cs)

unfoldable pub str_tolower : Wide → Bytes → Run Bytes
unfolding is_ascii ascii_str_tolower utf8_str_tolower
str_tolower w s = if is_ascii s then ok (ascii_str_tolower s) else utf8_str_tolower w s

-- Each `if` stands alone in the source, so that a later one overwrites `len`.
unfoldable pub bytes_in_wchar : ℕ → ℕ
bytes_in_wchar ch =
    let len₁ = if ltb ch 0x80 then 1 else 0 in
    let len₂ = if ltb ch 0x800 then 2 else len₁ in
    let len₃ = if ltb ch 0x10000 then 3 else len₂ in if ltb ch 0x110000 then 4 else len₃

-- libxml2's `xmlUTF8Size`, the length of the character that a string begins with, is the parameter
-- `size`; `none` is its -1, for bytes that begin no character.
unfoldable pub utf8_chr_len : (Bytes → Option ℕ) → Bytes → Run ℕ
utf8_chr_len size s = elim (size s) [ none ↦ croak bad_utf8 | some n ↦ ok n ]

-- The switch of `swish_utf8_codepoint`. A sum stands before what is taken from it: on a character
-- of `len` bytes no difference is negative.
unfoldable pub codepoint_of_len : ℕ → Bytes → ℕ
codepoint_of_len len s =
    if len == 1
    then at s 0
    else if len == 2
    then (at s 0 - 192) * 64 + at s 1 - 128
    else if len == 3
    then (at s 0 - 224) * 4096 + (at s 1 - 128) * 64 + at s 2 - 128
    else (at s 0 - 240) * 262144 + (at s 1 - 128) * 4096 + (at s 2 - 128) * 64 + at s 3 - 128

unfoldable pub utf8_codepoint : (Bytes → Option ℕ) → Bytes → Run ℕ
unfolding utf8_chr_len codepoint_of_len
utf8_codepoint size s = do len ← utf8_chr_len size s; ok (codepoint_of_len len s)

-- `buf == NULL` is `none`.
unfoldable pub string_to_boolean : Option Bytes → Bool
string_to_boolean none = false
string_to_boolean (some buf) =
    let first = at buf 0 in
    let second = at buf 1 in
    if first == b'Y'
      || first == b'y'
      || first == b'1'
      || (first == b'o' && second == b'n')
      || (first == b'O' && second == b'N')
    then true
    else false
