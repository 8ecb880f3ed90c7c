-- ===== src/Tests/Strings.antt =====
-- Strings and numbers: src/libswish3/string.c and the names of src/libswish3/fs.c.
use libswish.Ctype.{is_space}
use libswish.Io.{is_skippable_line, no_nulls, slurp_fh, slurp_gzfile_len}
use libswish.Io.Inflating.{slurp_gzfile_len-readable}
use libswish.Io.Reading.{readable}
use libswish.Numbers.{ℤ, string_to_int, int_to_string}
use libswish.Numbers.Decimal.{string_to_int-int_to_string}
use libswish.Prelude.{
  ℕ, ◌≤◌, ◌≡◌, refl, ◌↔◌, true, [], ◌∷◌, Option, some, Bytes, text, All, length, ok, false, ◌>>=◌,
  if◌then◌else◌, ltb, arith,
}
use libswish.Str.{
  Wide, skip_ws, trim_ws, ctrl_to_ws, is_ascii, utf8_codepoint, bytes_in_wchar, string_to_boolean,
  at,
}
use libswish.Str.Letters.{
  ctrl_to_ws-clean, encoded_size, encode, Sizes, utf8_codepoint-encode, bytes_in_wchar-eq-size_iff,
}
use libswish.TokenList.{up_to_nul}

-- Conversions for a locale in which every byte is a character.
abbrev latin : Wide
latin = record { mbstowcs = λ s. some s; wcstombs = λ s. some s; towlower = λ c. c }

abbrev padded : Bytes
padded = text "two words  "

trims : trim_ws padded ≡ text "two words"
unfolding trim_ws is_space
trims = refl

skips : is_skippable_line (text "  # notes") ≡ true
unfolding is_skippable_line skip_ws is_space
skips = refl

abbrev spoiled : Bytes
spoiled = 97 ∷ 0 ∷ 3 ∷ 98 ∷ []

-- With no NUL in the file, a bumper stays.
bumper_stays : slurp_fh (97 ∷ 3 ∷ []) 2 false ≡ ok (97 ∷ 3 ∷ 0 ∷ [])
unfolding slurp_fh no_nulls up_to_nul
bumper_stays = refl

abbrev tabbed : Bytes
tabbed = 97 ∷ 9 ∷ 98 ∷ []

tabbed-is_ascii : is_ascii tabbed ≡ true
unfolding is_ascii
tabbed-is_ascii = refl

tabbed-cleaned :
    All (λ c. 32 ≤ c) (ctrl_to_ws tabbed) × (length (ctrl_to_ws tabbed) ≡ length tabbed)
tabbed-cleaned = ctrl_to_ws-clean tabbed tabbed-is_ascii

-- The length that the first byte tells.
abbrev size_by_first : Bytes → Option ℕ
size_by_first s =
    if ltb (at s 0) 128
    then some 1
    else if ltb (at s 0) 224
    then some 2
    else if ltb (at s 0) 240
    then some 3
    else some 4

size_by_first-Sizes : Sizes size_by_first
size_by_first-Sizes cp h = ground arith

utf8_codepoint-encode_example : utf8_codepoint size_by_first (encode 0x20AC) ≡ ok 0x20AC
utf8_codepoint-encode_example =
    utf8_codepoint-encode size_by_first 0x20AC size_by_first-Sizes (omega arith)

bytes_in_wchar-eq-size_iff_example : (bytes_in_wchar 65 ≡ encoded_size 65) ↔ (0x10000 ≤ 65)
bytes_in_wchar-eq-size_iff_example = bytes_in_wchar-eq-size_iff 65 (omega arith)

on_is_true : string_to_boolean (some (text "on")) ≡ true
unfolding string_to_boolean
on_is_true = refl

string_to_int-int_to_string_example : string_to_int (int_to_string (ℤ.negsuc 41)) ≡ ok (ℤ.negsuc 41)
string_to_int-int_to_string_example = string_to_int-int_to_string (ℤ.negsuc 41) (omega arith)

slurp_gzfile_len-readable_example :
    (slurp_gzfile_len (text "abcd") 1 false >>= λ buffer. ok (up_to_nul buffer))
    ≡ ok (readable (text "abcd"))
slurp_gzfile_len-readable_example =
    slurp_gzfile_len-readable (text "abcd") 1 1 (omega arith) (omega arith) (omega arith)
      (omega arith) (omega arith)
