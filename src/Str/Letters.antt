-- ===== src/Str/Letters.antt =====
-- Case folding, control characters, Booleans and code points: string.c's `swish_str_ctrl_to_ws`,
-- `swish_ascii_str_tolower`, `swish_utf8_codepoint` and `swish_bytes_in_wchar`.
use libswish.Ctype.{to_lower}
use libswish.Prelude.{
  ℕ, ◌+◌, ◌/◌, ◌%◌, ◌≤◌, ◌<◌, ◌≡◌, refl, ◌↔◌, true, Option, some, [], ◌∷◌, arith, if◌then◌else◌,
  ltb, ap, ap₂, length, All, Bytes, ok,
}
use libswish.Str.{
  all_below_0x80, is_ascii, ctrl_to_ws, ascii_str_tolower, bytes_in_wchar, utf8_chr_len,
  codepoint_of_len, utf8_codepoint,
}

ctrl_map-clean :
    (s : Bytes) → All (λ c. 32 ≤ c) (mathlib.Core.List.map (λ c. if ltb c 32 then 32 else c) s)
ctrl_map-clean [] = tt
ctrl_map-clean (c ∷ s) = (ground arith, ctrl_map-clean s)

ctrl_map-length :
    (s : Bytes) → length (mathlib.Core.List.map (λ c. if ltb c 32 then 32 else c) s) ≡ length s
ctrl_map-length [] = refl
ctrl_map-length (c ∷ s) = omega (arith, ctrl_map-length s)

-- On ASCII, no control character below the space is left, and no byte is added or lost.
pub ctrl_to_ws-clean :
    (s : Bytes)
    → is_ascii s ≡ true
    → All (λ c. 32 ≤ c) (ctrl_to_ws s) × (length (ctrl_to_ws s) ≡ length s)
unfolding ctrl_to_ws
ctrl_to_ws-clean s h = rw h (ctrl_map-clean s, ctrl_map-length s)

to_lower_idem : (c : ℕ) → to_lower (to_lower c) ≡ to_lower c
unfolding to_lower
to_lower_idem c = ground arith

pub ascii_str_tolower_idem :
    (s : Bytes) → ascii_str_tolower (ascii_str_tolower s) ≡ ascii_str_tolower s
unfolding ascii_str_tolower
ascii_str_tolower_idem [] = refl
ascii_str_tolower_idem (c ∷ s) = ap₂ ◌∷◌ (to_lower_idem c) (ascii_str_tolower_idem s)

all_below_0x80-tolower : (s : Bytes) → all_below_0x80 (ascii_str_tolower s) ≡ all_below_0x80 s
unfolding all_below_0x80 ascii_str_tolower to_lower
all_below_0x80-tolower [] = refl
all_below_0x80-tolower (c ∷ s) = ground (arith, all_below_0x80-tolower s)

pub is_ascii-tolower : (s : Bytes) → is_ascii (ascii_str_tolower s) ≡ is_ascii s
unfolding is_ascii ascii_str_tolower
is_ascii-tolower [] = refl
is_ascii-tolower (c ∷ s) = all_below_0x80-tolower (c ∷ s)

-- The UTF-8 form of a code point, and its length (RFC 3629).
abbrev pub encoded_size : ℕ → ℕ
encoded_size cp =
    if ltb cp 0x80 then 1 else if ltb cp 0x800 then 2 else if ltb cp 0x10000 then 3 else 4

abbrev pub encode : ℕ → Bytes
encode cp =
    if ltb cp 0x80
    then cp ∷ []
    else if ltb cp 0x800
    then (192 + cp / 64) ∷ (128 + cp % 64) ∷ []
    else if ltb cp 0x10000
    then (224 + cp / 4096) ∷ (128 + cp / 64 % 64) ∷ (128 + cp % 64) ∷ []
    else (240 + cp / 262144) ∷ (128 + cp / 4096 % 64) ∷ (128 + cp / 64 % 64) ∷ (128 + cp % 64) ∷ []

codepoint_of_len-encode : (cp : ℕ) → codepoint_of_len (encoded_size cp) (encode cp) ≡ cp
unfolding codepoint_of_len
codepoint_of_len-encode cp = ground arith

-- `xmlUTF8Size` as documented: the length of the character that stands first.
abbrev pub Sizes : (Bytes → Option ℕ) → Type 0
Sizes size = (cp : ℕ) → cp < 0x110000 → size (encode cp) ≡ some (encoded_size cp)

-- The UTF-8 form of every code point is decoded to that code point, if `xmlUTF8Size` tells the
-- length of each form.
pub utf8_codepoint-encode :
    (size : Bytes → Option ℕ) (cp : ℕ)
    → Sizes size
    → cp < 0x110000
    → utf8_codepoint size (encode cp) ≡ ok cp
unfolding utf8_codepoint utf8_chr_len
utf8_codepoint-encode size cp h small =
    rw (h cp small, utf8_chr_len) (ap ok (codepoint_of_len-encode cp))

-- Only above 0xFFFF does the function give the number of bytes that a code point needs.
pub bytes_in_wchar-eq-size_iff :
    (cp : ℕ) → cp < 0x110000 → (bytes_in_wchar cp ≡ encoded_size cp) ↔ (0x10000 ≤ cp)
unfolding bytes_in_wchar
bytes_in_wchar-eq-size_iff cp h = ground arith
