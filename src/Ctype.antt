-- ===== src/Ctype.antt =====
-- The C library's character classes and `tolower` on single bytes. The program runs under a UTF-8
-- locale, where no byte of 0x80 or more is in a class by itself.
use libswish.Prelude.{ℕ, ◌+◌, Bool, ◌&&◌, ◌||◌, leb, ltb, ◌==◌, if◌then◌else◌}

abbrev within : ℕ → ℕ → ℕ → Bool
within lo hi c = leb lo c && leb c hi

unfoldable pub is_space : ℕ → Bool
is_space c = within 9 13 c || c == 32

unfoldable pub is_cntrl : ℕ → Bool
is_cntrl c = ltb c 32 || c == 127

unfoldable pub is_punct : ℕ → Bool
is_punct c = within 33 47 c || within 58 64 c || within 91 96 c || within 123 126 c

unfoldable pub to_lower : ℕ → ℕ
to_lower c = if within 65 90 c then c + 32 else c
