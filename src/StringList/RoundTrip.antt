-- ===== src/StringList/RoundTrip.antt =====
-- `swish_stringlist_build` reads back the words of a line that has a space before each.
use libswish.Ctype.{is_space}
use libswish.Prelude.{
  ℕ, ◌<◌, ◌≡◌, ◌≢◌, List, [], ◌∷◌, ◌++◌, false, arith, length, All, Bytes, Post-mono, Post-mono,
  Post-mono,
}
use libswish.StringList.{StringList, word_buffer, first_line}

abbrev pub IsPlain : ℕ → Type 0
IsPlain c = (is_space c ≡ false) × (c ≢ 0)

abbrev pub StartsUnquoted : Bytes → Type 0
StartsUnquoted [] = ⊥
StartsUnquoted (c ∷ w) = (c ≢ b'"') × (c ≢ b'\'')

-- A word that needs no quotes and fits the buffer of `getword`.
pub record IsWord (w : Bytes) : Type 0 where
  pub plain : All IsPlain w
  pub unquoted : StartsUnquoted w
  pub short : length w < word_buffer

abbrev pub spaced : List Bytes → Bytes
spaced [] = []
spaced (w ∷ ws) = 32 ∷ (w ++ spaced ws)

-- The same without its first space.
abbrev trimmed : List Bytes → Bytes
trimmed [] = []
trimmed (w ∷ ws) = w ++ spaced ws

pub plain_line :
    (w rest : Bytes) → All IsPlain w → first_line rest ≡ rest → first_line (w ++ rest) ≡ w ++ rest
unfolding first_line is_space
plain_line [] rest p e = e
plain_line (c ∷ w) rest p e = ground (arith, plain_line w rest p.1 e)
