-- ===== src/StringList/Overflow.antt =====
-- Where `getword` and the loop of `swish_stringlist_build` go wrong.
use libswish.Ctype.{is_space}
use libswish.Prelude.{
  ℕ, zero, suc, ◌+◌, ◌≤◌, ◌<◌, ◌≡◌, refl, ◌∙◌, [], ◌∷◌, ◌++◌, false, arith, length, length-append,
  All, Bytes, ok, croak, out_of_bounds, ltb, ltb→lt, Bool-cases, inl, inr, ◌⊎◌,
}
use libswish.Str.{skip_ws}
use libswish.StringList.RoundTrip.{IsPlain, StartsUnquoted}
use libswish.StringList.{
  StringList, init, word_buffer, put, end_word, scan_word, start_word, getword, first_line,
  build_words, build_line,
}

scan_word-full :
    (s buf : Bytes) → length buf ≡ word_buffer → scan_word 0 false s buf ≡ croak out_of_bounds
unfolding scan_word end_word put
scan_word-full [] buf h = ground arith
scan_word-full (c ∷ s) buf h = ground arith

scan_word-plain :
    (c : ℕ) (s buf : Bytes)
    → IsPlain c
    → length buf < word_buffer
    → scan_word 0 false (c ∷ s) buf ≡ scan_word 0 false s (buf ++ c ∷ [])
unfolding scan_word put is_space
scan_word-plain c s buf p h = ground arith

scan_word-long :
    (w rest buf : Bytes)
    → All IsPlain w
    → length buf ≤ word_buffer
    → word_buffer ≤ length buf + length w
    → scan_word 0 false (w ++ rest) buf ≡ croak out_of_bounds
scan_word-long [] rest buf p h k = scan_word-full rest buf (omega arith)
scan_word-long (c ∷ w) rest buf p h k = elim (Bool-cases (ltb (length buf) word_buffer)) [
  | inl room ↦
      scan_word-plain c (w ++ rest) buf p.0 (ltb→lt _ _ room)
      ∙ scan_word-long w rest (buf ++ c ∷ []) p.1
          (omega (arith, length-append buf (c ∷ []), ltb→lt _ _ room))
          (omega (arith, length-append buf (c ∷ [])))
  | inr full ↦ scan_word-full (c ∷ (w ++ rest)) buf (ground arith)
]

getword-long :
    (w rest : Bytes)
    → All IsPlain w
    → StartsUnquoted w
    → word_buffer ≤ length w
    → getword (w ++ rest) ≡ croak out_of_bounds
unfolding getword start_word skip_ws
getword-long [] rest p u k = absurd u
getword-long (c ∷ w) rest p u k = ground (arith, scan_word-long (c ∷ w) rest [] p)

build_words-croak :
    (fuel : ℕ) (line : Bytes) (sl : StringList)
    → 0 < fuel
    → getword line ≡ croak out_of_bounds
    → build_words fuel line sl ≡ croak out_of_bounds
unfolding build_words
build_words-croak zero line sl f h = absurd (omega arith)
build_words-croak (suc fuel) line sl f h = rw h

first_line-append : (w rest : Bytes) → All IsPlain w → first_line (w ++ rest) ≡ w ++ first_line rest
unfolding first_line is_space
first_line-append [] rest p = refl
first_line-append (c ∷ w) rest p = ground (arith, first_line-append w rest p.1)

-- A line that begins with at least 257 bytes that are no white space, the first of them no quote,
-- overruns the buffer of `getword`, which only warns of it, whatever follows them.
pub build_line-overrun :
    (w rest : Bytes)
    → All IsPlain w
    → StartsUnquoted w
    → word_buffer ≤ length w
    → build_line (w ++ rest) ≡ croak out_of_bounds
unfolding build_line build_words
build_line-overrun w rest p u k = rw (first_line-append w rest p) (
    rw (
      build_words-croak (length (w ++ first_line rest) + 1) (w ++ first_line rest) init
        (omega arith) (getword-long w (first_line rest) p u k)))

-- An empty word in quotes ends the list: nothing of the line behind it is read.
pub build_words-empty_quotes :
    (fuel quote : ℕ) (line rest : Bytes) (sl : StringList)
    → (quote ≡ b'"') ⊎ (quote ≡ b'\'')
    → skip_ws line ≡ quote ∷ quote ∷ rest
    → build_words (suc fuel) line sl ≡ ok sl
unfolding build_words getword start_word scan_word end_word
build_words-empty_quotes fuel quote line rest sl q e = ground arith
