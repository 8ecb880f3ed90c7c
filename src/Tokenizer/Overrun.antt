-- ===== src/Tokenizer/Overrun.antt =====
-- The block of `maxwordlen` bytes that the tokenizer allocates has no room for a word of that length.
use libswish.Ctype.{to_lower}
use libswish.LibXml.{LibXml}
use libswish.Prelude.{
  ℕ, ◌+◌, ◌<◌, ◌≡◌, ◌≢◌, refl, ◌∙◌, ap, false, [], ◌∷◌, ◌++◌, Bytes, croak, ◌>>=◌, length,
  out_of_bounds, All, arith,
}
use libswish.TokenList.{TokenIterator}
use libswish.Tokenizer.{Analyzer, Scan, next, scan, tokenize_ascii}
use libswish.Tokenizer.Words.{
  IsWordChar, lower, scan_word, scan_char_full, length-lower, word_char_text,
}

next_byte : (c : ℕ) (rest : Bytes) → IsWordChar c → next (c ∷ rest) ≢ 0
unfolding next
next_byte c rest h = word_char_text (to_lower c) h

scan_overrun :
    (x : LibXml) (a : Analyzer) (meta : ℕ) (context w rest : Bytes) (c : ℕ) (s : Scan x)
    → 0 < length w
    → All IsWordChar w
    → IsWordChar c
    → length w + 1 ≡ a.maxwordlen
    → s.inside_token ≡ false
    → scan x a meta context (w ++ c ∷ rest) s ≡ croak out_of_bounds
unfolding scan
scan_overrun x a meta context w rest c s any h hc full out =
    scan_word x a meta context w (c ∷ rest) s any h (omega arith) out (next_byte c rest hc)
    ∙ ap (λ r. r >>= scan x a meta context rest)
        (scan_char_full x a meta context c (next rest) s (lower w) hc
          (omega (arith, length-lower w)))

-- At the start of the text, a word with as many bytes as `maxwordlen`, at least two, makes the
-- tokenizer write behind the block of `maxwordlen` bytes that it allocates for a word.
pub tokenize_ascii-overrun :
    (x : LibXml) (a : Analyzer) (ti : TokenIterator x) (meta : ℕ) (context w rest : Bytes) (c : ℕ)
    → 0 < length w
    → All IsWordChar w
    → IsWordChar c
    → length w + 1 ≡ a.maxwordlen
    → tokenize_ascii x a ti (w ++ c ∷ rest) meta context ≡ croak out_of_bounds
unfolding tokenize_ascii
tokenize_ascii-overrun x a ti meta context w rest c any h hc full = ground (
  arith,
  scan_overrun x a meta context w rest c (record { tl = ti.tl; token = []; inside_token = false })
      any h hc full refl,
)
