-- ===== src/Tokenizer.antt =====
-- src/libswish3/tokenizer.c: the tokenizer for ASCII text. `swish_tokenize_utf8` walks the text by
-- utf8.c, a copy of another project's library, and is a parameter here.
pub mod Strip
pub mod Words
pub mod Overrun
pub mod Pieces
pub mod Tokens
use libswish.Ctype.{is_space, is_cntrl, is_punct, to_lower}
use libswish.LibXml.{LibXml}
use libswish.NamedBuffer.{bumper}
use libswish.Prelude.{
  ℕ, zero, suc, ◌+◌, ◌-◌, Bool, true, false, not, ◌&&◌, ◌||◌, List, [], ◌∷◌, ◌++◌, Bytes, Run, ok,
  croak, ◌>>=◌, ◌>>◌, guard, if◌then◌else◌, ltb, leb, ◌==◌, length, take, out_of_bounds, map,
}
use libswish.Str.{at, is_ascii}
use libswish.TokenList.{TokenList, add_token, TokenIterator}

unfoldable pub is_ignore_start_ascii : ℕ → Bool
is_ignore_start_ascii c = c == 0 || is_space c || is_cntrl c || is_punct c

unfoldable pub is_ignore_end_ascii : ℕ → Bool
is_ignore_end_ascii c = c == 0 || is_space c || is_cntrl c || is_punct c

-- Apostrophes and underscores belong to words.
unfoldable pub is_ignore_word_ascii : ℕ → Bool
is_ignore_word_ascii c =
    if c == 39
    then false
    else if c == 95
    then false
    else c == 0 || is_space c || is_cntrl c || is_punct c

-- The tables that `make_ascii_tables` fills, of 128 entries, read at `c`: their last entry is never
-- set. A byte above 127 is a negative index of type `int`: the loop over a text checks for it, and
-- the bytes of a word, at which the other two tables are read, are below 127.
unfoldable pub ascii_word_table : ℕ → Bool
unfolding is_ignore_word_ascii
ascii_word_table c = ltb c 127 && not (is_ignore_word_ascii c)

unfoldable pub ascii_end_table : ℕ → Bool
unfolding is_ignore_end_ascii
ascii_end_table c = ltb c 127 && not (is_ignore_end_ascii c)

unfoldable pub ascii_start_table : ℕ → Bool
unfolding is_ignore_start_ascii
ascii_start_table c = ltb c 127 && not (is_ignore_start_ascii c)

-- The loop over the end of a word: a NUL is written at each byte to ignore.
unfoldable pub strip_end : ℕ → Bytes → Bytes
strip_end zero word = word
strip_end (suc i) word = elim (ascii_end_table (at word i)) [
  | true ↦ word
  | false ↦ strip_end i (take i word)
]

-- The loop over the start of a word, and the move of the rest to the front.
unfoldable pub strip_start : Bytes → Bytes
strip_start [] = []
strip_start (c ∷ word) = if ascii_start_table c then c ∷ word else strip_start word

-- `word` is the text before the NUL that the caller has put behind it. The C function returns the
-- length of the result with its NUL.
unfoldable pub strip_ascii_chrs : Bytes → Bytes
unfolding strip_end strip_start
strip_ascii_chrs word = strip_start (strip_end (length word) word)

pub record Analyzer : Type 0 where
  pub maxwordlen : ℕ
  pub minwordlen : ℕ

-- The lower case of the byte at the front, or the NUL.
unfoldable pub next : Bytes → ℕ
next [] = 0
next (c ∷ buf) = to_lower c

module _ (x : LibXml) where
  -- The variables of the loop. `token` holds the bytes written so far to a block of `maxwordlen`.
  pub record Scan : Type 0 where
    pub tl : TokenList x
    pub token : Bytes
    pub inside_token : Bool

  -- `token[token_len++] = c`
  unfoldable pub put_char : Analyzer → ℕ → Bytes → Run Bytes
  put_char a c token = guard (ltb (length token) a.maxwordlen) out_of_bounds >> ok (token ++ c ∷ [])

  -- The end of a token, at a byte that is in no word or where the end is forced.
  unfoldable pub end_token : Analyzer → ℕ → Bytes → Scan → Run Scan
  unfolding put_char
  end_token a meta context s = do
    ended ← put_char a 0 s.token
    let token = strip_ascii_chrs s.token
    let token_len = length token + 1
    tl' ←
        if not (length token == 0) && leb a.minwordlen token_len
        then add_token x s.tl token token_len meta context
        else ok s.tl
    ok (record { tl = tl'; token = token; inside_token = false })

  unfoldable pub bump : ℕ → Scan → Scan
  bump c s = if c == at bumper 0 then record s { tl = record s.tl { pos = s.tl.pos + 1 } } else s

  unfoldable pub add_to_token : Analyzer → ℕ → Bytes → ℕ → ℕ → Scan → Run Scan
  unfolding put_char end_token
  add_to_token a meta context c nextc s = do
    token ← put_char a c s.token
    let s' : Scan = record s { token = token }
    if leb a.maxwordlen (length token) || nextc == 0 then end_token a meta context s' else ok s'

  -- A token of one byte at the end of the text is a special case.
  unfoldable pub start_token : Analyzer → ℕ → Bytes → ℕ → ℕ → Scan → Run Scan
  unfolding put_char
  start_token a meta context c nextc s = do
    token ← put_char a c []
    if nextc == 0 && a.minwordlen == 1
        then (put_char a 0 token >>= λ ended.
            add_token x s.tl token (length token + 1) meta context >>= λ tl'.
            ok (record { tl = tl'; token = token; inside_token = false }))
        else ok (record { tl = s.tl; token = token; inside_token = true })

  -- The body of the loop, for a byte in lower case and the one behind it.
  unfoldable pub scan_char : Analyzer → ℕ → Bytes → ℕ → ℕ → Scan → Run Scan
  unfolding end_token add_to_token start_token bump
  scan_char a meta context c nextc s = do
    guard (ltb c 128) out_of_bounds
    s' ←
        if not (ascii_word_table c)
        then (if s.inside_token then end_token a meta context s else ok s)
        else if s.inside_token
        then add_to_token a meta context c nextc s
        else start_token a meta context c nextc s
    ok (bump c s')

  unfoldable pub scan : Analyzer → ℕ → Bytes → Bytes → Scan → Run Scan
  unfolding scan_char next
  scan a meta context [] s = ok s
  scan a meta context (c ∷ buf) s =
      scan_char a meta context (to_lower c) (next buf) s >>= scan a meta context buf

  -- The tokens go to the list of the iterator. The result has their number.
  unfoldable pub tokenize_ascii :
      Analyzer → TokenIterator x → Bytes → ℕ → Bytes → Run (ℕ × TokenIterator x)
  unfolding scan
  tokenize_ascii a ti buf meta context = do
    guard (ltb 0 a.maxwordlen) out_of_bounds
    s ← scan a meta context buf (record { tl = ti.tl; token = []; inside_token = false })
    ok (length s.tl.tokens - length ti.tl.tokens, record ti { tl = s.tl })

  unfoldable pub tokenize :
      (Analyzer → TokenIterator x → Bytes → ℕ → Bytes → Run (ℕ × TokenIterator x))
      → Analyzer
      → TokenIterator x
      → Bytes
      → ℕ
      → Bytes
      → Run (ℕ × TokenIterator x)
  unfolding tokenize_ascii
  tokenize tokenize_utf8 a ti buf meta context =
      if is_ascii buf
      then tokenize_ascii a ti buf meta context
      else tokenize_utf8 a ti buf meta context
