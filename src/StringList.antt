-- ===== src/StringList.antt =====
-- src/libswish3/string.c: lists of strings, and the words of a line.
pub mod Growth
pub mod Words
pub mod RoundTrip
pub mod Overflow
use libswish.Ctype.{is_space}
use libswish.Prelude.{
  ℕ, zero, suc, ◌+◌, ◌*◌, Bool, true, false, not, ◌&&◌, ◌||◌, List, [], ◌∷◌, ◌++◌, Option, none,
  some, ltb, ◌==◌, if◌then◌else◌, length, Bytes, Run, ok, croak, ◌>>=◌, ◌>>◌, guard, out_of_bounds,
  out_of_fuel,
}
use libswish.Str.{skip_ws}

-- `word` holds the strings in use, so that `n` is its length. `max` is the capacity that the
-- struct records, `slots` the number of pointers that the allocated block has room for.
pub record StringList : Type 0 where
  pub max : ℕ
  pub slots : ℕ
  pub word : List Bytes

abbrev pub count : StringList → ℕ
count sl = length sl.word

unfoldable pub init : StringList
init = record { max = 2; slots = 2; word = [] }

-- `sl->word[sl->n++] = str` behind the test that doubles the block.
unfoldable pub add_string : StringList → Bytes → Run StringList
add_string sl str = do
  let grown = if count sl == sl.max then record sl { max = sl.max * 2; slots = sl.max * 2 } else sl
  guard (ltb (count sl) grown.slots) out_of_bounds
  ok (record grown { word = sl.word ++ str ∷ [] })

-- The strings of `sl1` are copied behind those of `sl2`, in a block for exactly that many.
unfoldable pub merge : StringList → StringList → StringList
merge sl1 sl2 = record sl2 { slots = count sl1 + count sl2; word = sl2.word ++ sl1.word }

unfoldable pub copy : StringList → StringList
unfolding init
copy sl = record init { slots = count sl; word = sl.word }

-- `xmlChar buf[SWISH_MAX_WORD_LEN + 1]` of `getword`.
abbrev pub word_buffer : ℕ
word_buffer = 257

-- `*cur_char++ = c`
unfoldable pub put : Bytes → ℕ → Run Bytes
put buf c = if ltb (length buf) word_buffer then ok (buf ++ c ∷ []) else croak out_of_bounds

-- What follows the loop: a last backslash is kept, and the NUL is written.
unfoldable pub end_word : Bool → Bytes → Bytes → Run (Bytes × Bytes)
unfolding put
end_word backslash s buf = do
  buf' ← if backslash then put buf b'\\' else ok buf
  guard (ltb (length buf') word_buffer) out_of_bounds
  ok (buf', s)

-- The loop of `getword`; `quotechar` is 0 outside of quotes. The warning about an over-long word
-- does not stop it.
unfoldable pub scan_word : ℕ → Bool → Bytes → Bytes → Run (Bytes × Bytes)
unfolding put end_word
scan_word quotechar backslash [] buf = end_word backslash [] buf
scan_word quotechar backslash (c ∷ s) buf =
    let escaped = scan_word quotechar true s buf in
    let plain = put buf c >>= λ buf'. scan_word quotechar false s buf' in
    if c == b'\\' && not backslash && not (quotechar == 0)
    then escaped
    else if c == b'\n' || c == b'\r'
    then end_word backslash s buf
    else if not backslash && (c == quotechar || (quotechar == 0 && is_space c))
    then end_word backslash s buf
    else plain

-- On the string behind leading white space.
unfoldable pub start_word : Bytes → Run (Bytes × Bytes)
unfolding scan_word
start_word [] = ok ([], [])
start_word (c ∷ s) =
    if c == b'"' || c == b'\'' then scan_word c false s [] else scan_word 0 false (c ∷ s) []

-- The word and the rest of the line.
unfoldable pub getword : Bytes → Run (Bytes × Bytes)
unfolding start_word
getword line = start_word (skip_ws line)

-- The part of a line before its first newline.
unfoldable pub first_line : Bytes → Bytes
first_line [] = []
first_line (c ∷ s) = if c == b'\n' then [] else c ∷ first_line s

unfoldable pub build_words : ℕ → Bytes → StringList → Run StringList
unfolding getword add_string
build_words zero line sl = croak out_of_fuel
build_words (suc fuel) line sl = getword line >>= λ found. elim found.0 [
  | [] ↦ ok sl
  | c ∷ w ↦ add_string sl (c ∷ w) >>= λ sl'. build_words fuel found.1 sl'
]

-- `sl->word[sl->n] = NULL`, in a block that is one larger if it was full.
unfoldable pub terminate : StringList → Run StringList
terminate sl = do
  let grown = if count sl == sl.max then record sl { max = sl.max + 1; slots = sl.max + 1 } else sl
  guard (ltb (count sl) grown.slots) out_of_bounds
  ok grown

-- Each word but the last takes a byte of the line at least, which bounds the rounds.
unfoldable pub build_line : Bytes → Run StringList
unfolding init first_line build_words terminate
build_line line = let l = first_line line in build_words (length l + 1) l init >>= terminate

unfoldable pub build : Option Bytes → Run (Option StringList)
unfolding build_line
build none = ok none
build (some line) = do sl ← build_line line; ok (some sl)
