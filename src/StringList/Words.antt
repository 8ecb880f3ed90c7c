-- ===== src/StringList/Words.antt =====
-- The words of a line: `getword` and `swish_stringlist_build`.

use libswish.Prelude.{
  ℕ, zero, suc, ◌+◌, ◌≤◌, ◌<◌, ◌≡◌, [], ◌∷◌, ◌++◌, Bool, true, false, arith, length, length-append,
  Bytes, Run, ok, Returns, Post, Post-Returns, Returns-Post, >>=-Post, >>=-Returns, ◌>>=◌,
}
use libswish.Str.{skip_ws}
use libswish.StringList.Growth.{IsValid, init-IsValid, Appends, add_string-Appends, terminate-room}
use libswish.StringList.{
  StringList, count, init, add_string, word_buffer, put, end_word, scan_word, start_word, getword,
  first_line, build_words, terminate, build_line,
}

-- The run ends with a word and a rest that together are no longer than `n`.
abbrev pub Fits : ℕ → Run (Bytes × Bytes) → Type 0
Fits n = Post (λ r. length r.0 + length r.1 ≤ n)

abbrev carried : Bool → ℕ
carried true = 1
carried false = 0

length-concat : (xs : Bytes) (x : ℕ) → length (xs ++ x ∷ []) ≡ length xs + 1
length-concat xs x = omega (arith, length-append xs (x ∷ []))

end_word-Fits :
    (b : Bool) (s buf : Bytes)
    → length buf + carried b < word_buffer
    → Fits (length buf + length s + carried b) (end_word b s buf)
unfolding end_word put
end_word-Fits true s buf h = ground (arith, length-concat buf b'\\')
end_word-Fits false s buf h = ground arith

scan_word-Fits :
    (s : Bytes) (q : ℕ) (b : Bool) (buf : Bytes)
    → length buf + length s + carried b < word_buffer
    → Fits (length buf + length s + carried b) (scan_word q b s buf)
unfolding scan_word put
scan_word-Fits [] q b buf h = ground (arith, end_word-Fits b [] buf)
scan_word-Fits (c ∷ s) q b buf h = ground (
  arith,
  end_word-Fits b s buf,
  scan_word-Fits s q true buf,
  scan_word-Fits s q false (buf ++ c ∷ []),
  length-concat buf c,
)

length-skip_ws : (s : Bytes) → length (skip_ws s) ≤ length s
unfolding skip_ws
length-skip_ws [] = omega arith
length-skip_ws (c ∷ s) = ground (arith, length-skip_ws s)

start_word-Fits : (s : Bytes) → length s < word_buffer → Fits (length s) (start_word s)
unfolding start_word
start_word-Fits [] h = omega arith
start_word-Fits (c ∷ s) h =
    ground (arith, scan_word-Fits s c false [], scan_word-Fits (c ∷ s) 0 false [])

getword-Fits : (s : Bytes) → length s < word_buffer → Fits (length s) (getword s)
unfolding getword
getword-Fits s h = ground (arith, start_word-Fits (skip_ws s), length-skip_ws s)

build_words-IsValid :
    (fuel : ℕ) (s : Bytes) (sl : StringList)
    → length s < fuel
    → length s < word_buffer
    → IsValid sl
    → Post IsValid (build_words fuel s sl)
unfolding build_words
build_words-IsValid zero s sl f h v = absurd (omega arith)
build_words-IsValid (suc fuel) s sl f h v =
    >>=-Post _ IsValid (getword s) _ (getword-Fits s h)
      (λ found k. go found.0 found.1 k (build_words-IsValid fuel))
  where
    go :
        (w rest : Bytes)
        → length w + length rest ≤ length s
        → ((s' : Bytes) (t : StringList)
            → length s' < fuel
            → length s' < word_buffer
            → IsValid t
            → Post IsValid (build_words fuel s' t))
        → Post IsValid (elim w [
          | [] ↦ ok sl
          | c ∷ w ↦ add_string sl (c ∷ w) >>= λ sl'. build_words fuel rest sl'
        ])
    go [] rest k again = v
    go (c ∷ w) rest k again =
        >>=-Returns (Appends sl (c ∷ w)) IsValid (add_string sl (c ∷ w)) _
          (add_string-Appends sl (c ∷ w) v)
          (λ t a. again rest t (omega arith) (omega arith) a.valid)

length-first_line : (s : Bytes) → length (first_line s) ≤ length s
unfolding first_line
length-first_line [] = omega arith
length-first_line (c ∷ s) = ground (arith, length-first_line s)

-- On a line that is shorter than the buffer of `getword` nothing is written out of bounds and the
-- rounds are enough; the list that comes back is valid and has a slot for the closing NULL.
build_line-total :
    (line : Bytes)
    → length line < word_buffer
    → Returns (build_line line) (λ sl. IsValid sl × (count sl < sl.slots))
unfolding build_line
build_line-total line h =
    let l = first_line line in
    let shorter = length-first_line line in
    Post-Returns (λ sl. IsValid sl × (count sl < sl.slots)) _
      (>>=-Post IsValid _ (build_words (length l + 1) l init) terminate
        (build_words-IsValid (length l + 1) l init (omega arith) (omega arith) init-IsValid)
        (λ sl v. Returns-Post _ _ (terminate sl) (terminate-room sl v) (λ r p. (p.0, p.2))))
