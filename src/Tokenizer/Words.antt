-- ===== src/Tokenizer/Words.antt =====
-- The ASCII tokenizer on a text that is split in words and the bytes between them.
use libswish.Ctype.{is_cntrl, to_lower}
use libswish.LibXml.{LibXml}
use libswish.Prelude.{
  ltb, ℕ, suc, ◌+◌, ◌<◌, ◌≡◌, ◌≢◌, refl, sym, ◌∙◌, ap, true, false, [], ◌∷◌, ◌++◌, Bytes, ok, croak,
  ◌>>=◌, if◌then◌else◌, ◌==◌, length, out_of_bounds, All, arith, append_assoc, append-nil,
  length-append,
}
use libswish.Tokenizer.{
  Analyzer, Scan, ascii_word_table, is_ignore_word_ascii, next, put_char, end_token, bump,
  add_to_token, start_token, scan_char, scan,
}

-- A byte of a word, in either case; and an ASCII byte that stands between words.
abbrev pub IsWordChar : ℕ → Type 0
IsWordChar c = ascii_word_table (to_lower c) ≡ true

abbrev pub IsGapChar : ℕ → Type 0
IsGapChar c = (c ≢ 0) × ((c < 128) × (ascii_word_table (to_lower c) ≡ false))

abbrev pub lower : Bytes → Bytes
lower [] = []
lower (c ∷ w) = to_lower c ∷ lower w

-- The number of bumpers, each of which raises the position by one.
abbrev pub bumps : Bytes → ℕ
bumps [] = 0
bumps (c ∷ g) = (if c == 3 then 1 else 0) + bumps g

pub to_lower_text : (c : ℕ) → c ≢ 0 → to_lower c ≢ 0
unfolding to_lower
to_lower_text c h = ground arith

to_lower_ascii : (c : ℕ) → c < 128 → ltb (to_lower c) 128 ≡ true
unfolding to_lower
to_lower_ascii c h = ground arith

word_char_ascii : (c : ℕ) → ascii_word_table c ≡ true → ltb c 128 ≡ true
unfolding ascii_word_table
word_char_ascii c h = ground arith

pub word_char_text : (c : ℕ) → ascii_word_table c ≡ true → c ≢ 0
unfolding ascii_word_table is_ignore_word_ascii
word_char_text c h = ground arith

word_char_no_bump : (c : ℕ) → ascii_word_table c ≡ true → (c == 3) ≡ false
unfolding ascii_word_table is_ignore_word_ascii is_cntrl
word_char_no_bump c h = ground arith

pub lower_3 : (c : ℕ) → (to_lower c == 3) ≡ (c == 3)
unfolding to_lower
lower_3 c = ground arith

next_word : (w rest : Bytes) → All IsWordChar w → next rest ≢ 0 → next (w ++ rest) ≢ 0
unfolding next
next_word [] rest h n = n
next_word (c ∷ w) rest h n = word_char_text (to_lower c) h.0

module _ (x : LibXml) where
  abbrev pub moved : ℕ → Scan x → Scan x
  moved n s = record s { tl = record s.tl { pos = s.tl.pos + n } }

  pub bump_lem : (c : ℕ) (s : Scan x) → bump x (to_lower c) s ≡ moved (bumps (c ∷ [])) s
  unfolding bump
  bump_lem c s = ground (arith, lower_3 c)

  pub moved_zero : (s : Scan x) → s ≡ moved 0 s
  moved_zero s = ap (λ p. record s { tl = record s.tl { pos = p } }) (omega arith)

  pub moved-moved : (m n : ℕ) (s : Scan x) → moved n (moved m s) ≡ moved (m + n) s
  moved-moved m n s = ap (λ p. record s { tl = record s.tl { pos = p } }) (omega arith)

  scan_char_gap :
      (a : Analyzer) (meta : ℕ) (context : Bytes) (c nextc : ℕ) (s : Scan x)
      → IsGapChar c
      → s.inside_token ≡ false
      → scan_char x a meta context (to_lower c) nextc s ≡ ok (moved (bumps (c ∷ [])) s)
  unfolding scan_char
  scan_char_gap a meta context c nextc s h out =
      ground (arith, (h.1).1, to_lower_ascii c (h.1).0, out, bump_lem c s)

  -- Outside a word, the bytes of a gap only raise the position.
  pub scan_gap :
      (a : Analyzer) (meta : ℕ) (context g rest : Bytes) (s : Scan x)
      → All IsGapChar g
      → s.inside_token ≡ false
      → scan x a meta context (g ++ rest) s ≡ scan x a meta context rest (moved (bumps g) s)
  unfolding scan
  scan_gap a meta context [] rest s h out = ap (scan x a meta context rest) (moved_zero s)
  scan_gap a meta context (c ∷ g) rest s h out =
      ap (λ r. r >>= scan x a meta context (g ++ rest))
        (scan_char_gap a meta context c (next (g ++ rest)) s h.0 out)
      ∙ scan_gap a meta context g rest (moved (bumps (c ∷ [])) s) h.1 out
      ∙ ap (scan x a meta context rest)
          (moved-moved (bumps (c ∷ [])) (bumps g) s ∙ ap (λ n. moved n s) (omega arith))

  abbrev pub inside : Bytes → Scan x → Scan x
  inside token s = record { tl = s.tl; token = token; inside_token = true }

  pub bump_word : (c : ℕ) (s : Scan x) → IsWordChar c → bump x (to_lower c) s ≡ s
  unfolding bump
  bump_word c s h = ground (arith, word_char_no_bump (to_lower c) h)

  -- A byte of a word that leaves room for the NUL and is not the last of the text.
  pub scan_char_first :
      (a : Analyzer) (meta : ℕ) (context : Bytes) (c nextc : ℕ) (s : Scan x)
      → IsWordChar c
      → s.inside_token ≡ false
      → 1 < a.maxwordlen
      → nextc ≢ 0
      → scan_char x a meta context (to_lower c) nextc s ≡ ok (inside (to_lower c ∷ []) s)
  unfolding scan_char start_token put_char
  scan_char_first a meta context c nextc s h out room more =
      ground
        (arith, h, word_char_ascii (to_lower c) h, out, bump_word c (inside (to_lower c ∷ []) s) h)

  pub scan_char_more :
      (a : Analyzer) (meta : ℕ) (context : Bytes) (c nextc : ℕ) (s : Scan x) (t : Bytes)
      → IsWordChar c
      → length t + 1 < a.maxwordlen
      → nextc ≢ 0
      → scan_char x a meta context (to_lower c) nextc (inside t s)
        ≡ ok (inside (t ++ to_lower c ∷ []) s)
  unfolding scan_char add_to_token put_char
  scan_char_more a meta context c nextc s t h room more = ground (
    arith,
    h,
    word_char_ascii (to_lower c) h,
    length-append t (to_lower c ∷ []),
    bump_word c (inside (t ++ to_lower c ∷ []) s) h,
  )

  pub scan_more :
      (a : Analyzer) (meta : ℕ) (context w rest : Bytes) (s : Scan x) (t : Bytes)
      → All IsWordChar w
      → length t + length w < a.maxwordlen
      → next rest ≢ 0
      → scan x a meta context (w ++ rest) (inside t s)
        ≡ scan x a meta context rest (inside (t ++ lower w) s)
  unfolding scan
  scan_more a meta context [] rest s t h room more =
      ap (λ u. scan x a meta context rest (inside u s)) (sym (append-nil t))
  scan_more a meta context (c ∷ w) rest s t h room more =
      ap (λ r. r >>= scan x a meta context (w ++ rest))
        (scan_char_more a meta context c (next (w ++ rest)) s t h.0 (omega arith)
          (next_word w rest h.1 more))
      ∙ scan_more a meta context w rest s (t ++ to_lower c ∷ []) h.1
          (omega (arith, length-append t (to_lower c ∷ []))) more
      ∙ ap (λ u. scan x a meta context rest (inside u s))
          (append_assoc t (to_lower c ∷ []) (lower w))

  pub scan_word :
      (a : Analyzer) (meta : ℕ) (context w rest : Bytes) (s : Scan x)
      → 0 < length w
      → All IsWordChar w
      → length w < a.maxwordlen
      → s.inside_token ≡ false
      → next rest ≢ 0
      → scan x a meta context (w ++ rest) s ≡ scan x a meta context rest (inside (lower w) s)
  unfolding scan
  scan_word a meta context [] rest s any h room out more = absurd (omega arith)
  scan_word a meta context (c ∷ w) rest s any h room out more =
      ap (λ r. r >>= scan x a meta context (w ++ rest))
        (scan_char_first a meta context c (next (w ++ rest)) s h.0 out (omega arith)
          (next_word w rest h.1 more))
      ∙ scan_more a meta context w rest s (to_lower c ∷ []) h.1 (omega arith) more

  pub scan_char_end :
      (a : Analyzer) (meta : ℕ) (context : Bytes) (c : ℕ) (s : Scan x) (t : Bytes)
      → IsWordChar c
      → length t < a.maxwordlen
      → scan_char x a meta context (to_lower c) 0 (inside t s) ≡ (
          end_token x a meta context (inside (t ++ to_lower c ∷ []) s) >>= λ r.
          ok (bump x (to_lower c) r))
  unfolding scan_char add_to_token put_char
  scan_char_end a meta context c s t h room = ground (arith, h, word_char_ascii (to_lower c) h)

  pub scan_char_gap_inside :
      (a : Analyzer) (meta : ℕ) (context : Bytes) (c nextc : ℕ) (s : Scan x) (t : Bytes)
      → IsGapChar c
      → scan_char x a meta context (to_lower c) nextc (inside t s)
        ≡ (end_token x a meta context (inside t s) >>= λ r. ok (bump x (to_lower c) r))
  unfolding scan_char
  scan_char_gap_inside a meta context c nextc s t h =
      ground (arith, (h.1).1, to_lower_ascii c (h.1).0)

  -- The byte that fills the block forces the end of the token, and the NUL is written behind the
  -- block.
  pub scan_char_full :
      (a : Analyzer) (meta : ℕ) (context : Bytes) (c nextc : ℕ) (s : Scan x) (t : Bytes)
      → IsWordChar c
      → length t + 1 ≡ a.maxwordlen
      → scan_char x a meta context (to_lower c) nextc (inside t s) ≡ croak out_of_bounds
  unfolding scan_char add_to_token put_char end_token
  scan_char_full a meta context c nextc s t h full =
      ground (arith, h, word_char_ascii (to_lower c) h, length-append t (to_lower c ∷ []))

pub length-lower : (w : Bytes) → length (lower w) ≡ length w
length-lower [] = refl
length-lower (c ∷ w) = ap suc (length-lower w)
