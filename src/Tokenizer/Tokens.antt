-- ===== src/Tokenizer/Tokens.antt =====
-- The ASCII tokenizer yields the words of a text, at the positions that gaps and bumpers give.
use libswish.Ctype.{to_lower}
use libswish.LibXml.{LibXml, IsLibXml}
use libswish.Prelude.{
  ℕ, suc, ◌+◌, ◌-◌, ◌<◌, ◌≡◌, ◌≢◌, refl, sym, ◌∙◌, ap, ◌⊎◌, inl, inr, Bool, true, false, List, [],
  ◌∷◌, ◌++◌, Bytes, ok, ◌>>=◌, length, All, arith, append_assoc, append-nil, length-append, Returns,
}
use libswish.TokenList.{Token, TokenIterator}
use libswish.TokenList.Layout.{IsValid, View, views}
use libswish.Tokenizer.{Analyzer, Scan, next, end_token, bump, scan_char, scan, tokenize_ascii}
use libswish.Tokenizer.Words.{
  IsWordChar, IsGapChar, lower, bumps, moved, inside, moved-moved, scan_gap, scan_char_first,
  scan_char_more, scan_word, scan_char_end, scan_char_gap_inside, bump_word, bump_lem, length-lower,
  word_char_text, to_lower_text,
}
use libswish.Tokenizer.Pieces.{
  word_views, expected, end_pos, Reaches, IsText-lower, end_token-Reaches, Reaches-moved,
  Reaches-Reaches,
}

-- A word, which leaves room for its NUL, and the gap behind it, which may be empty at the end of
-- the text if the word is not a single byte.
pub record IsPiece (a : Analyzer) (w g : Bytes) (last : Bool) : Type 0 where
  pub size : 0 < length w
  pub word : All IsWordChar w
  pub room : length w < a.maxwordlen
  pub gap : All IsGapChar g
  pub ends : (0 < length g) ⊎ ((last ≡ true) × (1 < length w))

abbrev pub is_empty : List (Bytes × Bytes) → Bool
is_empty [] = true
is_empty (p ∷ ps) = false

abbrev pub IsSplit : Analyzer → List (Bytes × Bytes) → Type 0
IsSplit a [] = Unit
IsSplit a ((w, g) ∷ ps) = IsPiece a w g (is_empty ps) × IsSplit a ps

abbrev pub joined : List (Bytes × Bytes) → Bytes
joined [] = []
joined ((w, g) ∷ ps) = w ++ (g ++ joined ps)

next_gap : (c : ℕ) (rest : Bytes) → IsGapChar c → next (c ∷ rest) ≢ 0
unfolding next
next_gap c rest h = to_lower_text c h.0

next_byte : (c : ℕ) (rest : Bytes) → IsWordChar c → next (c ∷ rest) ≢ 0
unfolding next
next_byte c rest h = word_char_text (to_lower c) h

no_last : (c : ℕ) → ¬ ((0 < 0) ⊎ ((true ≡ true) × (1 < length (c ∷ []))))
no_last c (inl h) = omega arith
no_last c (inr h) = omega (arith, h.1)

no_middle : (w : Bytes) → ¬ ((0 < 0) ⊎ ((false ≡ true) × (1 < length w)))
no_middle w (inl h) = omega arith
no_middle w (inr h) = cc (h.0)

module _ (x : LibXml) (laws : IsLibXml x) (a : Analyzer) (meta : ℕ) (context : Bytes) where
  abbrev vs_of : Scan x → Bytes → List View
  vs_of s w = word_views a meta context s.tl.pos (lower w)

  scan_char_close :
      (c nextc : ℕ) (s r : Scan x) (t : Bytes)
      → IsGapChar c
      → end_token x a meta context (inside x t s) ≡ ok r
      → scan_char x a meta context (to_lower c) nextc (inside x t s)
        ≡ ok (moved x (bumps (c ∷ [])) r)
  scan_char_close c nextc s r t h e =
      scan_char_gap_inside x a meta context c nextc s t h
      ∙ ap (λ m. m >>= λ q. ok (bump x (to_lower c) q)) e
      ∙ ap ok (bump_lem x c r)

  scan_piece :
      (w rest : Bytes) (c : ℕ) (g : Bytes) (last : Bool) (s : Scan x)
      → IsPiece a w (c ∷ g) last
      → IsValid x s.tl
      → s.inside_token ≡ false
      → (r : Scan x) × (scan x a meta context (w ++ (c ∷ g ++ rest)) s
          ≡ scan x a meta context rest r)
        × Reaches x s.tl (vs_of s w) (s.tl.pos + length (vs_of s w) + bumps (c ∷ g)) r
  unfolding scan
  scan_piece w rest c g last s p v out =
      let (r, e, reached) =
        end_token-Reaches x laws a meta context s (lower w) v (IsText-lower w p.word)
          (rw (length-lower w) p.room) in
      let r' = moved x (bumps (c ∷ [])) r in
      (
        moved x (bumps (c ∷ g)) r,
        scan_word x a meta context w (c ∷ g ++ rest) s p.size p.word p.room out
              (next_gap c (g ++ rest) p.gap.0)
            ∙ ap (λ m. m >>= scan x a meta context (g ++ rest))
                (scan_char_close c (next (g ++ rest)) s r (lower w) p.gap.0 e)
            ∙ scan_gap x a meta context g rest r' p.gap.1 reached.out
            ∙ ap (scan x a meta context rest)
                (moved-moved x (bumps (c ∷ [])) (bumps g) r ∙ ap (λ n. moved x n r) (omega arith)),
        Reaches-moved x laws a meta context s.tl (vs_of s w) _ (bumps (c ∷ g)) r reached,
      )

  scan_end :
      (w : Bytes) (s r : Scan x) (t : Bytes)
      → 0 < length w
      → All IsWordChar w
      → length t + length w < a.maxwordlen
      → end_token x a meta context (inside x (t ++ lower w) s) ≡ ok r
      → scan x a meta context w (inside x t s) ≡ ok r
  unfolding scan next
  scan_end [] s r t any h room e = absurd (omega arith)
  scan_end (c ∷ []) s r t any h room e =
      ap (λ m. m >>= ok)
        (scan_char_end x a meta context c s t h.0 (omega arith)
          ∙ ap (λ m. m >>= λ q. ok (bump x (to_lower c) q)) e
          ∙ ap ok (bump_word x c r h.0))
  scan_end (c ∷ d ∷ w) s r t any h room e =
      ap (λ m. m >>= scan x a meta context (d ∷ w))
        (scan_char_more x a meta context c (next (d ∷ w)) s t h.0 (omega arith)
          (next_byte d w h.1.0))
      ∙ scan_end (d ∷ w) s r (t ++ to_lower c ∷ []) (omega arith) h.1
          (omega (arith, length-append t (to_lower c ∷ [])))
          (ap (λ u. end_token x a meta context (inside x u s))
              (append_assoc t (to_lower c ∷ []) (lower (d ∷ w)))
            ∙ e)

  scan_last :
      (w : Bytes) (s : Scan x)
      → IsPiece a w [] true
      → IsValid x s.tl
      → s.inside_token ≡ false
      → Returns
          (scan x a meta context w s)
          (Reaches x s.tl (vs_of s w) (s.tl.pos + length (vs_of s w)))
  unfolding scan
  scan_last [] s p v out = absurd (omega (arith, p.size))
  scan_last (c ∷ []) s p v out = absurd (no_last c p.ends)
  scan_last (c ∷ d ∷ w) s p v out =
      let (r, e, reached) =
        end_token-Reaches x laws a meta context s (lower (c ∷ d ∷ w)) v
          (IsText-lower (c ∷ d ∷ w) p.word) (rw (length-lower (c ∷ d ∷ w)) p.room) in
      (
        r,
        ap (λ m. m >>= scan x a meta context (d ∷ w))
              (scan_char_first x a meta context c (next (d ∷ w)) s p.word.0 out
                (omega (arith, p.room)) (next_byte d w p.word.1.0))
            ∙ scan_end (d ∷ w) s r (to_lower c ∷ []) (omega arith) p.word.1 (omega (arith, p.room))
                e,
        reached,
      )

  scan-Reaches :
      (ps : List (Bytes × Bytes)) (s : Scan x)
      → IsSplit a ps
      → IsValid x s.tl
      → s.inside_token ≡ false
      → Returns (scan x a meta context (joined ps) s) (
          Reaches x s.tl (expected a meta context s.tl.pos ps) (end_pos a meta context s.tl.pos ps))
  unfolding scan
  scan-Reaches [] s h v out = (
    s,
    refl,
    record {
      valid = v;
      out = out;
      pos_is = refl;
      views_are = sym (append-nil (views s.tl.buf s.tl.tokens));
    },
  )
  scan-Reaches ((w, []) ∷ []) s h v out =
      let (r, e, reached) = scan_last w s h.0 v out in
      (
        r,
        rw (append-nil w) e,
        record {
          valid = reached.valid;
          out = reached.out;
          pos_is = omega (arith, reached.pos_is);
          views_are =
              reached.views_are
              ∙ ap (λ us. views s.tl.buf s.tl.tokens ++ us) (sym (append-nil (vs_of s w)));
        },
      )
  scan-Reaches ((w, []) ∷ p ∷ ps) s h v out = absurd (no_middle w h.0.ends)
  scan-Reaches ((w, c ∷ g) ∷ ps) s h v out =
      let (r, e, reached) = scan_piece w (joined ps) c g (is_empty ps) s h.0 v out in
      let (r', e', reached') = scan-Reaches ps r h.1 reached.valid reached.out in
      (
        r',
        e ∙ e',
        rw (← reached.pos_is)
            (Reaches-Reaches x laws a meta context s.tl (vs_of s w) _ _ _ r r' reached reached'),
      )

length-views : (buf : Bytes) (ts : List Token) → length (views buf ts) ≡ length ts
length-views buf [] = refl
length-views buf (t ∷ ts) = ap suc (length-views buf ts)

tokenize_ascii_steps :
    (x : LibXml) (a : Analyzer) (meta : ℕ) (context buf : Bytes) (ti : TokenIterator x) {r : Scan x}
    → 0 < a.maxwordlen
    → scan x a meta context buf (record { tl = ti.tl; token = []; inside_token = false }) ≡ ok r
    → tokenize_ascii x a ti buf meta context
      ≡ ok (length r.tl.tokens - length ti.tl.tokens, record ti { tl = r.tl })
unfolding tokenize_ascii
tokenize_ascii_steps x a meta context buf ti room e = ground (arith, e)

added_count :
    (buf buf' : Bytes) (ts us : List Token) (vs : List View)
    → views buf' us ≡ views buf ts ++ vs
    → length us - length ts ≡ length vs
added_count buf buf' ts us vs e =
    omega (
      arith,
      length-views buf ts,
      length-views buf' us,
      ap length e,
      length-append (views buf ts) vs,
    )

-- A text in ASCII is given as a gap and then words, each with the gap behind it. If every word
-- leaves room in the block of `maxwordlen` bytes for its NUL, and a word that ends the text has two
-- bytes or more, the tokenizer writes nothing out of bounds and keeps the list well formed; it adds
-- to the list exactly the words that the analyzer keeps, in lower case, stripped and in order, at
-- positions that count the words kept and the bumpers passed; and it returns how many it added.
pub tokenize_ascii-views :
    (x : LibXml)
    → IsLibXml x
    → (a : Analyzer) (meta : ℕ) (context lead : Bytes)
    → (ps : List (Bytes × Bytes)) (ti : TokenIterator x) → 0 < a.maxwordlen
    → All IsGapChar lead
    → IsSplit a ps
    → IsValid x ti.tl
    → Returns (tokenize_ascii x a ti (lead ++ joined ps) meta context) (λ (n, ti').
      let vs = expected a meta context (ti.tl.pos + bumps lead) ps in
      IsValid x ti'.tl
      × (views ti'.tl.buf ti'.tl.tokens ≡ views ti.tl.buf ti.tl.tokens ++ vs)
      × (ti'.tl.pos ≡ end_pos a meta context (ti.tl.pos + bumps lead) ps)
      × (n ≡ length vs))
tokenize_ascii-views x laws a meta context lead ps ti some_room h split v =
    let s : Scan x = record { tl = ti.tl; token = []; inside_token = false } in
    let start : Reaches x ti.tl [] ti.tl.pos s = record {
      valid = v;
      out = refl;
      pos_is = refl;
      views_are = sym (append-nil (views ti.tl.buf ti.tl.tokens));
    } in
    let s' = moved x (bumps lead) s in
    let begun = Reaches-moved x laws a meta context ti.tl [] ti.tl.pos (bumps lead) s start in
    let (r, e, reached) = scan-Reaches x laws a meta context ps s' split begun.valid refl in
    (
      (length r.tl.tokens - length ti.tl.tokens, record ti { tl = r.tl }),
      tokenize_ascii_steps x a meta context (lead ++ joined ps) ti some_room
          (scan_gap x a meta context lead (joined ps) s h refl ∙ e),
      (
        reached.valid,
        reached.views_are,
        reached.pos_is,
        added_count ti.tl.buf r.tl.buf ti.tl.tokens r.tl.tokens _ reached.views_are,
      ),
    )
