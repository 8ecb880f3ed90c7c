-- ===== src/Tokenizer/Pieces.antt =====
-- What the ASCII tokenizer adds to the list, word by word.
use libswish.Ctype.{to_lower}
use libswish.LibXml.{LibXml, IsLibXml}
use libswish.Prelude.{
  ℕ, ◌+◌, ◌<◌, ◌≡◌, ◌≢◌, refl, sym, ◌∙◌, ap, inl, inr, Bool, true, false, not, ◌&&◌, List, [], ◌∷◌,
  ◌++◌, Bytes, ok, if◌then◌else◌, leb, ◌==◌, length, All, arith, append_assoc, append-nil, Returns,
  All-append_left, All-append_right, Bool-cases,
}
use libswish.TokenList.{TokenList, add_token}
use libswish.TokenList.Layout.{IsValid, IsText, View, views, Rises-later}
use libswish.TokenList.Adding.{add_token-Adds}
use libswish.Tokenizer.Strip.{strip_ascii_chrs-IsStripOf}
use libswish.Tokenizer.{Analyzer, Scan, strip_ascii_chrs, put_char, end_token}
use libswish.Tokenizer.Words.{IsWordChar, lower, bumps, moved, inside, word_char_text}

module _ (a : Analyzer) (meta : ℕ) (context : Bytes) where
  abbrev pub kept : Bytes → Bool
  kept t = not (length t == 0) && leb a.minwordlen (length t + 1)

  -- The token of a word, if any: the word in lower case and stripped at both ends, at the position
  -- behind `pos`, unless nothing is left of it or it is too short.
  abbrev pub word_views : ℕ → Bytes → List View
  word_views pos w =
      let t = strip_ascii_chrs w in
      if kept t then record { text = t; pos = pos + 1; meta = meta; context = context } ∷ [] else []

  -- The tokens of a list of words, each with the gap behind it.
  abbrev pub expected : ℕ → List (Bytes × Bytes) → List View
  expected pos [] = []
  expected pos ((w, g) ∷ ps) =
      let vs = word_views pos (lower w) in vs ++ expected (pos + length vs + bumps g) ps

  abbrev pub end_pos : ℕ → List (Bytes × Bytes) → ℕ
  end_pos pos [] = pos
  end_pos pos ((w, g) ∷ ps) = end_pos (pos + length (word_views pos (lower w)) + bumps g) ps

kept_some :
    (a : Analyzer) (meta : ℕ) (context t : Bytes) → kept a meta context t ≡ true → 0 < length t
kept_some a meta context t h = ground arith

-- `s'` is `s` outside a word, with `vs` behind its tokens.
pub record Reaches (x : LibXml) (tl : TokenList x) (vs : List View) (pos : ℕ) (s : Scan x)
    : Type 0 where
  pub valid : IsValid x s.tl
  pub out : s.inside_token ≡ false
  pub pos_is : s.tl.pos ≡ pos
  pub views_are : views s.tl.buf s.tl.tokens ≡ views tl.buf tl.tokens ++ vs

pub IsText-lower : (w : Bytes) → All IsWordChar w → IsText (lower w)
IsText-lower [] h = tt
IsText-lower (c ∷ w) h = (word_char_text (to_lower c) h.0, IsText-lower w h.1)

strip-IsText : (w : Bytes) → IsText w → IsText (strip_ascii_chrs w)
strip-IsText w h =
    let r = strip_ascii_chrs-IsStripOf w in
    let inner =
      All-append_right (λ c. c ≢ 0) r.front (strip_ascii_chrs w ++ r.back) (rw (← r.splits) h) in
    All-append_left (λ c. c ≢ 0) (strip_ascii_chrs w) r.back inner

module _ (x : LibXml) (laws : IsLibXml x) (a : Analyzer) (meta : ℕ) (context : Bytes) where
  end_token_steps :
      (s : Scan x) (t : Bytes) {r : TokenList x}
      → length t < a.maxwordlen
      → (if kept a meta context (strip_ascii_chrs t)
          then add_token x s.tl (strip_ascii_chrs t) (length (strip_ascii_chrs t) + 1) meta context
          else ok s.tl)
        ≡ ok r
      → end_token x a meta context (inside x t s)
        ≡ ok (record { tl = r; token = strip_ascii_chrs t; inside_token = false })
  unfolding end_token put_char
  end_token_steps s t room e = ground (arith, e)

  pub end_token-Reaches :
      (s : Scan x) (t : Bytes)
      → IsValid x s.tl
      → IsText t
      → length t < a.maxwordlen
      → Returns (end_token x a meta context (inside x t s)) (
          Reaches x s.tl
            (word_views a meta context s.tl.pos t)
            (s.tl.pos + length (word_views a meta context s.tl.pos t)))
  end_token-Reaches s t v h room = elim (Bool-cases (kept a meta context (strip_ascii_chrs t))) [
    | inl keeps ↦
        let (r, e, added) =
          add_token-Adds x laws s.tl (strip_ascii_chrs t) meta context v
            (kept_some a meta context (strip_ascii_chrs t) keeps) (strip-IsText t h) in
        (
          record { tl = r; token = strip_ascii_chrs t; inside_token = false },
          end_token_steps s t room (rw keeps e),
          rw keeps (record {
            valid = added.valid;
            out = refl;
            pos_is = added.pos_next;
            views_are = added.views_are;
          }),
        )
    | inr drops ↦ (
      record { tl = s.tl; token = strip_ascii_chrs t; inside_token = false },
      end_token_steps s t room (rw drops refl),
      rw drops (record {
        valid = v;
        out = refl;
        pos_is = omega arith;
        views_are = sym (append-nil (views s.tl.buf s.tl.tokens));
      }),
    )
  ]

  -- Bytes that raise the position keep what is reached.
  pub Reaches-moved :
      (tl : TokenList x) (vs : List View) (pos n : ℕ) (s : Scan x)
      → Reaches x tl vs pos s
      → Reaches x tl vs (pos + n) (moved x n s)
  Reaches-moved tl vs pos n s r = record {
    valid = record {
      placed = r.valid.placed;
      rises = Rises-later 0 s.tl.pos (s.tl.pos + n) s.tl.tokens r.valid.rises (omega arith);
      cached = r.valid.cached;
      allocated = r.valid.allocated;
    };
    out = r.out;
    pos_is = omega (arith, r.pos_is);
    views_are = r.views_are;
  }

  pub Reaches-Reaches :
      (tl : TokenList x) (vs us : List View) (pos pos' : ℕ) (s s' : Scan x)
      → Reaches x tl vs pos s
      → Reaches x s.tl us pos' s'
      → Reaches x tl (vs ++ us) pos' s'
  Reaches-Reaches tl vs us pos pos' s s' r r' = record {
    valid = r'.valid;
    out = r'.out;
    pos_is = r'.pos_is;
    views_are =
        r'.views_are ∙ ap (λ w. w ++ us) r.views_are ∙ append_assoc (views tl.buf tl.tokens) vs us;
  }
