-- ===== src/Parser/Documents/Copying.antt =====
-- What `xinclude_handler` makes of the tokens and texts of an included document.
use libswish.LibXml.{LibXml, IsLibXml}
use libswish.NamedBuffer.{NamedBuffer, nb_get_value, buffer_concat}
use libswish.NamedBuffer.Concat.{bumped, buffer_concat-bumped}
use libswish.NamedBuffer.Values
use libswish.Parser.{ParserData}
use libswish.Parser.Documents.{copy_tokens, xinclude_handler}
use libswish.Prelude.{
  ℕ, zero, suc, ◌+◌, ◌≤◌, ◌<◌, ◌≡◌, refl, sym, subst, ◌∙◌, ap, ap₂, List, [], ◌∷◌, ◌++◌,
  append_assoc, none, some, Bytes, length, get_elem?, drop, All, ok, ◌>>=◌, Returns, arith, inl,
  inr,
}
use libswish.TokenList.{
  Token, TokenList, get_token_value, TokenIterator, token_iterator_next_token, add_token,
}
use libswish.TokenList.Adding.{Adds, add_token-Adds}
use libswish.TokenList.Iterator.{
  drop-get_elem?, drop_all, Nat_le_cases, next_index, next_none, next_some,
}
use libswish.TokenList.Layout.{IsPlaced, IsValid, get_token_value-IsPlaced, View, views}

-- The same words at the positions that follow one another behind `pos`.
abbrev pub renumbered : ℕ → List View → List View
renumbered pos [] = []
renumbered pos (v ∷ vs) =
    record { text = v.text; pos = pos + 1; meta = v.meta; context = v.context }
    ∷ renumbered (pos + 1) vs

append_nil : {A : Type 0} (xs : List A) → xs ++ [] ≡ xs
append_nil [] = refl
append_nil (y ∷ xs) = ap (◌∷◌ y) (append_nil xs)

All-get_elem? :
    {A : Type 0} (P : A → Type 0) (xs : List A) (i : ℕ) (y : A)
    → All P xs
    → get_elem? xs i ≡ some y
    → P y
All-get_elem? P [] i y h e = absurd cc
All-get_elem? P (z ∷ xs) zero y h e = ground (arith, h.0, e)
All-get_elem? P (z ∷ xs) (suc i) y h e = All-get_elem? P xs i y h.1 e

module _ (x : LibXml) (laws : IsLibXml x) where
  -- `r` is `tl` with these words behind it.
  pub record Takes (tl : TokenList x) (vs : List View) (r : TokenList x) : Type 0 where
    pub valid : IsValid x r
    pub views_are : views r.buf r.tokens ≡ views tl.buf tl.tokens ++ renumbered tl.pos vs

  Takes-none : (tl : TokenList x) → IsValid x tl → Takes tl [] tl
  Takes-none tl v = record { valid = v; views_are = sym (append_nil (views tl.buf tl.tokens)) }

  copy_tokens_step :
      (fuel : ℕ) (it it' : TokenIterator x) (tl tl' : TokenList x) (t : Token) (value : Bytes)
      → token_iterator_next_token x it ≡ (some (t, value), it')
      → add_token x tl value (t.len + 1) t.meta t.context ≡ ok tl'
      → copy_tokens x (suc fuel) it tl ≡ copy_tokens x fuel it' tl'
  unfolding copy_tokens
  copy_tokens_step fuel it it' tl tl' t value e f =
      ap
        (λ r. elim r.0 [
          | none ↦ ok tl
          | some (u, v) ↦ add_token x tl v (u.len + 1) u.meta u.context >>= copy_tokens x fuel r.1
        ])
        e
      ∙ ap (λ m. m >>= copy_tokens x fuel it') f

  copy_tokens_stop :
      (fuel : ℕ) (it : TokenIterator x) (tl : TokenList x)
      → token_iterator_next_token x it ≡ (none, it)
      → copy_tokens x (suc fuel) it tl ≡ ok tl
  unfolding copy_tokens
  copy_tokens_stop fuel it tl e =
      ap
        (λ r. elim r.0 [
          | none ↦ ok tl
          | some (u, v) ↦ add_token x tl v (u.len + 1) u.meta u.context >>= copy_tokens x fuel r.1
        ])
        e

  add_placed :
      (tl : TokenList x) (buf : Bytes) (t : Token)
      → IsValid x tl
      → IsPlaced buf t
      → Returns
          (add_token x tl (get_token_value buf t) (t.len + 1) t.meta t.context)
          (Adds x laws tl (get_token_value buf t) t.meta t.context)
  add_placed tl buf t v p =
      let reads = get_token_value-IsPlaced buf t p in
      subst
        (λ w.
          Returns (add_token x tl w (t.len + 1) t.meta t.context)
            (Adds x laws tl w t.meta t.context))
        (sym reads)
        (subst
          (λ n.
            Returns (add_token x tl p.value (n + 1) t.meta t.context)
              (Adds x laws tl p.value t.meta t.context))
          p.len_is
          (add_token-Adds x laws tl p.value t.meta t.context v (omega (arith, p.len_is, p.nonempty))
            p.is_text))

  copy_tokens-Takes :
      (fuel : ℕ) (it : TokenIterator x) (tl : TokenList x)
      → IsValid x it.tl
      → IsValid x tl
      → it.pos ≤ length it.tl.tokens
      → length it.tl.tokens < it.pos + fuel
      → Returns (copy_tokens x fuel it tl) (Takes tl (views it.tl.buf (drop it.pos it.tl.tokens)))
  copy_tokens-Takes zero it tl vi v b h = absurd (omega arith)
  copy_tokens-Takes (suc fuel) it tl vi v b h = elim (Nat_le_cases (length it.tl.tokens) it.pos) [
    | inl past ↦
        rw (drop_all it.tl.tokens it.pos past)
          (tl, copy_tokens_stop fuel it tl (next_none x it past), Takes-none tl v)
    | inr more ↦
        let (t, e, d) = drop-get_elem? it.tl.tokens it.pos more in
        let (tl₁, added, adds) =
          add_placed tl it.tl.buf t v
            (All-get_elem? (IsPlaced it.tl.buf) it.tl.tokens it.pos t vi.placed e) in
        let it' : TokenIterator x = record it { pos = it.pos + 1 } in
        let (tl₂, copied, takes) =
          copy_tokens-Takes fuel it' tl₁ vi adds.valid (omega arith) (omega arith) in
        rw d (
          tl₂,
          copy_tokens_step fuel it it' tl tl₁ t (get_token_value it.tl.buf t)
                (next_some x it t more e) added
              ∙ copied,
          record {
            valid = takes.valid;
            views_are =
                takes.views_are
                ∙ ap₂
                    (λ pos i.
                      views tl₁.buf tl₁.tokens
                      ++ renumbered pos (views it.tl.buf (drop i it.tl.tokens)))
                    adds.pos_next (next_index it.pos)
                ∙ ap
                    (λ vs.
                      vs
                      ++ renumbered (tl.pos + 1) (views it.tl.buf (drop (suc it.pos) it.tl.tokens)))
                    adds.views_are
                ∙ append_assoc (views tl.buf tl.tokens) _ _;
          },
        )
  ]

  -- The texts of `nb` with those of `nb'` behind them.
  abbrev Joined : NamedBuffer x → NamedBuffer x → NamedBuffer x → Type 0
  Joined nb nb' r =
      (j : Bytes)
      → nb_get_value x r j ≡ elim (nb_get_value x nb j) [
        | none ↦ none
        | some b ↦ some (bumped b (nb_get_value x nb' j))
      ]

  -- The including document `pd'` with what the included one had.
  pub record Includes (child parent pd' : ParserData x) : Type 0 where
    pub takes :
        Takes parent.token_iterator.tl
          (views child.token_iterator.tl.buf child.token_iterator.tl.tokens)
          pd'.token_iterator.tl
    pub words : pd'.docinfo.nwords ≡ parent.docinfo.nwords + child.docinfo.nwords
    pub properties_are : Joined parent.properties child.properties pd'.properties
    pub metanames_are : Joined parent.metanames child.metanames pd'.metanames
    pub config_is : pd'.config ≡ child.config
    pub stacks_are : pd'.metastack ≡ parent.metastack

  -- `xinclude_handler` comes to an end without a write out of bounds. The words of the included
  -- document stand behind those of the including one, in order, each with its text, metaname and
  -- context and at the next position; the numbers of words are added; the text of each property and
  -- metaname of the including document has that of the included one behind it.
  pub xinclude_handler-Includes :
      (child parent : ParserData x)
      → IsValid x child.token_iterator.tl
      → IsValid x parent.token_iterator.tl
      → Values.IsValid x parent.properties
      → Values.IsValid x parent.metanames
      → child.token_iterator.pos ≡ 0
      → Returns (xinclude_handler x child parent) (Includes child parent)
  unfolding xinclude_handler
  xinclude_handler-Includes child parent vc vp props metas start =
      let it = child.token_iterator in
      let (tl, copied, takes) =
        copy_tokens-Takes (suc (length it.tl.tokens)) it parent.token_iterator.tl vc vp
          (omega (arith, start)) (omega (arith, start)) in
      let included = λ (tl' : TokenList x). record parent {
        config = child.config;
        token_iterator = record parent.token_iterator { tl = tl' };
        docinfo = record parent.docinfo { nwords = parent.docinfo.nwords + child.docinfo.nwords };
        properties = buffer_concat x parent.properties child.properties;
        metanames = buffer_concat x parent.metanames child.metanames;
      } in
      (
        included tl,
        ap (λ m. m >>= λ tl'. ok (included tl')) copied,
        record {
          takes =
              subst (λ i. Takes parent.token_iterator.tl (views it.tl.buf (drop i it.tl.tokens)) tl)
                start takes;
          words = refl;
          properties_are =
              λ j. buffer_concat-bumped x laws parent.properties child.properties j props;
          metanames_are = λ j. buffer_concat-bumped x laws parent.metanames child.metanames j metas;
          config_is = refl;
          stacks_are = refl;
        },
      )
