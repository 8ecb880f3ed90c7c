-- ===== src/Parser/Content/Flushing.antt =====
-- `flush_buffer` hands the waiting text on, to the buffer of its metaname and to the tokenizer.
use libswish.Config.{Pointer, MetaName}
use libswish.Config.Whole.{Config}
use libswish.LibXml.{LibXml, IsLibXml}
use libswish.NamedBuffer.{NamedBuffer, bumper, nb_get_value}
use libswish.NamedBuffer.Values.{IsValid}
use libswish.Parser.{Env, ParserData, stored_as, nb_add_buf, tokenize_meta, flush_buffer}
use libswish.Parser.Content.{Place, Piece, Progress, store_text, store_pieces, hand_on}
use libswish.Parser.Content.State.{Vars, IsPlain, state, tokenize_pieces, Accepted, Reached}
use libswish.Parser.Content.Storing.{Stores, nb_add_buf-Stores}
use libswish.Prelude.{
  ℕ, ◌+◌, Bool, true, false, not, ◌≡◌, ◌≢◌, refl, ◌∙◌, ap, ap₂, sym, inl, inr, List, [], ◌∷◌, ◌++◌,
  Option, none, some, Bytes, eq_bytes, Run, ok, croak, ◌>>=◌, if◌then◌else◌, Returns, ◌==◌, length,
  arith, Option-cases, Bool-cases, >>=-assoc, >>=-cong,
}
use libswish.TokenList.{TokenIterator}

-- The last piece is stored last.
store_pieces-append :
    (ps : List Piece) (p : Piece) (texts : Bytes → Option Bytes) (j : Bytes)
    → store_pieces (ps ++ p ∷ []) texts j ≡ (
        if eq_bytes j p.place.name
        then store_text (store_pieces ps texts j) p.words
        else store_pieces ps texts j)
store_pieces-append [] p texts j = refl
store_pieces-append (q ∷ ps) p texts j =
    store_pieces-append ps p
      (λ i. if eq_bytes i q.place.name then store_text (texts i) q.words else texts i) j

third_branch :
    {A : Type 0} (b c : Bool) (m₁ m₂ m₃ : A)
    → b ≡ true
    → c ≡ false
    → (if not b then m₁ else if c then m₂ else m₃) ≡ m₃
third_branch b c m₁ m₂ m₃ e f = ground (arith, e, f)

-- A run in two parts that ends normally does so after the first.
first_returns :
    {A B : Type 0} (m : Run A) (f : A → Run B) (b : B)
    → (m >>= f) ≡ ok b
    → Returns m (λ a. Unit {0})
first_returns (ok a) f b e = (a, refl, tt)
first_returns (croak why) f b e = absurd cc

module _ (x : LibXml) (laws : IsLibXml x) (env : Env x) (c : Config x) (plain : IsPlain x c)
    (is_html : Bool) (lower : Bytes → Bytes) where
  tokenize_pieces-append :
      (ps : List Piece) (p : Piece) (r : ℕ × TokenIterator x)
      → tokenize_pieces x env c is_html lower (ps ++ p ∷ []) r ≡ (
          tokenize_pieces x env c is_html lower ps r
          >>= tokenize_pieces x env c is_html lower (p ∷ []))
  tokenize_pieces-append [] p r = refl
  tokenize_pieces-append (q ∷ ps) p (n, it) =
      let tail = tokenize_pieces x env c is_html lower ps in
      let last = tokenize_pieces x env c is_html lower (p ∷ []) in
      >>=-cong _ (tokenize_pieces x env c is_html lower (ps ++ p ∷ [])) (λ r. tail r >>= last)
        (tokenize_pieces-append ps p)
      ∙ sym (>>=-assoc _ tail last)

  pub Accepted-before :
      (place : Place) (v0 : Vars x) (s : Progress)
      → Accepted x env c is_html lower v0 (hand_on place s)
      → Accepted x env c is_html lower v0 s
  Accepted-before place v0 s (r, e, u) = first_returns _ _ r (
      sym (
        tokenize_pieces-append s.pieces (record { place = place; words = s.waiting })
          (v0.docinfo.nwords, v0.token_iterator))
      ∙ e)

  tokenizer_returns :
      (place : Place) (v : Vars x)
      → env.analyzer_tokenize ≡ true
      → (length v.meta_buf == 0) ≡ false
      → Returns
          (tokenize_pieces x env c is_html lower
            (record { place = place; words = v.meta_buf } ∷ [])
            (v.docinfo.nwords, v.token_iterator))
          (λ r. Unit {0})
      → (r : ℕ × TokenIterator x) × (env.tokenizer v.token_iterator v.meta_buf
            (env.meta_pointer (x.lookup MetaName c.metanames place.name))
            place.context
          ≡ ok r)
  tokenizer_returns place v on full (r, e, u) =
      let (r₁, e₁, u₁) = first_returns _ _ r e in
      let (r₂, e₂, u₂) =
        first_returns _ _ r₁
          (sym (third_branch env.analyzer_tokenize (length v.meta_buf == 0) _ _ _ on full) ∙ e₁) in
      (r₂, e₂)

  -- The tokenizer's run on one piece, and what `flush_buffer` does of it.
  tokenizes :
      (place : Place) (v : Vars x)
      → Returns
          (tokenize_pieces x env c is_html lower
            (record { place = place; words = v.meta_buf } ∷ [])
            (v.docinfo.nwords, v.token_iterator))
          (λ r. Unit {0})
      → Returns
          (tokenize_pieces x env c is_html lower
            (record { place = place; words = v.meta_buf } ∷ [])
            (v.docinfo.nwords, v.token_iterator))
          (λ r.
            (if env.analyzer_tokenize
              then tokenize_meta x env place.name place.context (state x env c is_html lower v)
              else ok (state x env c is_html lower v))
            ≡ ok (
                state x env c is_html lower
                  (record v { token_iterator = r.1; docinfo = record v.docinfo { nwords = r.0 } })))
  unfolding tokenize_meta
  tokenizes place v accepted = elim (Bool-cases env.analyzer_tokenize) [
    | inr off ↦ ((v.docinfo.nwords, v.token_iterator), rw off, rw off)
    | inl on ↦ elim (Bool-cases (length v.meta_buf == 0)) [
      | inl empty ↦
          ((v.docinfo.nwords, v.token_iterator), rw (on, empty), ground (arith, on, empty))
      | inr full ↦
          let (r, e) = tokenizer_returns place v on full accepted in
          ((v.docinfo.nwords + r.0, r.1), ground (arith, on, full, e), ground (arith, on, full, e))
    ]
  ]

  flush_buffer_steps :
      (name context : Bytes) (meta : MetaName) (pd pd₂ : ParserData x) (r : NamedBuffer x × Bytes)
      → x.lookup MetaName pd.config.metanames name ≡ some meta
      → meta.alias_for ≡ Pointer.null
      → pd.config.flags.cascade_meta_context ≡ false
      → nb_add_buf x pd.metanames name pd.meta_buf (length pd.meta_buf) bumper false true ≡ ok r
      → (if env.analyzer_tokenize
          then tokenize_meta x env name context (record pd { metanames = r.0 })
          else ok (record pd { metanames = r.0 }))
        ≡ ok pd₂
      → flush_buffer x env name context pd ≡ ok (record pd₂ { meta_buf = [] })
  unfolding flush_buffer stored_as
  flush_buffer_steps name context meta pd pd₂ r e f g h k = ground (arith, e, f, g, h, k)

  -- The state with the text handed on.
  abbrev pub flushed : Vars x → NamedBuffer x → ℕ × TokenIterator x → Vars x
  flushed v nb r = record v {
    metanames = nb;
    token_iterator = r.1;
    docinfo = record v.docinfo { nwords = r.0 };
    meta_buf = [];
  }

  hand_on-Reached :
      (place : Place) (v0 v : Vars x) (s : Progress) (nb : NamedBuffer x) (r : ℕ × TokenIterator x)
      → Reached x env c is_html lower v0 s v
      → Stores x laws v.metanames place.name v.meta_buf nb
      → tokenize_pieces x env c is_html lower
          (record { place = place; words = v.meta_buf } ∷ [])
          (v.docinfo.nwords, v.token_iterator)
        ≡ ok r
      → Reached x env c is_html lower v0 (hand_on place s) (flushed v nb r)
  hand_on-Reached place v0 v s nb r at stores tokens =
      let p : Piece = record { place = place; words = s.waiting } in
      record {
        waiting_is = refl;
        bump_is = at.bump_is;
        stored = λ j.
            stores.values j
            ∙ ap₂ (λ o w. if eq_bytes j place.name then store_text o w else o) (at.stored j)
                at.waiting_is
            ∙ sym (store_pieces-append s.pieces p (nb_get_value x v0.metanames) j);
        tokenized =
            tokenize_pieces-append s.pieces p (v0.docinfo.nwords, v0.token_iterator)
            ∙ ap (λ m. m >>= tokenize_pieces x env c is_html lower (p ∷ [])) at.tokenized
            ∙ ap
                (λ w.
                  tokenize_pieces x env c is_html lower (record { place = place; words = w } ∷ [])
                    (v.docinfo.nwords, v.token_iterator))
                (sym at.waiting_is)
            ∙ tokens;
      }

  -- Of what is accepted, the last piece is the one that waits.
  last_Accepted :
      (place : Place) (v0 v : Vars x) (s : Progress)
      → Reached x env c is_html lower v0 s v
      → Accepted x env c is_html lower v0 (hand_on place s)
      → Returns
          (tokenize_pieces x env c is_html lower
            (record { place = place; words = v.meta_buf } ∷ [])
            (v.docinfo.nwords, v.token_iterator))
          (λ r. Unit {0})
  last_Accepted place v0 v s at (r, e, u) = (
    r,
    ap
          (λ w.
            tokenize_pieces x env c is_html lower (record { place = place; words = w } ∷ [])
              (v.docinfo.nwords, v.token_iterator))
          at.waiting_is
        ∙ sym (
            tokenize_pieces-append s.pieces (record { place = place; words = s.waiting })
              (v0.docinfo.nwords, v0.token_iterator)
            ∙ ap
                (λ m.
                  m
                  >>= tokenize_pieces x env c is_html lower
                      (record { place = place; words = s.waiting } ∷ []))
                at.tokenized)
        ∙ e,
    u,
  )

  pub flush_buffer-Reached :
      (place : Place) (v0 v : Vars x) (s : Progress)
      → x.lookup MetaName c.metanames place.name ≢ none
      → IsValid x v.metanames
      → Reached x env c is_html lower v0 s v
      → Accepted x env c is_html lower v0 (hand_on place s)
      → (nb : NamedBuffer x) × (r : ℕ × TokenIterator x) × (flush_buffer x env place.name
            place.context
            (state x env c is_html lower v)
          ≡ ok (state x env c is_html lower (flushed v nb r)))
        × IsValid x nb
        × Reached x env c is_html lower v0 (hand_on place s) (flushed v nb r)
  flush_buffer-Reached place v0 v s known valid at accepted =
      elim (Option-cases (x.lookup MetaName c.metanames place.name)) [
        | inl absent ↦ absurd (known absent)
        | inr (meta, e) ↦
            let (nb, added, stores) =
              nb_add_buf-Stores x laws v.metanames place.name v.meta_buf valid in
            let (r, tokens, tokenized) =
              tokenizes place (record v { metanames = nb.0 })
                (last_Accepted place v0 v s at accepted) in
            (
              nb.0,
              r,
              flush_buffer_steps place.name place.context meta (state x env c is_html lower v)
                  (state x env c is_html lower (record v {
                    metanames = nb.0;
                    token_iterator = r.1;
                    docinfo = record v.docinfo { nwords = r.0 };
                  }))
                  nb e (plain.metas_direct place.name meta e) plain.alone added tokenized,
              stores.valid,
              hand_on-Reached place v0 v s nb.0 r at stores tokens,
            )
      ]
