-- ===== src/Parser/Content/Plain.antt =====
-- `txt_parser`: the text of a document and the name of its file.
use libswish.Config.{MetaName}
use libswish.Config.Defaults.{default_metaname, title}
use libswish.Config.Whole.{Config}
use libswish.DocInfo.{DocInfo, given}
use libswish.LibXml.{LibXml, IsLibXml}
use libswish.NamedBuffer.{NamedBuffer, nb_get_value}
use libswish.NamedBuffer.{nb_init}
use libswish.NamedBuffer.Init.{nb_init-reads}
use libswish.NamedBuffer.Values.{IsValid}
use libswish.Numbers.{ℤ}
use libswish.Parser.{ParserData, flush_buffer, buffer_characters, dom_str}
use libswish.Parser.Content.{Place, Piece, Progress, add_text, hand_on, store_pieces}
use libswish.Parser.Content.Flushing.{Accepted-before, flushed, flush_buffer-Reached}
use libswish.Parser.Content.State.{Vars, IsPlain, state, Accepted, Reached, tokenize_pieces}
use libswish.Parser.Content.Stepping.{buffer_characters_lem}
use libswish.Parser.Content.Whole.{fresh, no_texts, no_tokens, start, store_pieces-cong}
use libswish.Parser.Documents.{Outside, no_tags, utf8, init_parser_data}
use libswish.Parser.Parsers.{set_encoding, set_encoding_to, to_utf8, text_under, txt_parser}
use libswish.Prelude.{
  ℕ, Bool, true, false, ◌≡◌, ◌≢◌, refl, sym, subst, ◌∙◌, ap, List, [], ◌∷◌, none, Bytes, eq_bytes,
  Run, ok, ◌>>=◌, Returns, arith,
}
use libswish.TagStack.Contexts.{pushed, push_tag_stack_lem}
use libswish.TokenList.{TokenIterator}

-- A text under a metaname of its own.
abbrev pub piece_of : Bytes → Bytes → Piece
piece_of name words = record { place = record { name = name; context = name }; words = words }

module _ (x : LibXml) (laws : IsLibXml x) (o : Outside x) (c : Config x) (plain : IsPlain x c) where
  abbrev same : Bytes → Bytes
  same s = s

  abbrev alone : Bytes → Bool → ParserData x → Run (ParserData x)
  alone uri is_text pd = ok pd

  abbrev st : Vars x → ParserData x
  st = state x o.env c false same

  abbrev place : Bytes → Place
  place name = record { name = name; context = name }

  abbrev said : Bytes → Bytes → Progress → Progress
  said name ch s =
      hand_on (place name) (record s { waiting = add_text s.bump s.waiting ch; bump = false })

  text_under_steps :
      (name ch : Bytes) (v : Vars x) (pd₁ pd₂ : ParserData x)
      → buffer_characters x o.env ch (st (record v { metastack = pushed 47 v.metastack name name }))
        ≡ ok pd₁
      → flush_buffer x o.env name name pd₁ ≡ ok pd₂
      → text_under x o name ch (st v) ≡ ok pd₂
  unfolding text_under
  text_under_steps name ch v pd₁ pd₂ e f =
      ap
        (λ m. m >>= λ stack.
          buffer_characters x o.env ch (record (st v) { metastack = stack })
          >>= flush_buffer x o.env name name)
        (push_tag_stack_lem 47 v.metastack name name)
      ∙ ap (λ m. m >>= flush_buffer x o.env name name) e
      ∙ f

  text_under-Reached :
      (name ch : Bytes) (v0 v : Vars x) (s : Progress)
      → x.lookup MetaName c.metanames name ≢ none
      → IsValid x v.metanames
      → Reached x o.env c false same v0 s v
      → Accepted x o.env c false same v0 (said name ch s)
      → (w : Vars x) × (text_under x o name ch (st v) ≡ ok (st w))
        × IsValid x w.metanames
        × Reached x o.env c false same v0 (said name ch s) w
        × ((w.docinfo).uri ≡ (v.docinfo).uri)
        × (w.meta_buf ≡ [])
  text_under-Reached name ch v0 v s known valid at accepted =
      let v₁ : Vars x = record v {
        metastack = pushed 47 v.metastack name name;
        meta_buf = add_text v.bump_word v.meta_buf ch;
        prop_buf = add_text v.bump_word v.prop_buf ch;
        bump_word = false;
      } in
      let at₁ : Reached x o.env c false same v0
          (record s { waiting = add_text s.bump s.waiting ch; bump = false }) v₁ =
        record {
          waiting_is = rw at.bump_is (rw at.waiting_is refl);
          bump_is = refl;
          stored = at.stored;
          tokenized = at.tokenized;
        } in
      let (nb, r, flushes, valid', at') =
        flush_buffer-Reached x laws o.env c plain false same (place name) v0 v₁
          (record s { waiting = add_text s.bump s.waiting ch; bump = false }) known valid at₁
          accepted in
      (
        flushed x laws o.env c plain false same v₁ nb r,
        text_under_steps name ch v (st v₁) _
            (buffer_characters_lem x laws o.env c plain false same alone ch
              (record v { metastack = pushed 47 v.metastack name name }))
            flushes,
        valid',
        at',
        refl,
        refl,
      )

  init_plain :
      (docinfo : DocInfo) (props metas : NamedBuffer x)
      → nb_init x c.properties ≡ ok props
      → nb_init x c.metanames ≡ ok metas
      → init_parser_data x c docinfo
        ≡ ok (st (start x laws o.env c plain false same alone docinfo props metas))
  unfolding init_parser_data
  init_plain docinfo props metas e f = ground (
    arith,
    e,
    f,
    push_tag_stack_lem 47 (no_tags x) default_metaname default_metaname,
    push_tag_stack_lem 47 (no_tags x) dom_str dom_str,
  )

  txt_steps :
      (buffer whole : Bytes) (pd pd₁ pd₂ : ParserData x)
      → o.check_utf8 buffer ≡ true
      → text_under x o default_metaname whole (set_encoding_to utf8 pd) ≡ ok pd₁
      → text_under x o title (given (pd₁.docinfo).uri []) pd₁ ≡ ok pd₂
      → txt_parser x o buffer whole pd ≡ ok (ℤ.pos 0, pd₂)
  unfolding txt_parser set_encoding to_utf8 eq_bytes
  txt_steps buffer whole pd pd₁ pd₂ valid e f = rw valid (
      ap
        (λ m. m >>= λ pd'.
          text_under x o title (given (pd'.docinfo).uri []) pd' >>= λ pd''. ok (ℤ.pos 0, pd''))
        e
      ∙ ap (λ m. m >>= λ pd''. ok (ℤ.pos 0, pd'')) f)

  -- What a document of plain text hands on: its text, and the name of its file as the title.
  abbrev pub plain_pieces : Bytes → DocInfo → List Piece
  plain_pieces whole docinfo =
      piece_of default_metaname whole ∷ piece_of title (given docinfo.uri []) ∷ []

  -- With a plain configuration that knows the default metaname and the title, and for a text in
  -- UTF-8: if the tokenizer ends normally on the text and then on the URI, the document is parsed
  -- without an error. The whole text is then stored under the default
  -- metaname and the URI under the title, each if it is not all white space; the tokenizer has had
  -- these two texts in this order; and no text waits.
  pub txt_parser-pieces :
      (buffer whole : Bytes) (docinfo : DocInfo) (r : ℕ × TokenIterator x)
      → x.lookup MetaName c.metanames default_metaname ≢ none
      → x.lookup MetaName c.metanames title ≢ none
      → o.check_utf8 buffer ≡ true
      → tokenize_pieces x o.env c false same
          (plain_pieces whole docinfo)
          (docinfo.nwords, no_tokens x o.env c false same)
        ≡ ok r
      → Returns (init_parser_data x c docinfo >>= txt_parser x o buffer whole) (λ r.
        (r.0 ≡ ℤ.pos 0)
        × ((j : Bytes)
            → nb_get_value x (r.1).metanames j
              ≡ store_pieces (plain_pieces whole docinfo) (no_texts x o.env c false same) j)
        × (tokenize_pieces x o.env c false same
              (plain_pieces whole docinfo)
              (docinfo.nwords, no_tokens x o.env c false same)
            ≡ ok (((r.1).docinfo).nwords, (r.1).token_iterator))
        × ((r.1).meta_buf ≡ []))
  txt_parser-pieces buffer whole docinfo r default titled valid tokens =
      let (props, e, (vp, reads)) = nb_init-reads x laws c.properties in
      let (metas, f, (vm, reads')) = nb_init-reads x laws c.metanames in
      let v0 =
        start x laws o.env c plain false same alone (record docinfo { encoding = utf8 }) props
          metas in
      let first : Accepted x o.env c false same v0 (said default_metaname whole fresh) =
        Accepted-before x laws o.env c plain false same (place title) v0
          (record (said default_metaname whole fresh) { waiting = given docinfo.uri [] })
          (r, tokens, tt) in
      let (v₁, runs₁, valid₁, at₁, uri₁, empty₁) =
        text_under-Reached default_metaname whole v0 v0 fresh default vm
          (record { waiting_is = refl; bump_is = refl; stored = λ j. refl; tokenized = refl })
          first in
      let (v₂, runs₂, valid₂, at₂, uri₂, empty₂) =
        text_under-Reached title (given (v₁.docinfo).uri []) v0 v₁
          (said default_metaname whole fresh) titled valid₁ at₁
          (subst
            (λ u.
              Accepted x o.env c false same v0
                (said title (given u []) (said default_metaname whole fresh)))
            (sym uri₁) (r, tokens, tt)) in
      let pieces_are : (said title (given (v₁.docinfo).uri [])
            (said default_metaname whole fresh)).pieces
          ≡ plain_pieces whole docinfo =
        ap (λ u. piece_of default_metaname whole ∷ piece_of title (given u []) ∷ []) uri₁ in
      (
        (ℤ.pos 0, st v₂),
        ap (λ m. m >>= txt_parser x o buffer whole) (init_plain docinfo props metas e f)
            ∙ txt_steps buffer whole _ (st v₁) (st v₂) valid runs₁ runs₂,
        (
          refl,
          λ j.
              at₂.stored j
              ∙ ap (λ ps. store_pieces ps (nb_get_value x metas) j) pieces_are
              ∙ store_pieces-cong x laws o.env c plain false same alone (plain_pieces whole docinfo)
                  (nb_get_value x metas) (no_texts x o.env c false same) reads' j,
          ap
                (λ ps.
                  tokenize_pieces x o.env c false same ps
                    (docinfo.nwords, no_tokens x o.env c false same))
                (sym pieces_are)
              ∙ at₂.tokenized,
          empty₂,
        ),
      )
