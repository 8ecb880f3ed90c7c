-- ===== src/Parser/Content/Whole.antt =====
-- A whole document: from a new state, through all its events, to the texts and tokens that the
-- handler of the program sees.
use libswish.Config.{Pointer, Property, MetaName}
use libswish.Config.Defaults.{default_metaname}
use libswish.Config.Whole.{Config}
use libswish.DocInfo.{DocInfo}
use libswish.LibXml.{LibXml, IsLibXml}
use libswish.NamedBuffer.{NamedBuffer, nb_init, nb_get_value}
use libswish.NamedBuffer.Init.{nb_init-reads}
use libswish.NamedBuffer.Values as Named
use libswish.Parser.{Env, ParserData, dom_str, flush_buffer}
use libswish.Parser.Content.{
  Content, events_of, Place, Piece, Progress, walk, hand_on, store_pieces, store_text,
}
use libswish.Parser.Content.Flushing.{Accepted-before, flushed, flush_buffer-Reached}
use libswish.Parser.Content.State.{Vars, IsPlain, state, Fits, Ready, tokenize_pieces}
use libswish.Parser.Content.Stepping.{handle_events-append}
use libswish.Parser.Content.Walking.{walks}
use libswish.Parser.Documents.{no_tags, init_parser_data}
use libswish.Parser.Events.{Event, end_document, handle_event, handle_events}
use libswish.Prelude.{
  ℕ, Bool, true, ◌≡◌, ◌≢◌, refl, ◌∙◌, ap, inl, inr, List, [], ◌∷◌, ◌++◌, Option, none, some, Bytes,
  Run, ok, ◌>>=◌, Returns, arith, Option-cases, if◌then◌else◌, eq_bytes,
}
use libswish.TagStack.{flatten_from}
use libswish.TagStack.Contexts as Stacks
use libswish.TagStack.Contexts.{pushed, push_tag_stack_lem, pushed-IsValid}
use libswish.TokenList.{TokenIterator, token_list_init}

-- Text in front of the first metaname.
abbrev pub outermost : Place
outermost = record { name = default_metaname; context = default_metaname }

abbrev pub fresh : Progress
fresh = record { waiting = []; bump = true; pieces = [] }

module _ (x : LibXml) (env : Env x) (c : Config x) (is_html : Bool) (lower : Bytes → Bytes) where
  -- All that a document hands on, with the rest at its end.
  abbrev pub handed_on : Content → List Piece
  handed_on content =
      (hand_on outermost (walk x env c is_html lower outermost content fresh)).pieces

  -- The configured names, with no text.
  abbrev pub no_texts : Bytes → Option Bytes
  no_texts j = elim (x.lookup MetaName c.metanames j) [ none ↦ none | some m ↦ some [] ]

  abbrev pub no_tokens : TokenIterator x
  no_tokens = record { tl = token_list_init x; pos = 0 }

module _ (x : LibXml) (laws : IsLibXml x) (env : Env x) (c : Config x) (plain : IsPlain x c)
    (is_html : Bool) (lower : Bytes → Bytes)
    (include : Bytes → Bool → ParserData x → Run (ParserData x)) where
  abbrev st : Vars x → ParserData x
  st = state x env c is_html lower

  abbrev pub start : DocInfo → NamedBuffer x → NamedBuffer x → Vars x
  start docinfo props metas = record {
    tag = Pointer.null;
    docinfo = docinfo;
    properties = props;
    metanames = metas;
    domstack = no_tags x;
    metastack = pushed 47 (no_tags x) default_metaname default_metaname;
    propstack = pushed 47 (no_tags x) dom_str dom_str;
    meta_buf = [];
    prop_buf = [];
    bump_word = true;
    token_iterator = no_tokens x env c is_html lower;
  }

  pub init_steps :
      (docinfo : DocInfo) (props metas : NamedBuffer x)
      → nb_init x c.properties ≡ ok props
      → nb_init x c.metanames ≡ ok metas
      → (init_parser_data x c docinfo >>= λ pd. ok (record pd { is_html = is_html }))
        ≡ ok (st (start docinfo props metas))
  unfolding init_parser_data
  init_steps docinfo props metas e f = ground (
    arith,
    e,
    f,
    push_tag_stack_lem 47 (no_tags x) default_metaname default_metaname,
    push_tag_stack_lem 47 (no_tags x) dom_str dom_str,
  )

  known_name :
      {V : Type 0} (t : x.Table V) (nb : NamedBuffer x)
      → ((j : Bytes)
          → nb_get_value x nb j ≡ elim (x.lookup V t j) [ none ↦ none | some a ↦ some [] ])
      → (name : Bytes) → x.lookup V t name ≢ none
      → nb_get_value x nb name ≢ none
  known_name {V} t nb reads name known gone = elim (Option-cases (x.lookup V t name)) [
    | inl absent ↦ known absent
    | inr (a, present) ↦ absurd (ground (arith, reads name, present, gone))
  ]

  no_tags-IsValid : (join : ℕ) → Stacks.IsValid join (no_tags x)
  no_tags-IsValid join = record { count_is = refl; paths = tt }

  start-Ready :
      (docinfo : DocInfo) (props metas : NamedBuffer x)
      → x.lookup MetaName c.metanames default_metaname ≢ none
      → Named.IsValid x props
      → Named.IsValid x metas
      → ((j : Bytes)
          → nb_get_value x props j
            ≡ elim (x.lookup Property c.properties j) [ none ↦ none | some a ↦ some [] ])
      → Ready x env c is_html lower outermost (start docinfo props metas)
  unfolding flatten_from
  start-Ready docinfo props metas default vp vm reads = record {
    not_freed = λ h. absurd cc;
    metas = vm;
    props = vp;
    props_there = known_name c.properties props reads;
    dom = no_tags-IsValid 46;
    meta = pushed-IsValid 47 (no_tags x) default_metaname default_metaname (no_tags-IsValid 47);
    prop = pushed-IsValid 47 (no_tags x) dom_str dom_str (no_tags-IsValid 47);
    meta_top = record {
      top = record {
        raw = default_metaname;
        baked = default_metaname;
        context = default_metaname;
        n = 0;
      };
      below = [];
      head_is = refl;
      name_is = refl;
      context_is = refl;
      known = default;
      opened = inl refl;
    };
    prop_top = record {
      top = record { raw = dom_str; baked = dom_str; context = dom_str; n = 0 };
      below = [];
      head_is = refl;
      opened = inl refl;
    };
    prop_names = (inl refl, tt);
  }

  last_steps :
      (es : List Event) (pd pd₁ pd₂ : ParserData x)
      → handle_events x env include es pd ≡ ok pd₁
      → flush_buffer x env default_metaname default_metaname pd₁ ≡ ok pd₂
      → handle_events x env include (es ++ end_document ∷ []) pd ≡ ok pd₂
  unfolding handle_events handle_event
  last_steps es pd pd₁ pd₂ e f =
      handle_events-append x laws env c plain is_html lower include es (end_document ∷ []) pd
      ∙ ap (λ m. m >>= handle_events x env include (end_document ∷ [])) e
      ∙ ap (λ m. m >>= ok) f

  -- A parser's run over a document, from a new state to the end.
  abbrev pub parsed : Content → DocInfo → Run (ParserData x)
  parsed content docinfo =
      (init_parser_data x c docinfo >>= λ pd. ok (record pd { is_html = is_html }))
      >>= handle_events x env include (events_of is_html content ++ end_document ∷ [])

  pub store_pieces-cong :
      (ps : List Piece) (f g : Bytes → Option Bytes)
      → ((j : Bytes) → f j ≡ g j)
      → (j : Bytes) → store_pieces ps f j ≡ store_pieces ps g j
  store_pieces-cong [] f g h j = h j
  store_pieces-cong (p ∷ ps) f g h j =
      store_pieces-cong ps (λ i. if eq_bytes i p.place.name then store_text (f i) p.words else f i)
        (λ i. if eq_bytes i p.place.name then store_text (g i) p.words else g i)
        (λ i. ap (λ o. if eq_bytes i p.place.name then store_text o p.words else o) (h i)) j

  -- A document of elements without attributes and of text, with neither comments nor includes in
  -- it, and a plain configuration that knows the default metaname: if the tokenizer ends normally
  -- on the pieces that a walk over the tree hands on, taken in their order, then the callbacks on
  -- the events of the document end normally. The text of each metaname is then that of the pieces
  -- which a walk over the tree hands on, each joined to the ones before it and left out if it is
  -- all white space; the tokenizer has had the same pieces in the same order with their contexts;
  -- no text waits; and the stacks are those of a new state.
  pub parsed-walk :
      (content : Content) (docinfo : DocInfo) (r : ℕ × TokenIterator x)
      → x.lookup MetaName c.metanames default_metaname ≢ none
      → Fits x env c is_html lower content
      → tokenize_pieces x env c is_html lower
          (handed_on x env c is_html lower content)
          (docinfo.nwords, no_tokens x env c is_html lower)
        ≡ ok r
      → Returns (parsed content docinfo) (λ pd.
        ((j : Bytes)
          → nb_get_value x pd.metanames j
            ≡ store_pieces
                (handed_on x env c is_html lower content)
                (no_texts x env c is_html lower)
                j)
        × (tokenize_pieces x env c is_html lower
              (handed_on x env c is_html lower content)
              (docinfo.nwords, no_tokens x env c is_html lower)
            ≡ ok (pd.docinfo.nwords, pd.token_iterator))
        × (pd.meta_buf ≡ [])
        × (pd.domstack ≡ no_tags x)
        × (pd.metastack ≡ pushed 47 (no_tags x) default_metaname default_metaname)
        × (pd.propstack ≡ pushed 47 (no_tags x) dom_str dom_str))
  parsed-walk content docinfo r default fits tokens =
      let (props, e, (vp, reads)) = nb_init-reads x laws c.properties in
      let (metas, f, (vm, reads')) = nb_init-reads x laws c.metanames in
      let v0 = start docinfo props metas in
      let (w, runs, same, ready, at) =
        walks x laws env c plain is_html lower include content outermost v0 v0 fresh fits
          (start-Ready docinfo props metas default vp vm reads)
          (record { waiting_is = refl; bump_is = refl; stored = λ j. refl; tokenized = refl })
          (Accepted-before x laws env c plain is_html lower outermost v0
            (walk x env c is_html lower outermost content fresh) (r, tokens, tt)) in
      let (nb, n, flushes, valid, at') =
        flush_buffer-Reached x laws env c plain is_html lower outermost v0 w
          (walk x env c is_html lower outermost content fresh) default ready.metas at
          (r, tokens, tt) in
      (
        st (flushed x laws env c plain is_html lower w nb n),
        ap (λ m. m >>= handle_events x env include (events_of is_html content ++ end_document ∷ []))
              (init_steps docinfo props metas e f)
            ∙ last_steps (events_of is_html content) (st v0) (st w)
                (st (flushed x laws env c plain is_html lower w nb n)) runs flushes,
        (
          λ j.
              at'.stored j
              ∙ store_pieces-cong (handed_on x env c is_html lower content) (nb_get_value x metas)
                  (no_texts x env c is_html lower) reads' j,
          at'.tokenized,
          refl,
          same.same_dom,
          same.same_meta,
          same.same_prop,
        ),
      )
