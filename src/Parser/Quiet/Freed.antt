-- ===== src/Parser/Quiet/Freed.antt =====
-- The tag that `bake_tag` leaves behind where attributes are metanames.
use libswish.Config.{Pointer}
use libswish.Hash.{hash_exists}
use libswish.LibXml.{LibXml}
use libswish.Parser.{
  Env, ParserData, tokenize_meta, flush_buffer, add_stack_to_prop_buf, dot, buffer_characters,
}
use libswish.Parser.Attributes.{class_words, xml_att, xml_atts}
use libswish.Parser.Baking.{class_names, name_of, html_bump, xml_undefined, find_alias, bake_plain}
use libswish.Parser.Tags.{
  pointer_to, free_tag, drop_tag, open_plain, close_property, close_meta, close_dom, close_tag,
  tag_with_content,
}
use libswish.Prelude.{
  true, ◌≡◌, refl, sym, subst, ◌∙◌, [], ◌∷◌, ◌++◌, Option, none, some, Bytes, Run, ok, croak, ◌>>=◌,
  if◌then◌else◌, arith, Partial, >>=-Partial, >>=-any, Partial-mono, double_free,
}
use libswish.Str.{str_tolower}
use libswish.TagStack.{Tag, TagStack, pop_tag_stack_on_match}

module _ (x : LibXml) (env : Env x) where
  -- The tag of the parser is the same.
  SameTag : ParserData x → ParserData x → Type 0
  SameTag pd pd' = pd'.tag ≡ pd.tag

  flush_buffer-SameTag :
      (name context : Bytes) (pd : ParserData x)
      → Partial (SameTag pd) (flush_buffer x env name context pd)
  unfolding flush_buffer tokenize_meta SameTag
  flush_buffer-SameTag name context pd = ground arith

  add_stack-SameTag :
      (name : Option Bytes) (pd : ParserData x)
      → Partial (SameTag pd) (add_stack_to_prop_buf x env name pd)
  unfolding add_stack_to_prop_buf SameTag
  add_stack-SameTag name pd = ground arith

  close_property-SameTag :
      (tag : Bytes) (pd : ParserData x) → Partial (SameTag pd) (close_property x env tag pd)
  unfolding close_property SameTag
  close_property-SameTag tag pd = grind (arith, add_stack-SameTag)

  flush_on-SameTag :
      (pd : ParserData x) (t : Option Tag) (stack : TagStack)
      → Partial (SameTag pd) (elim t [
        | none ↦ ok (record pd { metastack = stack })
        | some st ↦ flush_buffer x env st.baked st.context (record pd { metastack = stack })
      ])
  unfolding SameTag
  flush_on-SameTag pd none stack = refl
  flush_on-SameTag pd (some st) stack =
      flush_buffer-SameTag st.baked st.context (record pd { metastack = stack })

  close_meta-SameTag :
      (tag : Bytes) (pd : ParserData x) → Partial (SameTag pd) (close_meta x env tag pd)
  unfolding close_meta SameTag
  close_meta-SameTag tag pd =
      >>=-any (SameTag pd) (pop_tag_stack_on_match pd.metastack tag)
        (λ r. elim r.0 [
          | none ↦ ok (record pd { metastack = r.1 })
          | some st ↦ flush_buffer x env st.baked st.context (record pd { metastack = r.1 })
        ])
        λ r. flush_on-SameTag pd r.0 r.1

  close_dom-SameTag : (pd : ParserData x) → Partial (SameTag pd) (close_dom x env pd)
  unfolding close_dom SameTag
  close_dom-SameTag pd = ground arith

  -- The tag is set.
  HasTag : ParserData x → Type 0
  HasTag pd = (s : Bytes) × (pd.tag ≡ Pointer.to s)

  closed-HasTag :
      (tag s : Bytes) (pd : ParserData x)
      → pd.tag ≡ Pointer.to s
      → Partial HasTag
          (close_property x env tag pd >>= λ pd₂. close_meta x env tag pd₂ >>= close_dom x env)
  unfolding HasTag SameTag
  closed-HasTag tag s pd e =
      >>=-Partial (SameTag pd) HasTag (close_property x env tag pd)
        (λ pd₂. close_meta x env tag pd₂ >>= close_dom x env) (close_property-SameTag tag pd)
        λ pd₂ q.
          >>=-Partial (SameTag pd₂) HasTag (close_meta x env tag pd₂) (close_dom x env)
            (close_meta-SameTag tag pd₂)
            λ pd₃ r.
              Partial-mono (SameTag pd₃) HasTag (close_dom x env pd₃) (close_dom-SameTag pd₃)
                λ pd₄ t. (s, t ∙ r ∙ q ∙ e)

  bake_plain-some :
      (tag : Bytes) (prefix : Option Bytes) (pd : ParserData x)
      → Partial (λ r. (s : Bytes) × (r.0 ≡ some s)) (bake_plain x env tag prefix pd)
  unfolding bake_plain
  bake_plain-some tag prefix pd =
      let IsSome = λ (r : Option Bytes × ParserData x). (s : Bytes) × (r.0 ≡ some s) in
      let aliased = λ (swishtag : Bytes) (pd₁ : ParserData x).
        find_alias x env swishtag pd₁ >>= λ baked. ok (some baked, pd₁) in
      let marked = λ (swishtag : Bytes).
        if pd.is_html
        then ok (html_bump x env swishtag pd)
        else xml_undefined x env swishtag (record pd { bump_word = true }) in
      >>=-any IsSome (name_of x env tag prefix pd)
        (λ swishtag. marked swishtag >>= aliased swishtag)
        λ swishtag. >>=-any IsSome (marked swishtag) (aliased swishtag) λ pd₁.
          >>=-any IsSome (find_alias x env swishtag pd₁) (λ baked. ok (some baked, pd₁))
            λ baked. (baked, refl)

  abbrev closing : Bytes → Option Bytes × ParserData x → Run (ParserData x)
  closing tag r = elim r.0 [
    | none ↦ ok (record (r.1) { tag = pointer_to r.0 })
    | some swishtag ↦ close_property x env tag (record (r.1) { tag = pointer_to r.0 }) >>= λ pd₂.
        close_meta x env tag pd₂ >>= close_dom x env
  ]

  closing-HasTag :
      (tag : Bytes) (r : Option Bytes × ParserData x)
      → ((s : Bytes) × (r.0 ≡ some s))
      → Partial HasTag (closing tag r)
  closing-HasTag tag (none, pd) (s, e) = absurd cc
  closing-HasTag tag (some t, pd) (s, e) =
      closed-HasTag tag t (record pd { tag = Pointer.to t }) refl

  close_tag-HasTag :
      (tag : Bytes) (prefix : Option Bytes) (pd : ParserData x)
      → Partial HasTag (close_tag x env tag prefix pd)
  unfolding close_tag
  close_tag-HasTag tag prefix pd =
      >>=-any HasTag (drop_tag pd.tag)
        (λ dropped. bake_plain x env tag prefix (record pd { tag = dropped }) >>= closing tag)
        λ dropped.
          >>=-Partial (λ r. (s : Bytes) × (r.0 ≡ some s)) HasTag
            (bake_plain x env tag prefix (record pd { tag = dropped })) (closing tag)
            (bake_plain-some tag prefix (record pd { tag = dropped })) (closing-HasTag tag)

  tag_with_content-frees :
      (metaname content : Bytes) (prefix : Option Bytes) (pd : ParserData x)
      → Partial (λ pd'. pd'.tag ≡ Pointer.freed) (tag_with_content x env metaname content prefix pd)
  unfolding tag_with_content free_tag HasTag
  tag_with_content-frees metaname content prefix pd =
      let IsFreed = λ (pd' : ParserData x). pd'.tag ≡ Pointer.freed in
      let free =
        λ (pd₃ : ParserData x). free_tag pd₃.tag >>= λ freed. ok (record pd₃ { tag = freed }) in
      let close = λ (pd₂ : ParserData x). close_tag x env metaname prefix pd₂ >>= free in
      >>=-any IsFreed (open_plain x env metaname prefix (record pd { bump_word = true }))
        (λ pd₁. buffer_characters x env content pd₁ >>= close)
        λ pd₁. >>=-any IsFreed (buffer_characters x env content pd₁) close λ pd₂.
          >>=-Partial HasTag IsFreed (close_tag x env metaname prefix pd₂) free
            (close_tag-HasTag metaname prefix pd₂) λ pd₃ (s, e). rw e refl

  tag_with_content-again :
      (metaname content : Bytes) (prefix : Option Bytes) (pd : ParserData x)
      → pd.tag ≡ Pointer.freed
      → tag_with_content x env metaname content prefix pd ≡ croak double_free
  unfolding tag_with_content open_plain drop_tag free_tag
  tag_with_content-again metaname content prefix pd e = rw e refl

  xml_att-tag :
      (att value a v swishtag : Bytes) (prefix : Option Bytes) (pd : ParserData x)
      → str_tolower env.wide att ≡ ok a
      → str_tolower env.wide value ≡ ok v
      → hash_exists x pd.config.metanames (class_names (class_words x env) a v swishtag ++ dot ∷ a)
        ≡ true
      → xml_att x env att value prefix (swishtag, pd) ≡ (
          tag_with_content x env
            (class_names (class_words x env) a v swishtag ++ dot ∷ a)
            v
            prefix
            pd
          >>= λ pd'. ok (class_names (class_words x env) a v swishtag, pd'))
  unfolding xml_att
  xml_att-tag att value a v swishtag prefix pd e f m = rw e (rw f (ground (arith, m)))

  -- The first of two attributes of a tag, each a metaname behind it, leaves the tag freed, and if it
  -- is done without an error the second frees it again.
  pub xml_att-double_free :
      (att value a v att' value' a' v' swishtag swishtag' : Bytes) (prefix : Option Bytes)
      (pd pd' : ParserData x)
      → str_tolower env.wide att ≡ ok a
      → str_tolower env.wide value ≡ ok v
      → str_tolower env.wide att' ≡ ok a'
      → str_tolower env.wide value' ≡ ok v'
      → hash_exists x pd.config.metanames (class_names (class_words x env) a v swishtag ++ dot ∷ a)
        ≡ true
      → hash_exists x pd'.config.metanames
          (class_names (class_words x env) a' v' swishtag' ++ dot ∷ a')
        ≡ true
      → xml_att x env att value prefix (swishtag, pd) ≡ ok (swishtag', pd')
      → (pd'.tag ≡ Pointer.freed)
        × (xml_atts x env
              (some att ∷ some value ∷ some att' ∷ some value' ∷ [])
              prefix
              (swishtag, pd)
            ≡ croak double_free)
  unfolding xml_atts
  xml_att-double_free att value a v att' value' a' v' swishtag swishtag' prefix pd pd' ea ev ea' ev'
        m m' run =
      let done = λ (pd₁ : ParserData x). ok (class_names (class_words x env) a v swishtag, pd₁) in
      let IsFreed = λ (r : Bytes × ParserData x). (r.1).tag ≡ Pointer.freed in
      let name = class_names (class_words x env) a v swishtag ++ dot ∷ a in
      let partly : Partial IsFreed (tag_with_content x env name v prefix pd >>= done) =
        >>=-Partial (λ pd₁. pd₁.tag ≡ Pointer.freed) IsFreed
          (tag_with_content x env name v prefix pd) done (tag_with_content-frees name v prefix pd)
          λ pd₁ e. e in
      let freed : pd'.tag ≡ Pointer.freed =
        subst (Partial IsFreed) (sym (xml_att-tag att value a v swishtag prefix pd ea ev m) ∙ run)
          partly in
      (
        freed,
        rw run (
            rw (xml_att-tag att' value' a' v' swishtag' prefix pd' ea' ev' m') (
              rw
                (tag_with_content-again
                  (class_names (class_words x env) a' v' swishtag' ++ dot ∷ a') v' prefix pd' freed)
                refl)),
      )
