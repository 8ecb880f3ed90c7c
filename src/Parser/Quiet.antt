-- ===== src/Parser/Quiet.antt =====
-- What the functions of src/libswish3/parser.c leave alone.
pub mod Unknown
pub mod Freed
pub mod Ignoring
use libswish.Config.{Pointer}
use libswish.Config.Whole.{Config, metas_ignore}
use libswish.LibXml.{LibXml}
use libswish.Parser.{
  Env, ParserData, tokenize_meta, flush_buffer, add_own, add_to_stack, add_stack_to_prop_buf,
  buffer_characters,
}
use libswish.Parser.Baking.{html_bump, is_undefined, undefined_xml, xml_undefined, bake_plain}
use libswish.Parser.Tags.{
  drop_tag, pointer_to, top, baked_name, push_dom, open_property, open_meta, opened, open_plain,
  close_property, close_meta, close_dom, close_tag,
}
use libswish.Prelude.{
  ℕ, ◌<◌, ◌≤◌, Bool, true, false, ◌≡◌, refl, ◌∙◌, List, [], ◌∷◌, Option, none, some, Bytes, Run, ok,
  croak, ◌>>=◌, if◌then◌else◌, arith, Partial, >>=-Partial, >>=-any, Partial-mono, Bool-cases, inl,
  inr,
}

module _ (x : LibXml) where
  -- The configuration, the kind of document and whether text is ignored.
  pub record Quiet (pd pd' : ParserData x) : Type 0 where
    pub same_config : pd'.config ≡ pd.config
    pub same_kind : pd'.is_html ≡ pd.is_html
    pub same_ignore : pd'.ignore_content ≡ pd.ignore_content

  -- A run that may make more text be ignored, and never less.
  pub record Mute (pd pd' : ParserData x) : Type 0 where
    pub same_config : pd'.config ≡ pd.config
    pub same_kind : pd'.is_html ≡ pd.is_html
    pub no_louder : pd.ignore_content ≤ pd'.ignore_content

module _ (x : LibXml) (env : Env x) where
  pub flush_buffer-Quiet :
      (name context : Bytes) (pd : ParserData x)
      → Partial (Quiet x pd) (flush_buffer x env name context pd)
  unfolding flush_buffer tokenize_meta
  flush_buffer-Quiet name context pd = ground arith

  add_stack-Quiet :
      (name : Option Bytes) (pd : ParserData x)
      → Partial (Quiet x pd) (add_stack_to_prop_buf x env name pd)
  unfolding add_stack_to_prop_buf
  add_stack-Quiet name pd = ground arith

  pub buffer_characters-Quiet :
      (ch : Bytes) (pd : ParserData x) → Partial (Quiet x pd) (buffer_characters x env ch pd)
  unfolding buffer_characters
  buffer_characters-Quiet ch pd = ground arith

  Quiet-trans : (a b c : ParserData x) → Quiet x a b → Quiet x b c → Quiet x a c
  Quiet-trans a b c q r = ground (arith, q, r)

  then-Quiet :
      (pd : ParserData x) (m : Run (ParserData x)) (f : ParserData x → Run (ParserData x))
      → Partial (Quiet x pd) m
      → ((pd₁ : ParserData x) → Partial (Quiet x pd₁) (f pd₁))
      → Partial (Quiet x pd) (m >>= f)
  then-Quiet pd m f h k = >>=-Partial (Quiet x pd) (Quiet x pd) m f h λ pd₁ q.
      Partial-mono (Quiet x pd₁) (Quiet x pd) (f pd₁) (k pd₁) λ pd₂ r. Quiet-trans pd pd₁ pd₂ q r

  push_dom-Quiet :
      (tag : Bytes) (swishtag : Option Bytes) (pd : ParserData x)
      → Partial (Quiet x pd) (push_dom x env tag swishtag pd)
  unfolding push_dom
  push_dom-Quiet tag swishtag pd = ground arith

  open_property-Quiet :
      (tag : Bytes) (swishtag : Option Bytes) (context : Bytes) (pd : ParserData x)
      → Partial (Quiet x pd) (open_property x env tag swishtag context pd)
  unfolding open_property
  open_property-Quiet tag swishtag context pd = ground (arith, add_stack-Quiet none pd)

  open_meta-Quiet :
      (tag : Bytes) (swishtag : Option Bytes) (context : Bytes) (pd : ParserData x)
      → Partial (Quiet x pd) (open_meta x env tag swishtag context pd)
  unfolding open_meta
  open_meta-Quiet tag swishtag context pd = grind (arith, flush_buffer-Quiet)

  pub opened-Quiet :
      (tag : Bytes) (swishtag : Option Bytes) (pd : ParserData x)
      → Partial (Quiet x pd) (opened x env tag swishtag pd)
  unfolding opened
  opened-Quiet tag swishtag pd =
      then-Quiet pd (push_dom x env tag swishtag pd)
        (λ pd₁. top pd₁.domstack >>= λ head.
          open_property x env tag swishtag head.context pd₁
          >>= open_meta x env tag swishtag head.context)
        (push_dom-Quiet tag swishtag pd)
        λ pd₁.
          >>=-any (Quiet x pd₁) (top pd₁.domstack)
            (λ head.
              open_property x env tag swishtag head.context pd₁
              >>= open_meta x env tag swishtag head.context)
            λ head.
              then-Quiet pd₁ (open_property x env tag swishtag head.context pd₁)
                (open_meta x env tag swishtag head.context)
                (open_property-Quiet tag swishtag head.context pd₁)
                (open_meta-Quiet tag swishtag head.context)

  close_property-Quiet :
      (tag : Bytes) (pd : ParserData x) → Partial (Quiet x pd) (close_property x env tag pd)
  unfolding close_property
  close_property-Quiet tag pd = grind (arith, add_stack-Quiet)

  close_meta-Quiet :
      (tag : Bytes) (pd : ParserData x) → Partial (Quiet x pd) (close_meta x env tag pd)
  unfolding close_meta
  close_meta-Quiet tag pd = grind (arith, flush_buffer-Quiet)

  close_dom-Quiet : (pd : ParserData x) → Partial (Quiet x pd) (close_dom x env pd)
  unfolding close_dom
  close_dom-Quiet pd = ground arith

  bake_html-Quiet :
      (tag : Bytes) (prefix : Option Bytes) (pd : ParserData x)
      → pd.is_html ≡ true
      → Partial (λ r. Quiet x pd r.1) (bake_plain x env tag prefix pd)
  unfolding bake_plain html_bump
  bake_html-Quiet tag prefix pd h = ground (arith, h)

  pub undefined_xml-Mute :
      (name : Bytes) (pd : ParserData x)
      → pd.config.flags.undef_metas ≡ metas_ignore
      → Partial
          (λ pd'.
            Mute x pd pd'
            × (is_undefined x env name pd ≡ true → pd.ignore_content < pd'.ignore_content))
          (xml_undefined x env name pd)
  unfolding xml_undefined undefined_xml
  undefined_xml-Mute name pd h = ground (arith, h)

  pub bake_xml-Mute :
      (tag : Bytes) (prefix : Option Bytes) (pd : ParserData x)
      → pd.is_html ≡ false
      → pd.config.flags.undef_metas ≡ metas_ignore
      → Partial (λ r. Mute x pd r.1) (bake_plain x env tag prefix pd)
  unfolding bake_plain
  bake_xml-Mute tag prefix pd h i = grind (arith, undefined_xml-Mute)

  pub Mute-Quiet :
      (pd pd₁ : ParserData x) (m : Run (ParserData x))
      → Mute x pd pd₁
      → Partial (Quiet x pd₁) m
      → Partial (Mute x pd) m
  Mute-Quiet pd pd₁ m q h = Partial-mono (Quiet x pd₁) (Mute x pd) m h λ pd₂ r. ground (arith, q, r)

  -- What `close_tag` does behind `bake_tag`.
  abbrev closing_of : Bytes → Option Bytes → ParserData x → Run (ParserData x)
  closing_of tag swishtag pd =
      let pd₁ = record pd { tag = pointer_to swishtag } in
      elim swishtag [
        | none ↦ ok pd₁
        | some s ↦
            close_property x env tag pd₁ >>= λ pd₂. close_meta x env tag pd₂ >>= close_dom x env
      ]

  closing_of-Quiet :
      (tag : Bytes) (swishtag : Option Bytes) (pd : ParserData x)
      → Partial (Quiet x pd) (closing_of tag swishtag pd)
  closing_of-Quiet tag none pd = record { same_config = refl; same_kind = refl; same_ignore = refl }
  closing_of-Quiet tag (some s) pd =
      let pd₁ = record pd { tag = Pointer.to s } in
      let after_meta = λ (pd₂ : ParserData x). close_meta x env tag pd₂ >>= close_dom x env in
      Partial-mono (Quiet x pd₁) (Quiet x pd) (close_property x env tag pd₁ >>= after_meta)
        (then-Quiet pd₁ (close_property x env tag pd₁) after_meta (close_property-Quiet tag pd₁)
          λ pd₂.
            then-Quiet pd₂ (close_meta x env tag pd₂) (close_dom x env) (close_meta-Quiet tag pd₂)
              close_dom-Quiet)
        λ pd₂ q. ground (arith, q)

  pub open_plain-Mute :
      (tag : Bytes) (prefix : Option Bytes) (pd : ParserData x)
      → pd.is_html ≡ false
      → pd.config.flags.undef_metas ≡ metas_ignore
      → Partial (Mute x pd) (open_plain x env tag prefix pd)
  unfolding open_plain
  open_plain-Mute tag prefix pd h i =
      >>=-any (Mute x pd) (drop_tag pd.tag)
        (λ dropped. bake_plain x env tag prefix (record pd { tag = dropped }) >>= λ r.
          opened x env tag r.0 r.1)
        λ dropped.
          >>=-Partial (λ r. Mute x pd r.1) (Mute x pd)
            (bake_plain x env tag prefix (record pd { tag = dropped }))
            (λ r. opened x env tag r.0 r.1)
            (Partial-mono (λ r. Mute x (record pd { tag = dropped }) r.1) (λ r. Mute x pd r.1)
              (bake_plain x env tag prefix (record pd { tag = dropped }))
              (bake_xml-Mute tag prefix (record pd { tag = dropped }) h i) λ r q. ground (arith, q))
            λ r q. Mute-Quiet pd r.1 (opened x env tag r.0 r.1) q (opened-Quiet tag r.0 r.1)

  pub close_tag-Mute :
      (tag : Bytes) (prefix : Option Bytes) (pd : ParserData x)
      → pd.is_html ≡ false
      → pd.config.flags.undef_metas ≡ metas_ignore
      → Partial (Mute x pd) (close_tag x env tag prefix pd)
  unfolding close_tag
  close_tag-Mute tag prefix pd h i =
      >>=-any (Mute x pd) (drop_tag pd.tag)
        (λ dropped.
          bake_plain x env tag prefix (record pd { tag = dropped }) >>= λ r. closing_of tag r.0 r.1)
        λ dropped.
          >>=-Partial (λ r. Mute x pd r.1) (Mute x pd)
            (bake_plain x env tag prefix (record pd { tag = dropped }))
            (λ r. closing_of tag r.0 r.1)
            (Partial-mono (λ r. Mute x (record pd { tag = dropped }) r.1) (λ r. Mute x pd r.1)
              (bake_plain x env tag prefix (record pd { tag = dropped }))
              (bake_xml-Mute tag prefix (record pd { tag = dropped }) h i) λ r q. ground (arith, q))
            λ r q. Mute-Quiet pd r.1 (closing_of tag r.0 r.1) q (closing_of-Quiet tag r.0 r.1)
