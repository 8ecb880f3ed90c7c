-- ===== src/Parser/Quiet/Ignoring.antt =====
-- Text in a document of which unknown tags are to be ignored.
use libswish.Config.{Pointer}
use libswish.LibXml.{LibXml}
use libswish.Config.Whole.{metas_ignore}
use libswish.Parser.{Env, ParserData, buffer_characters}
use libswish.Parser.Attributes.{bake_tag, open_tag}
use libswish.Parser.Baking.{name_of, is_undefined, bake_plain, find_alias, xml_undefined}
use libswish.Parser.Events.{
  Event, start_element_ns, end_element_ns, characters, sax_atts, follow_xinclude, handle_event,
  handle_events,
}
use libswish.Parser.Tags.{drop_tag, open_plain, opened}
use libswish.Parser.Quiet.{
  Quiet, Mute, opened-Quiet, open_plain-Mute, close_tag-Mute, buffer_characters-Quiet,
  undefined_xml-Mute, Mute-Quiet,
}
use libswish.Prelude.{
  ◌<◌, Bool, true, false, ◌≡◌, refl, sym, subst, ◌∙◌, ap, List, [], ◌∷◌, Option, some, Bytes, Run,
  ok, ◌>>=◌, arith, Partial, >>=-Partial, >>=-any, Partial-mono,
}

-- What `handle_event` is given of an XML document whose elements have no attributes.
pub data Part : Type 0 where
  opens : Bytes → Option Bytes → Option Bytes → Part
  closes : Bytes → Option Bytes → Part
  says : Bytes → Part

abbrev pub event_of : Part → Event
event_of (opens name prefix uri) = start_element_ns name prefix uri []
event_of (closes name prefix) = end_element_ns name prefix
event_of (says ch) = characters ch

abbrev pub parts_of : List Part → List Event
parts_of [] = []
parts_of (p ∷ ps) = event_of p ∷ parts_of ps

module _ (x : LibXml) (env : Env x)
    (include : Bytes → Bool → ParserData x → Run (ParserData x)) where
  -- An XML document in which unknown tags are ignored.
  pub record Ignores (pd : ParserData x) : Type 0 where
    pub xml : pd.is_html ≡ false
    pub ignores : pd.config.flags.undef_metas ≡ metas_ignore

  Mute-refl : (pd : ParserData x) → Mute x pd pd
  Mute-refl pd = record { same_config = refl; same_kind = refl; no_louder = omega arith }

  kept : (pd pd₁ : ParserData x) → Ignores pd → Mute x pd pd₁ → Ignores pd₁
  kept pd pd₁ i q = record {
    xml = q.same_kind ∙ i.xml;
    ignores = ap (λ c. c.flags.undef_metas) q.same_config ∙ i.ignores;
  }

  event-Mute :
      (p : Part) (pd : ParserData x)
      → Ignores pd
      → Partial (Mute x pd) (handle_event x env include (event_of p) pd)
  unfolding handle_event sax_atts follow_xinclude open_tag bake_tag open_plain
  event-Mute (opens name prefix uri) pd i = open_plain-Mute x env name prefix pd i.xml i.ignores
  event-Mute (closes name prefix) pd i = close_tag-Mute x env name prefix pd i.xml i.ignores
  event-Mute (says ch) pd i =
      Mute-Quiet x env pd pd (buffer_characters x env ch pd) (Mute-refl pd)
        (buffer_characters-Quiet x env ch pd)

  parts-Mute :
      (ps : List Part) (pd : ParserData x)
      → Ignores pd
      → Partial (Mute x pd) (handle_events x env include (parts_of ps) pd)
  unfolding handle_events
  parts-Mute [] pd i = Mute-refl pd
  parts-Mute (p ∷ ps) pd i =
      >>=-Partial (Mute x pd) (Mute x pd) (handle_event x env include (event_of p) pd)
        (handle_events x env include (parts_of ps)) (event-Mute p pd i)
        λ pd₁ q.
          Partial-mono (Mute x pd₁) (Mute x pd) (handle_events x env include (parts_of ps) pd₁)
            (parts-Mute ps pd₁ (kept pd pd₁ i q)) λ pd₂ r. ground (arith, q, r)

  -- More text is ignored than before.
  Silenced : ParserData x → ParserData x → Type 0
  Silenced pd pd' = Mute x pd pd' × (0 < pd'.ignore_content)

  bake_plain_xml :
      (name swishtag : Bytes) (prefix : Option Bytes) (pd : ParserData x)
      → Ignores pd
      → name_of x env name prefix pd ≡ ok swishtag
      → bake_plain x env name prefix pd ≡ (
          xml_undefined x env swishtag (record pd { bump_word = true }) >>= λ pd₁.
          find_alias x env swishtag pd₁ >>= λ baked. ok (some baked, pd₁))
  unfolding bake_plain
  bake_plain_xml name swishtag prefix pd i e = rw e (ground (arith, i.xml))

  bake_undefined-Silenced :
      (name swishtag : Bytes) (prefix : Option Bytes) (pd : ParserData x)
      → Ignores pd
      → name_of x env name prefix pd ≡ ok swishtag
      → is_undefined x env swishtag (record pd { bump_word = true }) ≡ true
      → Partial (λ r. Silenced pd r.1) (bake_plain x env name prefix pd)
  unfolding Silenced
  bake_undefined-Silenced name swishtag prefix pd i e u =
      let loud = record pd { bump_word = true } in
      let Kept : Option Bytes × ParserData x → Type 0 = λ r. Silenced pd r.1 in
      let aliased : ParserData x → Run (Option Bytes × ParserData x) =
        λ pd₁. find_alias x env swishtag pd₁ >>= λ baked. ok (some baked, pd₁) in
      subst (Partial Kept) (sym (bake_plain_xml name swishtag prefix pd i e)) (
        >>=-Partial
          (λ pd'.
            Mute x loud pd'
            × (is_undefined x env swishtag loud ≡ true → loud.ignore_content < pd'.ignore_content))
          Kept (xml_undefined x env swishtag loud) aliased
          (undefined_xml-Mute x env swishtag loud i.ignores)
          λ pd₁ q.
            >>=-any Kept (find_alias x env swishtag pd₁) (λ baked. ok (some baked, pd₁))
              λ baked. ground (arith, q.0, q.1 u))

  still :
      (pd pd₁ pd₂ : ParserData x) (p : Pointer)
      → Silenced (record pd { tag = p }) pd₁
      → Quiet x pd₁ pd₂
      → Silenced pd pd₂
  unfolding Silenced
  still pd pd₁ pd₂ p q k = ground (arith, q, k)

  open_undefined-Silenced :
      (name swishtag : Bytes) (prefix : Option Bytes) (pd : ParserData x)
      → Ignores pd
      → ((p : Pointer) → name_of x env name prefix (record pd { tag = p }) ≡ ok swishtag)
      → is_undefined x env swishtag pd ≡ true
      → Partial (Silenced pd) (open_plain x env name prefix pd)
  unfolding open_plain is_undefined
  open_undefined-Silenced name swishtag prefix pd i e u =
      >>=-any (Silenced pd) (drop_tag pd.tag)
        (λ dropped. bake_plain x env name prefix (record pd { tag = dropped }) >>= λ r.
          opened x env name r.0 r.1)
        λ dropped.
          >>=-Partial (λ r. Silenced (record pd { tag = dropped }) r.1) (Silenced pd)
            (bake_plain x env name prefix (record pd { tag = dropped }))
            (λ r. opened x env name r.0 r.1)
            (bake_undefined-Silenced name swishtag prefix (record pd { tag = dropped })
              (record { xml = i.xml; ignores = i.ignores }) (e dropped) u)
            λ r q.
              Partial-mono (Quiet x r.1) (Silenced pd) (opened x env name r.0 r.1)
                (opened-Quiet x env name r.0 r.1) λ pd₂ k. still pd r.1 pd₂ dropped q k

  -- Where unknown XML elements are ignored, an unknown element without attributes is opened, and what
  -- follows is text and the starts and ends of elements without attributes, in any order, with no
  -- comments: if this does not end the program, the text behind it is not taken up, although the
  -- element may have been closed long before.
  pub handle_events-ignore :
      (name swishtag : Bytes) (prefix uri : Option Bytes) (ps : List Part) (ch : Bytes)
      (pd : ParserData x)
      → Ignores pd
      → ((p : Pointer) → name_of x env name prefix (record pd { tag = p }) ≡ ok swishtag)
      → is_undefined x env swishtag pd ≡ true
      → Partial
          (λ pd'. (0 < pd'.ignore_content) × (buffer_characters x env ch pd' ≡ ok pd'))
          (handle_events x env include (start_element_ns name prefix uri [] ∷ parts_of ps) pd)
  unfolding handle_events handle_event sax_atts follow_xinclude open_tag bake_tag open_plain
      buffer_characters Silenced
  handle_events-ignore name swishtag prefix uri ps ch pd i e u =
      >>=-Partial (Silenced pd)
        (λ pd'. (0 < pd'.ignore_content) × (buffer_characters x env ch pd' ≡ ok pd'))
        (open_plain x env name prefix pd) (handle_events x env include (parts_of ps))
        (open_undefined-Silenced name swishtag prefix pd i e u)
        λ pd₁ q.
          Partial-mono (Mute x pd₁)
            (λ pd'. (0 < pd'.ignore_content) × (buffer_characters x env ch pd' ≡ ok pd'))
            (handle_events x env include (parts_of ps) pd₁) (parts-Mute ps pd₁ (kept pd pd₁ i q.0))
            λ pd₂ r. ground (arith, q.1, r.no_louder)
