-- ===== src/Parser/Content/Stepping.antt =====
-- The events of an element as steps: what the start, the text and the end of it do.
use libswish.Config.{MetaName}
use libswish.Config.Whole.{Config}
use libswish.LibXml.{LibXml, IsLibXml}
use libswish.Parser.{Env, ParserData, buffer_characters}
use libswish.Parser.Attributes.{open_tag, bake_tag}
use libswish.Parser.Content.{
  Content, element, start_of, end_of, events_of, Place, Progress, add_text, baked_of, place_of,
  walk, hand_on,
}
use libswish.Parser.Content.Entering.{Within, set_off}
use libswish.Parser.Content.State.{Vars, IsPlain, state, Ready, Reached, SameStacks}
use libswish.Parser.Content.Storing.{buffer_text_lem}
use libswish.Parser.Events.{Event, handle_event, handle_events, follow_xinclude, sax_atts}
use libswish.Parser.Tags.{open_plain, close_tag}
use libswish.Prelude.{
  Bool, true, false, ◌≡◌, refl, ◌∙◌, ap, sym, List, [], ◌∷◌, ◌++◌, Option, none, some, Bytes, Run,
  ok, ◌>>=◌, >>=-assoc, >>=-cong, arith, inl, inr,
}

module _ (x : LibXml) (laws : IsLibXml x) (env : Env x) (c : Config x) (plain : IsPlain x c)
    (is_html : Bool) (lower : Bytes → Bytes)
    (include : Bytes → Bool → ParserData x → Run (ParserData x)) where
  abbrev st : Vars x → ParserData x
  st = state x env c is_html lower

  abbrev run : List Event → ParserData x → Run (ParserData x)
  run = handle_events x env include

  pub handle_events-append :
      (es fs : List Event) (pd : ParserData x) → run (es ++ fs) pd ≡ (run es pd >>= run fs)
  unfolding handle_events
  handle_events-append [] fs pd = refl
  handle_events-append (e ∷ es) fs pd =
      >>=-cong (handle_event x env include e pd) (run (es ++ fs)) (λ pd'. run es pd' >>= run fs)
        (handle_events-append es fs)
      ∙ sym (>>=-assoc (handle_event x env include e pd) (run es) (run fs))

  start_lem :
      (is_html : Bool) (tag : Bytes) (pd : ParserData x)
      → handle_event x env include (start_of is_html tag) pd ≡ open_plain x env tag none pd
  unfolding handle_event open_tag bake_tag open_plain follow_xinclude sax_atts
  start_lem true tag pd = refl
  start_lem false tag pd = refl

  end_lem :
      (is_html : Bool) (tag : Bytes) (pd : ParserData x)
      → handle_event x env include (end_of is_html tag) pd ≡ close_tag x env tag none pd
  unfolding handle_event
  end_lem true tag pd = refl
  end_lem false tag pd = refl

  pub buffer_characters_lem :
      (ch : Bytes) (v : Vars x)
      → buffer_characters x env ch (st v)
        ≡ ok (
            st (record v {
              meta_buf = add_text v.bump_word v.meta_buf ch;
              prop_buf = add_text v.bump_word v.prop_buf ch;
              bump_word = false;
            }))
  unfolding buffer_characters
  buffer_characters_lem ch v = ground (
    arith,
    buffer_text_lem x laws env v.bump_word v.meta_buf ch,
    buffer_text_lem x laws env v.bump_word v.prop_buf ch,
  )

  pub chars_steps :
      (ch : Bytes) (es : List Event) (pd pd₁ pd₂ : ParserData x)
      → buffer_characters x env ch pd ≡ ok pd₁
      → run es pd₁ ≡ ok pd₂
      → run (Event.characters ch ∷ es) pd ≡ ok pd₂
  unfolding handle_events handle_event
  chars_steps ch es pd pd₁ pd₂ e f = ap (λ m. m >>= run es) e ∙ f

  pub element_steps :
      (tag : Bytes) (kids rest : List Event) (pd pd₁ pd₂ pd₃ pd₄ : ParserData x)
      → open_plain x env tag none pd ≡ ok pd₁
      → run kids pd₁ ≡ ok pd₂
      → close_tag x env tag none pd₂ ≡ ok pd₃
      → run rest pd₃ ≡ ok pd₄
      → run (start_of is_html tag ∷ (kids ++ (end_of is_html tag ∷ rest))) pd ≡ ok pd₄
  unfolding handle_events
  element_steps tag kids rest pd pd₁ pd₂ pd₃ pd₄ e f g h =
      ap (λ m. m >>= run (kids ++ (end_of is_html tag ∷ rest))) (start_lem is_html tag pd ∙ e)
      ∙ handle_events-append kids (end_of is_html tag ∷ rest) pd₁
      ∙ ap (λ m. m >>= run (end_of is_html tag ∷ rest)) f
      ∙ ap (λ m. m >>= run rest) (end_lem is_html tag pd₂ ∙ g)
      ∙ h

  pub Within-SameStacks :
      (tag : Bytes) (v u w : Vars x)
      → Within x laws env c plain is_html lower tag v u
      → SameStacks x env c is_html lower u w
      → Within x laws env c plain is_html lower tag v w
  Within-SameStacks tag v u w i s = record {
    dom_is = s.same_dom ∙ i.dom_is;
    prop_is = elim i.prop_is [
      | inl (opens, e) ↦ inl (opens, s.same_prop ∙ e)
      | inr (absent, e) ↦ inr (absent, s.same_prop ∙ e)
    ];
    meta_is = elim i.meta_is [
      | inl (opens, e) ↦ inl (opens, s.same_meta ∙ e)
      | inr (absent, e) ↦ inr (absent, s.same_meta ∙ e)
    ];
  }

  pub SameStacks-trans :
      (v u w : Vars x)
      → SameStacks x env c is_html lower v u
      → SameStacks x env c is_html lower u w
      → SameStacks x env c is_html lower v w
  SameStacks-trans v u w s t = record {
    same_dom = t.same_dom ∙ s.same_dom;
    same_meta = t.same_meta ∙ s.same_meta;
    same_prop = t.same_prop ∙ s.same_prop;
  }

  -- What the events of a content do to a state.
  abbrev pub Walks : Place → Content → Vars x → Progress → Vars x → Type 0
  Walks place content v0 s v =
      (w : Vars x) × (run (events_of is_html content) (st v) ≡ ok (st w))
      × SameStacks x env c is_html lower v w
      × Ready x env c is_html lower place w
      × Reached x env c is_html lower v0 (walk x env c is_html lower place content s) w

  abbrev pub off : Bytes → Progress → Progress
  off = set_off x laws env c plain is_html lower

  abbrev pub deeper : Place → Bytes → Place
  deeper = place_of x env c is_html lower

  abbrev pub go : Place → Content → Progress → Progress
  go = walk x env c is_html lower

  pub go_other :
      (tag : Bytes) (kids rest : Content) (place : Place) (s : Progress)
      → x.lookup MetaName c.metanames (baked_of x env c is_html lower tag) ≡ none
      → go place (element tag kids rest) s ≡ go place rest (off tag (go place kids (off tag s)))
  go_other tag kids rest place s e =
      ap
        (λ o. elim o [
          | none ↦ go place rest (off tag (go place kids (off tag s)))
          | some meta ↦ go place rest (
              hand_on (deeper place tag)
                (off tag (go (deeper place tag) kids (hand_on place (off tag s)))))
        ])
        e

  pub go_meta :
      (tag : Bytes) (kids rest : Content) (place : Place) (s : Progress) (m : MetaName)
      → x.lookup MetaName c.metanames (baked_of x env c is_html lower tag) ≡ some m
      → go place (element tag kids rest) s
        ≡ go place rest (
            hand_on
              (deeper place tag)
              (off tag (go (deeper place tag) kids (hand_on place (off tag s)))))
  go_meta tag kids rest place s m e =
      ap
        (λ o. elim o [
          | none ↦ go place rest (off tag (go place kids (off tag s)))
          | some meta ↦ go place rest (
              hand_on (deeper place tag)
                (off tag (go (deeper place tag) kids (hand_on place (off tag s)))))
        ])
        e

  -- What the end of a tag hands on.
  abbrev pub ended : Bytes → Place → Progress → Option MetaName → Progress
  ended tag place s o = elim o [
    | none ↦ off tag s
    | some m ↦ hand_on (deeper place tag) (off tag s)
  ]
