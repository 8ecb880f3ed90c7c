-- ===== src/Parser/Content/Walking.antt =====
-- The callbacks on the events of a document do what the walk over its tree says.
use libswish.Config.{MetaName}
use libswish.Config.Whole.{Config}
use libswish.LibXml.{LibXml, IsLibXml}
use libswish.Parser.{Env, ParserData}
use libswish.Parser.Content.{
  Content, end, chars, element, start_of, end_of, events_of, Place, Progress, add_text, baked_of,
  place_of, hand_on, walk,
}
use libswish.Parser.Content.Entering.{Within, set_off, enter_other, enter_meta}
use libswish.Parser.Content.Flushing.{Accepted-before}
use libswish.Parser.Content.Leaving.{leave}
use libswish.Parser.Content.State.{
  Vars, IsPlain, state, OpensMeta, Fits, Ready, Accepted, Reached, SameStacks,
}
use libswish.Parser.Events.{Event, handle_events}
use libswish.Parser.Tags.{open_plain}
use libswish.Prelude.{
  Bool, false, ◌≡◌, refl, ap₂, subst, sym, List, ◌∷◌, ◌++◌, none, some, Bytes, Run, ok,
  Option-cases, inl, inr,
}
use libswish.Parser.Content.Stepping.{
  buffer_characters_lem, chars_steps, element_steps, Within-SameStacks, SameStacks-trans, Walks,
  off, deeper, go, go_other, go_meta, ended,
}

module _ (x : LibXml) (laws : IsLibXml x) (env : Env x) (c : Config x) (plain : IsPlain x c)
    (is_html : Bool) (lower : Bytes → Bytes)
    (include : Bytes → Bool → ParserData x → Run (ParserData x)) where
  abbrev st : Vars x → ParserData x
  st = state x env c is_html lower

  abbrev run : List Event → ParserData x → Run (ParserData x)
  run = handle_events x env include

  -- What is accepted at the end of a content was accepted in front of it.
  walk-Accepted :
      (content : Content) (place : Place) (v0 : Vars x) (s : Progress)
      → Accepted x env c is_html lower v0 (walk x env c is_html lower place content s)
      → Accepted x env c is_html lower v0 s
  walk-Accepted end place v0 s h = h
  walk-Accepted (chars ch rest) place v0 s h =
      walk-Accepted rest place v0
        (record s { waiting = add_text s.bump s.waiting ch; bump = false }) h
  walk-Accepted (element tag kids rest) place v0 s h =
      elim (Option-cases (x.lookup MetaName c.metanames (baked_of x env c is_html lower tag))) [
        | inl absent ↦
            walk-Accepted kids place v0 (set_off x laws env c plain is_html lower tag s) (
              walk-Accepted rest place v0 _ (
                subst (Accepted x env c is_html lower v0)
                  (go_other x laws env c plain is_html lower include tag kids rest place s absent)
                  h))
        | inr (m, present) ↦
            let inner = place_of x env c is_html lower place tag in
            let at_end = walk-Accepted rest place v0 _ (
              subst (Accepted x env c is_html lower v0)
                (go_meta x laws env c plain is_html lower include tag kids rest place s m present)
                h) in
            Accepted-before x laws env c plain is_html lower place v0
              (set_off x laws env c plain is_html lower tag s)
              (walk-Accepted kids inner v0 _ (
                Accepted-before x laws env c plain is_html lower inner v0
                  (set_off x laws env c plain is_html lower tag (
                    walk x env c is_html lower inner kids
                      (hand_on place (set_off x laws env c plain is_html lower tag s))))
                  at_end))
      ]

  -- An element, from what opens it, what its content does, and what its end does.
  element_Walks :
      (tag : Bytes) (kids rest : Content) (place inner : Place) (v0 v u w : Vars x) (s : Progress)
      → Fits x env c is_html lower (element tag kids rest)
      → Ready x env c is_html lower place v
      → open_plain x env tag none (st v) ≡ ok (st u)
      → Within x laws env c plain is_html lower tag v u
      → run (events_of is_html kids) (st u) ≡ ok (st w)
      → SameStacks x env c is_html lower u w
      → Ready x env c is_html lower inner w
      → Reached x env c is_html lower v0 s w
      → Accepted x env c is_html lower v0
          (elim (x.lookup MetaName c.metanames (baked_of x env c is_html lower tag)) [
            | none ↦ set_off x laws env c plain is_html lower tag s
            | some m ↦
                hand_on
                  (place_of x env c is_html lower place tag)
                  (set_off x laws env c plain is_html lower tag s)
          ])
      → (p : Vars x) × Ready x env c is_html lower place p
        × SameStacks x env c is_html lower v p
        × Reached x env c is_html lower v0
            (elim (x.lookup MetaName c.metanames (baked_of x env c is_html lower tag)) [
              | none ↦ set_off x laws env c plain is_html lower tag s
              | some m ↦
                  hand_on
                    (place_of x env c is_html lower place tag)
                    (set_off x laws env c plain is_html lower tag s)
            ])
            p
        × ((es : List Event) (pd : ParserData x)
            → run es (st p) ≡ ok pd
            → run
                (start_of is_html tag ∷ (events_of is_html kids ++ (end_of is_html tag ∷ es)))
                (st v)
              ≡ ok pd)
  element_Walks tag kids rest place inner v0 v u w s fits r opens within runs same ready at
        accepted =
      let (p, closes, stacks, ready', at') =
        leave x laws env c plain is_html lower tag place inner v0 v w s fits.0 fits.1 fits.2 r ready
          (Within-SameStacks x laws env c plain is_html lower include tag v u w within same) at
          accepted in
      (
        p,
        ready',
        stacks,
        at',
        λ es pd e.
            element_steps x laws env c plain is_html lower include tag (events_of is_html kids) es
              (st v) (st u) (st w) (st p) pd opens runs closes e,
      )

  pub walks :
      (content : Content) (place : Place) (v0 v : Vars x) (s : Progress)
      → Fits x env c is_html lower content
      → Ready x env c is_html lower place v
      → Reached x env c is_html lower v0 s v
      → Accepted x env c is_html lower v0 (walk x env c is_html lower place content s)
      → Walks x laws env c plain is_html lower include place content v0 s v
  unfolding handle_events
  walks end place v0 v s fits r at accepted =
      (v, refl, record { same_dom = refl; same_meta = refl; same_prop = refl }, r, at)
  walks (chars ch rest) place v0 v s fits r at accepted =
      let u : Vars x = record v {
        meta_buf = add_text v.bump_word v.meta_buf ch;
        prop_buf = add_text v.bump_word v.prop_buf ch;
        bump_word = false;
      } in
      let (w, e, same, r', at') =
        walks rest place v0 u (record s { waiting = add_text s.bump s.waiting ch; bump = false })
          fits
          (record {
            not_freed = r.not_freed;
            metas = r.metas;
            props = r.props;
            props_there = r.props_there;
            dom = r.dom;
            meta = r.meta;
            prop = r.prop;
            meta_top = r.meta_top;
            prop_top = r.prop_top;
            prop_names = r.prop_names;
          })
          (record {
            waiting_is = ap₂ (λ b t. add_text b t ch) at.bump_is at.waiting_is;
            bump_is = refl;
            stored = at.stored;
            tokenized = at.tokenized;
          })
          accepted in
      (
        w,
        chars_steps x laws env c plain is_html lower include ch (events_of is_html rest) (st v)
            (st u) (st w) (buffer_characters_lem x laws env c plain is_html lower include ch v) e,
        record { same_dom = same.same_dom; same_meta = same.same_meta; same_prop = same.same_prop },
        r',
        at',
      )
  walks (element tag kids rest) place v0 v s fits r at accepted =
      elim (Option-cases (x.lookup MetaName c.metanames (baked_of x env c is_html lower tag))) [
        | inl absent ↦
            let accepted₃ =
              subst (Accepted x env c is_html lower v0)
                (go_other x laws env c plain is_html lower include tag kids rest place s absent)
                accepted in
            let accepted₂ = walk-Accepted rest place v0 _ accepted₃ in
            let (u, opens, within, ready, at₁) =
              enter_other x laws env c plain is_html lower tag place v0 v s fits.0 absent r at in
            let (w, runs, same, ready₂, at₂) =
              walks kids place v0 u (off x laws env c plain is_html lower include tag s) fits.3
                ready at₁ accepted₂ in
            let s₂ =
              go x laws env c plain is_html lower include place kids
                (off x laws env c plain is_html lower include tag s) in
            let (p, ready₃, stacks, at₃, joins) =
              element_Walks tag kids rest place place v0 v u w s₂ fits r opens within runs same
                ready₂ at₂
                (subst
                  (λ o.
                    Accepted x env c is_html lower v0
                      (ended x laws env c plain is_html lower include tag place s₂ o))
                  (sym absent) accepted₂) in
            let (q, e, same', ready₄, at₄) =
              walks rest place v0 p (off x laws env c plain is_html lower include tag s₂) fits.4
                ready₃
                (subst
                  (λ o.
                    Reached x env c is_html lower v0
                      (ended x laws env c plain is_html lower include tag place s₂ o) p)
                  absent at₃)
                accepted₃ in
            (
              q,
              joins (events_of is_html rest) (st q) e,
              SameStacks-trans x laws env c plain is_html lower include v p q stacks same',
              ready₄,
              subst (λ t. Reached x env c is_html lower v0 t q)
                  (sym (
                    go_other x laws env c plain is_html lower include tag kids rest place s absent))
                  at₄,
            )
        | inr (m, present) ↦
            let inner = place_of x env c is_html lower place tag in
            let accepted₃ =
              subst (Accepted x env c is_html lower v0)
                (go_meta x laws env c plain is_html lower include tag kids rest place s m present)
                accepted in
            let accepted₂ = walk-Accepted rest place v0 _ accepted₃ in
            let after_kids =
              walk x env c is_html lower inner kids
                (hand_on place (set_off x laws env c plain is_html lower tag s)) in
            let accepted₁ =
              Accepted-before x laws env c plain is_html lower inner v0
                (set_off x laws env c plain is_html lower tag after_kids) accepted₂ in
            let accepted₀ = walk-Accepted kids inner v0 _ accepted₁ in
            let opened : OpensMeta x env c is_html lower tag = λ none_yet. absurd cc in
            let (u, opens, within, ready, at₁) =
              enter_meta x laws env c plain is_html lower tag place v0 v s fits.0 opened r at
                accepted₀ in
            let s₁ = hand_on place (off x laws env c plain is_html lower include tag s) in
            let (w, runs, same, ready₂, at₂) =
              walks kids (deeper x laws env c plain is_html lower include place tag) v0 u s₁ fits.3
                ready at₁ accepted₁ in
            let s₂ =
              go x laws env c plain is_html lower include
                (deeper x laws env c plain is_html lower include place tag) kids s₁ in
            let (p, ready₃, stacks, at₃, joins) =
              element_Walks tag kids rest place
                (deeper x laws env c plain is_html lower include place tag) v0 v u w s₂ fits r opens
                within runs same ready₂ at₂
                (subst
                  (λ o.
                    Accepted x env c is_html lower v0
                      (ended x laws env c plain is_html lower include tag place s₂ o))
                  (sym present) accepted₂) in
            let (q, e, same', ready₄, at₄) =
              walks rest place v0 p
                (hand_on (deeper x laws env c plain is_html lower include place tag)
                  (off x laws env c plain is_html lower include tag s₂))
                fits.4 ready₃
                (subst
                  (λ o.
                    Reached x env c is_html lower v0
                      (ended x laws env c plain is_html lower include tag place s₂ o) p)
                  present at₃)
                accepted₃ in
            (
              q,
              joins (events_of is_html rest) (st q) e,
              SameStacks-trans x laws env c plain is_html lower include v p q stacks same',
              ready₄,
              subst (λ t. Reached x env c is_html lower v0 t q)
                  (sym (
                    go_meta x laws env c plain is_html lower include tag kids rest place s m
                      present))
                  at₄,
            )
      ]
