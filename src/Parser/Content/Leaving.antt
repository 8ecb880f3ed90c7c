-- ===== src/Parser/Content/Leaving.antt =====
-- `close_tag` at the end of an element: the stacks are what they were before it.
use libswish.Config.{Pointer, MetaName}
use libswish.Config.Defaults.{default_metaname}
use libswish.Config.Whole.{Config}
use libswish.LibXml.{LibXml, IsLibXml}
use libswish.NamedBuffer.{NamedBuffer}
use libswish.NamedBuffer.Values as Named
use libswish.Parser.{Env, ParserData, dom_str, flush_buffer}
use libswish.Parser.Content.{Place, Progress, baked_of, place_of, hand_on, sets_off}
use libswish.Parser.Content.Descending.{drop_tag_lem}
use libswish.Parser.Content.Entering.{MetaOpened, Within, new_context, set_off}
use libswish.Parser.Content.Baking.{bake_plain_lem}
use libswish.Parser.Content.Flushing.{flushed, flush_buffer-Reached}
use libswish.Parser.Content.Opening.{PropsThere, PropsThere-Keeps, tags-HasBuffer, PropOpened}
use libswish.Parser.Content.State.{
  Accepted, Vars, IsPlain, state, IsPropTag, IsPropTop, IsTop, Ready, Reached, SameStacks,
}
use libswish.Parser.Content.Storing.{add_to_stack-Keeps}
use libswish.Parser.Tags.{close_property, close_meta, close_tag}
use libswish.Prelude.{
  ℕ, Bool, ◌≡◌, ◌≢◌, subst, refl, ◌∙◌, ap, inl, inr, [], none, some, Bytes, ok, length,
  Option-cases, All,
}
use libswish.TokenList.{TokenIterator}
use libswish.Str.{str_tolower}
use libswish.TagStack.{TagStack, pop_tag_stack}
use libswish.TagStack.Contexts.{IsValid, pop_lem}
use libswish.Parser.Content.Closing.{
  add_own_lem, add_stack_steps, close_property_other, close_property_steps, close_meta_other,
  close_meta_steps, close_dom_lem, close_tag_steps, tag_of, other_name, popped, not_popped,
}

module _ (x : LibXml) (laws : IsLibXml x) (env : Env x) (c : Config x) (plain : IsPlain x c)
    (is_html : Bool) (lower : Bytes → Bytes) where
  abbrev baked : Bytes → Bytes
  baked = baked_of x env c is_html lower

  abbrev st : Vars x → ParserData x
  st = state x env c is_html lower

  close_property_lem :
      (tag : Bytes) (old : TagStack) (v : Vars x)
      → tag ≢ dom_str
      → PropOpened x laws env c plain is_html lower tag old v.propstack
      → IsValid 47 old
      → IsPropTop x env c is_html lower old
      → All (IsPropTag x env c is_html lower) old.head
      → Named.IsValid x v.properties
      → PropsThere x laws env c plain is_html lower v.properties
      → (nb : NamedBuffer x) × (buf : Bytes) × (close_property x env tag (st v)
          ≡ ok (st (record v { properties = nb; prop_buf = buf; propstack = old })))
        × Named.IsValid x nb
        × PropsThere x laws env c plain is_html lower nb
  close_property_lem tag old v root (inr (absent, same)) stack top names valid there = (
    v.properties,
    v.prop_buf,
    close_property_other x laws env c plain is_html lower tag (st v) v.propstack (
          not_popped v.propstack tag top.top top.below (ap (λ s. s.head) same ∙ top.head_is) (
            other_name x laws env c plain is_html lower c.properties top.top.raw tag dom_str
              top.opened root absent))
        ∙ ap (λ s. ok (st (record v { propstack = s }))) same,
    valid,
    there,
  )
  close_property_lem tag old v root (inl (opens, is)) stack top names valid there =
      let t = tag_of x laws env c plain is_html lower 47 old tag in
      let u : Vars x = record v { propstack = old } in
      let (own, e, k) =
        add_own_lem x laws env c plain is_html lower (baked tag) u valid there opens in
      let there' = PropsThere-Keeps x laws env c plain is_html lower v.properties own.0.0 k there in
      let (r, f, l) =
        add_to_stack-Keeps x laws env old.head (length v.prop_buf) own.1 own.0.0 own.0.1 k.valid
          (tags-HasBuffer x laws env c plain is_html lower own.0.0 old.head there' names) in
      (
        r.0,
        [],
        close_property_steps x laws env c plain is_html lower tag (st v)
            (st (record u { properties = r.0; prop_buf = r.1 })) t old
            (popped 47 old v.propstack tag (baked tag) stack is)
            (add_stack_steps x laws env c plain is_html lower (baked tag) (st u) own r e f),
        l.valid,
        PropsThere-Keeps x laws env c plain is_html lower own.0.0 r.0 l there',
      )

  -- The state behind a tag, in front of the stack of metanames.
  abbrev closing : Vars x → Bytes → Bool → NamedBuffer x → Bytes → TagStack → Vars x
  closing v tag bump nb buf stack = record v {
    tag = Pointer.to (baked tag);
    bump_word = bump;
    properties = nb;
    prop_buf = buf;
    propstack = stack;
  }

  handed-Accepted :
      (place : Place) (tag : Bytes) (v0 : Vars x) (s : Progress) (m : MetaName)
      → x.lookup MetaName c.metanames (baked tag) ≡ some m
      → Accepted x env c is_html lower v0 (elim (x.lookup MetaName c.metanames (baked tag)) [
        | none ↦ s
        | some m' ↦ hand_on (place_of x env c is_html lower place tag) s
      ])
      → Accepted x env c is_html lower v0 (hand_on (place_of x env c is_html lower place tag) s)
  handed-Accepted place tag v0 s m e h =
      subst
        (λ o.
          Accepted x env c is_html lower v0
            (elim o [ none ↦ s | some m' ↦ hand_on (place_of x env c is_html lower place tag) s ]))
        e h

  close_meta_lem :
      (tag : Bytes) (place : Place) (old : TagStack) (v0 v : Vars x) (s : Progress)
      → tag ≢ default_metaname
      → MetaOpened x laws env c plain is_html lower tag old v.metastack
      → IsValid 47 old
      → IsTop x env c is_html lower place old
      → Named.IsValid x v.metanames
      → Reached x env c is_html lower v0 s v
      → Accepted x env c is_html lower v0 (elim (x.lookup MetaName c.metanames (baked tag)) [
        | none ↦ s
        | some m ↦ hand_on (place_of x env c is_html lower place tag) s
      ])
      → (nb : NamedBuffer x) × (n : ℕ × TokenIterator x) × (buf : Bytes) × (close_meta x env tag
            (st v)
          ≡ ok (
              st (record v {
                metanames = nb;
                token_iterator = n.1;
                docinfo = record v.docinfo { nwords = n.0 };
                meta_buf = buf;
                metastack = old;
              })))
        × Named.IsValid x nb
        × Reached x env c is_html lower v0
            (elim (x.lookup MetaName c.metanames (baked tag)) [
              | none ↦ s
              | some m ↦ hand_on (place_of x env c is_html lower place tag) s
            ])
            (record v {
              metanames = nb;
              token_iterator = n.1;
              docinfo = record v.docinfo { nwords = n.0 };
              meta_buf = buf;
              metastack = old;
            })
  close_meta_lem tag place old v0 v s root (inr (absent, same)) stack top valid at accepted = (
    v.metanames,
    (v.docinfo.nwords, v.token_iterator),
    v.meta_buf,
    close_meta_other x laws env c plain is_html lower tag (st v) v.metastack (
          not_popped v.metastack tag top.top top.below (ap (λ s. s.head) same ∙ top.head_is) (
            other_name x laws env c plain is_html lower c.metanames top.top.raw tag default_metaname
              top.opened root absent))
        ∙ ap (λ s. ok (st (record v { metastack = s }))) same,
    valid,
    rw absent (record {
      waiting_is = at.waiting_is;
      bump_is = at.bump_is;
      stored = at.stored;
      tokenized = at.tokenized;
    }),
  )
  close_meta_lem tag place old v0 v s root (inl (opens, is)) stack top valid at accepted =
      let own = place_of x env c is_html lower place tag in
      let u : Vars x = record v { metastack = old } in
      let here : Reached x env c is_html lower v0 s u = record {
        waiting_is = at.waiting_is;
        bump_is = at.bump_is;
        stored = at.stored;
        tokenized = at.tokenized;
      } in
      elim (Option-cases (x.lookup MetaName c.metanames (baked tag))) [
        | inl absent ↦ absurd (opens absent)
        | inr (m, present) ↦
            let (nb, n, flushes, valid', at') =
              flush_buffer-Reached x laws env c plain is_html lower own v0 u s opens valid here
                (handed-Accepted place tag v0 s m present accepted) in
            (
              nb,
              n,
              [],
              close_meta_steps x laws env c plain is_html lower tag (st v)
                  (st (flushed x laws env c plain is_html lower u nb n))
                  (tag_of x laws env c plain is_html lower 47 old tag) old
                  (popped 47 old v.metastack tag (baked tag) stack is)
                  (ap (λ context. flush_buffer x env (baked tag) context (st u))
                      (new_context x laws env c plain is_html lower place tag old top.top top.below
                        top.head_is top.context_is stack)
                    ∙ flushes),
              valid',
              rw present at',
            )
      ]

  -- The end of an element: its own text is handed on if it is a metaname, and the stacks are as they
  -- were in front of it.
  pub leave :
      (tag : Bytes) (place inner : Place) (v0 v u : Vars x) (s : Progress)
      → str_tolower env.wide tag ≡ ok (lower tag)
      → tag ≢ dom_str
      → tag ≢ default_metaname
      → Ready x env c is_html lower place v
      → Ready x env c is_html lower inner u
      → Within x laws env c plain is_html lower tag v u
      → Reached x env c is_html lower v0 s u
      → Accepted x env c is_html lower v0 (elim (x.lookup MetaName c.metanames (baked tag)) [
        | none ↦ set_off x laws env c plain is_html lower tag s
        | some m ↦
            hand_on
              (place_of x env c is_html lower place tag)
              (set_off x laws env c plain is_html lower tag s)
      ])
      → (w : Vars x) × (close_tag x env tag none (st u) ≡ ok (st w))
        × SameStacks x env c is_html lower v w
        × Ready x env c is_html lower place w
        × Reached x env c is_html lower v0
            (elim (x.lookup MetaName c.metanames (baked tag)) [
              | none ↦ set_off x laws env c plain is_html lower tag s
              | some m ↦
                  hand_on
                    (place_of x env c is_html lower place tag)
                    (set_off x laws env c plain is_html lower tag s)
            ])
            w
  leave tag place inner v0 v u s low root default before within inside at accepted =
      let bump = sets_off x env c is_html lower tag u.bump_word in
      let baked_state : Vars x = record u { tag = Pointer.null; bump_word = bump } in
      let named : Vars x = record u { tag = Pointer.to (baked tag); bump_word = bump } in
      let (nb, buf, closes, props, there) =
        close_property_lem tag v.propstack named root inside.prop_is before.prop before.prop_top
          before.prop_names within.props within.props_there in
      let u₂ = closing u tag bump nb buf v.propstack in
      let at₂ : Reached x env c is_html lower v0 (set_off x laws env c plain is_html lower tag s)
          u₂ =
        record {
          waiting_is = at.waiting_is;
          bump_is = ap (sets_off x env c is_html lower tag) at.bump_is;
          stored = at.stored;
          tokenized = at.tokenized;
        } in
      let (metas, n, mbuf, closes', valid, at₃) =
        close_meta_lem tag place v.metastack v0 u₂ (set_off x laws env c plain is_html lower tag s)
          default inside.meta_is before.meta before.meta_top within.metas at₂ accepted in
      let u₃ : Vars x = record u₂ {
        metanames = metas;
        token_iterator = n.1;
        docinfo = record u.docinfo { nwords = n.0 };
        meta_buf = mbuf;
        metastack = v.metastack;
      } in
      let w : Vars x = record u₃ { domstack = v.domstack } in
      (
        w,
        close_tag_steps x laws env c plain is_html lower tag (baked tag) (st u) (st baked_state)
            (st u₂) (st u₃) (st w) Pointer.null (drop_tag_lem u.tag within.not_freed)
            (bake_plain_lem x env c plain lower is_html tag (record u { tag = Pointer.null }) low)
            closes closes'
            (close_dom_lem x laws env c plain is_html lower (st u₃)
              (tag_of x laws env c plain is_html lower 46 v.domstack tag) v.domstack
              (ap pop_tag_stack inside.dom_is
                ∙ pop_lem 46 (tag_of x laws env c plain is_html lower 46 v.domstack tag) v.domstack
                    before.dom)),
        record { same_dom = refl; same_meta = refl; same_prop = refl },
        record {
          not_freed = λ h. absurd cc;
          metas = valid;
          props = props;
          props_there = there;
          dom = before.dom;
          meta = before.meta;
          prop = before.prop;
          meta_top = before.meta_top;
          prop_top = before.prop_top;
          prop_names = before.prop_names;
        },
        record {
          waiting_is = at₃.waiting_is;
          bump_is = at₃.bump_is;
          stored = at₃.stored;
          tokenized = at₃.tokenized;
        },
      )
