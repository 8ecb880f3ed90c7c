-- ===== src/Parser/Content/Entering.antt =====
-- `open_tag` on the tag of an element: the place that its text belongs to.
use libswish.Config.{Pointer, MetaName}
use libswish.Config.Whole.{Config}
use libswish.LibXml.{LibXml, IsLibXml}
use libswish.NamedBuffer.{NamedBuffer}
use libswish.Parser.{Env, ParserData, flush_buffer}
use libswish.Parser.Content.{Place, Progress, baked_of, sets_off, place_of, hand_on}
use libswish.Parser.Content.Baking.{bake_plain_lem}
use libswish.Parser.Content.Flushing.{flushed, flush_buffer-Reached}
use libswish.Parser.Content.Opening.{
  PropsReady, PropOpened, exists_known, exists_unknown, tag_or_path, baked_name_lem,
  open_property_lem,
}
use libswish.Parser.Content.State.{Vars, IsPlain, state, OpensMeta, Ready, Accepted, Reached}
use libswish.Parser.Tags.{top, open_meta, open_plain}
use libswish.Prelude.{
  Bool, ◌≡◌, ◌≢◌, refl, ◌∙◌, ap, ap₂, subst, ◌⊎◌, inl, inr, List, ◌∷◌, ◌++◌, none, some, Bytes, ok,
}
use libswish.Str.{str_tolower}
use libswish.TagStack.{Tag, TagStack, flatten_from}
use libswish.TagStack.Contexts.{
  IsValid, pushed, push_tag_stack_lem, pushed-IsValid, flatten_from-context,
}
use libswish.Parser.Content.Descending.{
  path_to, not_opened, open_steps, open_plain_steps, path, inside, push_dom_lem, drop_tag_lem,
  top_lem,
}

module _ (x : LibXml) (laws : IsLibXml x) (env : Env x) (c : Config x) (plain : IsPlain x c)
    (is_html : Bool) (lower : Bytes → Bytes) where
  abbrev baked : Bytes → Bytes
  baked = baked_of x env c is_html lower

  abbrev st : Vars x → ParserData x
  st = state x env c is_html lower

  before_meta :
      (tag : Bytes) (v : Vars x)
      → str_tolower env.wide tag ≡ ok (lower tag)
      → v.tag ≢ Pointer.freed
      → IsValid 46 v.domstack
      → PropsReady x laws env c plain is_html lower v.properties v.propstack
      → (nb : NamedBuffer x) × (buf : Bytes) × (stack : TagStack) × ((pd : ParserData x)
          → open_meta x env tag
              (some (baked tag))
              (path x laws env c plain is_html lower tag v)
              (st (inside x laws env c plain is_html lower tag v nb buf stack))
            ≡ ok pd
          → open_plain x env tag none (st v) ≡ ok pd)
        × PropsReady x laws env c plain is_html lower nb stack
        × PropOpened x laws env c plain is_html lower tag v.propstack stack
  before_meta tag v low live dom props =
      let w : Vars x = record v {
        tag = Pointer.null;
        bump_word = sets_off x env c is_html lower tag v.bump_word;
      } in
      let u : Vars x = record w {
        tag = Pointer.to (baked tag);
        domstack = pushed 46 v.domstack tag (baked tag);
      } in
      let head : Tag = record {
        raw = tag;
        baked = baked tag;
        context = path x laws env c plain is_html lower tag v;
        n = v.domstack.count;
      } in
      let (nb, buf, stack, e, ready, prop) =
        open_property_lem x laws env c plain is_html lower tag
          (path x laws env c plain is_html lower tag v) u
          (path_to x laws env c plain is_html lower tag v.domstack.head v.domstack.count dom)
          props in
      (
        nb,
        buf,
        stack,
        λ pd f.
            open_plain_steps x laws env c plain is_html lower tag (st v) (st w) (st u)
              (st (inside x laws env c plain is_html lower tag v nb buf stack)) pd Pointer.null
              (baked tag) head (drop_tag_lem v.tag live)
              (bake_plain_lem x env c plain lower is_html tag (record v { tag = Pointer.null }) low)
              (push_dom_lem x laws env c plain is_html lower tag (baked tag) (st w))
              (top_lem u.domstack head v.domstack.head refl) e f,
        ready,
        prop,
      )

  -- The stack of metanames before and after a tag.
  abbrev pub MetaOpened : Bytes → TagStack → TagStack → Type 0
  MetaOpened tag old new =
      (OpensMeta x env c is_html lower tag × (new ≡ pushed 47 old tag (baked tag)))
      ⊎ ((x.lookup MetaName c.metanames (baked tag) ≡ none) × (new ≡ old))

  -- The stacks of a state in front of a tag and of one within it.
  pub record Within (tag : Bytes) (v w : Vars x) : Type 0 where
    pub dom_is : w.domstack ≡ pushed 46 v.domstack tag (baked tag)
    pub prop_is : PropOpened x laws env c plain is_html lower tag v.propstack w.propstack
    pub meta_is : MetaOpened tag v.metastack w.metastack

  abbrev pub set_off : Bytes → Progress → Progress
  set_off tag s = record s { bump = sets_off x env c is_html lower tag s.bump }

  inside-Reached :
      (tag : Bytes) (v0 v : Vars x) (s : Progress) (nb : NamedBuffer x) (buf : Bytes)
      (stack : TagStack)
      → Reached x env c is_html lower v0 s v
      → Reached x env c is_html lower v0
          (set_off tag s)
          (inside x laws env c plain is_html lower tag v nb buf stack)
  inside-Reached tag v0 v s nb buf stack at = record {
    waiting_is = at.waiting_is;
    bump_is = ap (sets_off x env c is_html lower tag) at.bump_is;
    stored = at.stored;
    tokenized = at.tokenized;
  }

  inside-Ready :
      (tag : Bytes) (place : Place) (v : Vars x) (nb : NamedBuffer x) (buf : Bytes)
      (stack : TagStack)
      → Ready x env c is_html lower place v
      → PropsReady x laws env c plain is_html lower nb stack
      → Ready x env c is_html lower place
          (inside x laws env c plain is_html lower tag v nb buf stack)
  inside-Ready tag place v nb buf stack r p = record {
    not_freed = λ h. absurd cc;
    metas = r.metas;
    props = p.props;
    props_there = p.props_there;
    dom = pushed-IsValid 46 v.domstack tag (baked tag) r.dom;
    meta = r.meta;
    prop = p.prop;
    meta_top = r.meta_top;
    prop_top = p.prop_top;
    prop_names = p.prop_names;
  }

  abbrev props_of :
      {place : Place} {v : Vars x}
      → Ready x env c is_html lower place v
      → PropsReady x laws env c plain is_html lower v.properties v.propstack
  props_of r = record {
    props = r.props;
    props_there = r.props_there;
    prop = r.prop;
    prop_top = r.prop_top;
    prop_names = r.prop_names;
  }

  -- A tag that is no metaname.
  pub enter_other :
      (tag : Bytes) (place : Place) (v0 v : Vars x) (s : Progress)
      → str_tolower env.wide tag ≡ ok (lower tag)
      → x.lookup MetaName c.metanames (baked tag) ≡ none
      → Ready x env c is_html lower place v
      → Reached x env c is_html lower v0 s v
      → (w : Vars x) × (open_plain x env tag none (st v) ≡ ok (st w))
        × Within tag v w
        × Ready x env c is_html lower place w
        × Reached x env c is_html lower v0 (set_off tag s) w
  enter_other tag place v0 v s low absent r at =
      let (nb, buf, stack, then_meta, p, prop) =
        before_meta tag v low r.not_freed r.dom (props_of r) in
      let w = inside x laws env c plain is_html lower tag v nb buf stack in
      (
        w,
        then_meta (st w) (
            not_opened x laws env c plain is_html lower tag
              (path x laws env c plain is_html lower tag v) (st w)
              (tag_or_path x laws env c plain is_html lower c.metanames tag
                  (path x laws env c plain is_html lower tag v) plain.metas_dotless
                  (path_to x laws env c plain is_html lower tag v.domstack.head v.domstack.count
                    r.dom)
                ∙ exists_unknown x laws env c plain is_html lower c.metanames (baked tag) absent)),
        record { dom_is = refl; prop_is = prop; meta_is = inr (absent, refl) },
        inside-Ready tag place v nb buf stack r p,
        inside-Reached tag v0 v s nb buf stack at,
      )

  flush_top :
      (place : Place) (top : Tag) (pd pd' : ParserData x)
      → top.baked ≡ place.name
      → top.context ≡ place.context
      → flush_buffer x env place.name place.context pd ≡ ok pd'
      → flush_buffer x env top.baked top.context pd ≡ ok pd'
  flush_top place top pd pd' e f g =
      ap₂ (λ name context. flush_buffer x env name context pd) e f ∙ g

  pub new_context :
      (place : Place) (tag : Bytes) (stack : TagStack) (t : Tag) (ts : List Tag)
      → stack.head ≡ t ∷ ts
      → t.context ≡ place.context
      → IsValid 47 stack
      → flatten_from 47 (baked tag) stack.head ≡ place.context ++ 47 ∷ baked tag
  new_context place tag stack t ts e f v =
      ap (flatten_from 47 (baked tag)) e
      ∙ flatten_from-context 47 (baked tag) t ts stack.count
          (subst (λ h. IsValid 47 (record { head = h; count = stack.count })) e v)
      ∙ ap (λ s. s ++ 47 ∷ baked tag) f

  -- A metaname: what waits goes to the place around it, and it becomes the place.
  pub enter_meta :
      (tag : Bytes) (place : Place) (v0 v : Vars x) (s : Progress)
      → str_tolower env.wide tag ≡ ok (lower tag)
      → OpensMeta x env c is_html lower tag
      → Ready x env c is_html lower place v
      → Reached x env c is_html lower v0 s v
      → Accepted x env c is_html lower v0 (hand_on place s)
      → (w : Vars x) × (open_plain x env tag none (st v) ≡ ok (st w))
        × Within tag v w
        × Ready x env c is_html lower (place_of x env c is_html lower place tag) w
        × Reached x env c is_html lower v0 (hand_on place (set_off tag s)) w
  enter_meta tag place v0 v s low opens r at accepted =
      let (nb, buf, stack, then_meta, p, prop) =
        before_meta tag v low r.not_freed r.dom (props_of r) in
      let u = inside x laws env c plain is_html lower tag v nb buf stack in
      let t = r.meta_top in
      let (metas, n, flushes, valid, at') =
        flush_buffer-Reached x laws env c plain is_html lower place v0 u (set_off tag s) t.known
          r.metas (inside-Reached tag v0 v s nb buf stack at) accepted in
      let f : Vars x = flushed x laws env c plain is_html lower u metas n in
      let w : Vars x = record f { metastack = pushed 47 v.metastack tag (baked tag) } in
      let ready = inside-Ready tag place v nb buf stack r p in
      (
        w,
        then_meta (st w) (
            open_steps x laws env c plain is_html lower tag
              (path x laws env c plain is_html lower tag v) (st u) (st f) t.top (baked tag)
              (pushed 47 v.metastack tag (baked tag))
              (tag_or_path x laws env c plain is_html lower c.metanames tag
                  (path x laws env c plain is_html lower tag v) plain.metas_dotless
                  (path_to x laws env c plain is_html lower tag v.domstack.head v.domstack.count
                    r.dom)
                ∙ exists_known x laws env c plain is_html lower c.metanames (baked tag) opens)
              (top_lem v.metastack t.top t.below t.head_is)
              (flush_top place t.top (st u) (st f) t.name_is t.context_is flushes)
              (baked_name_lem x laws env c plain is_html lower tag
                (path x laws env c plain is_html lower tag v) f
                (path_to x laws env c plain is_html lower tag v.domstack.head v.domstack.count
                  r.dom))
              (push_tag_stack_lem 47 v.metastack tag (baked tag))),
        record { dom_is = refl; prop_is = prop; meta_is = inl (opens, refl) },
        record {
          not_freed = ready.not_freed;
          metas = valid;
          props = ready.props;
          props_there = ready.props_there;
          dom = ready.dom;
          meta = pushed-IsValid 47 v.metastack tag (baked tag) r.meta;
          prop = ready.prop;
          meta_top = record {
            top = record {
              raw = tag;
              baked = baked tag;
              context = flatten_from 47 (baked tag) v.metastack.head;
              n = v.metastack.count;
            };
            below = v.metastack.head;
            head_is = refl;
            name_is = refl;
            context_is =
                new_context place tag v.metastack t.top t.below t.head_is t.context_is r.meta;
            known = opens;
            opened = inr opens;
          };
          prop_top = ready.prop_top;
          prop_names = ready.prop_names;
        },
        record {
          waiting_is = at'.waiting_is;
          bump_is = at'.bump_is;
          stored = at'.stored;
          tokenized = at'.tokenized;
        },
      )
