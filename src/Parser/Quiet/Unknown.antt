-- ===== src/Parser/Quiet/Unknown.antt =====
-- A path that is a metaname, of a tag that is none.
use libswish.Config.{MetaName, Property}
use libswish.Hash.{hash_exists, hash_fetch}
use libswish.LibXml.{LibXml}
use libswish.Parser.{Env, ParserData, dom_char, flush_buffer}
use libswish.Parser.Quiet.{Quiet, flush_buffer-Quiet}
use libswish.Parser.Tags.{top, strdup, baked_name, open_meta}
use libswish.Prelude.{
  ◌≡◌, refl, ◌∙◌, ap, none, some, Bytes, Run, ok, croak, ◌>>=◌, arith, null_pointer, Partial,
  Returns, subst,
}
use libswish.TagStack.{Tag, push_tag_stack, flatten_from}
use libswish.TagStack.Contexts.{pushed}

module _ (x : LibXml) (env : Env x) where
  rest_of_open : Bytes → Bytes → Bytes → ParserData x → Run (ParserData x)
  unfolding baked_name
  rest_of_open tag swishtag context pd₁ = baked_name x env (some swishtag) context pd₁ >>= λ baked.
      push_tag_stack pd₁.metastack tag baked dom_char >>= λ stack.
      ok (record pd₁ { metastack = stack })

  rest_of_open-pushed :
      (tag swishtag context : Bytes) (pd : ParserData x)
      → x.lookup Property pd.config.properties context ≡ none
      → rest_of_open tag swishtag context pd
        ≡ ok (record pd { metastack = pushed dom_char pd.metastack tag swishtag })
  unfolding rest_of_open baked_name hash_exists strdup push_tag_stack
  rest_of_open-pushed tag swishtag context pd e = ground (arith, e)

  flush_buffer-unknown :
      (name context : Bytes) (pd : ParserData x)
      → x.lookup MetaName pd.config.metanames name ≡ none
      → flush_buffer x env name context pd ≡ croak null_pointer
  unfolding flush_buffer hash_fetch
  flush_buffer-unknown name context pd e = ground (arith, e)

  opens :
      (tag swishtag context : Bytes) (m : MetaName) (pd : ParserData x)
      → x.lookup MetaName pd.config.metanames context ≡ some m
      → open_meta x env tag (some swishtag) context pd ≡ (
          top pd.metastack >>= λ head.
          flush_buffer x env head.baked head.context pd >>= rest_of_open tag swishtag context)
  unfolding open_meta rest_of_open hash_exists
  opens tag swishtag context m pd e = ground (arith, e)

  -- Where a path is a metaname, but neither its tag is one nor the path a property, and the text
  -- that waits in front of the tag can be handed on: the tag is opened without an error and goes on
  -- the stack under its own name, and handing on the text of that tag then follows NULL.
  pub open_meta-null :
      (tag swishtag context : Bytes) (m : MetaName) (head : Tag) (pd pd₁ : ParserData x)
      → x.lookup MetaName pd.config.metanames context ≡ some m
      → x.lookup MetaName pd.config.metanames swishtag ≡ none
      → x.lookup Property pd.config.properties context ≡ none
      → top pd.metastack ≡ ok head
      → flush_buffer x env head.baked head.context pd ≡ ok pd₁
      → Returns (open_meta x env tag (some swishtag) context pd) (λ pd'.
        (t : Tag) × (top pd'.metastack ≡ ok t)
        × (t.raw ≡ tag)
        × (flush_buffer x env t.baked t.context pd' ≡ croak null_pointer))
  unfolding top
  open_meta-null tag swishtag context m head pd pd₁ e f g h flushes =
      let q : Quiet x pd pd₁ =
        subst (Partial (Quiet x pd)) flushes
          (flush_buffer-Quiet x env head.baked head.context pd) in
      let absent = ap (λ c. x.lookup Property c.properties context) q.same_config ∙ g in
      let unknown = ap (λ c. x.lookup MetaName c.metanames swishtag) q.same_config ∙ f in
      let stack = pushed dom_char pd₁.metastack tag swishtag in
      let t : Tag = record {
        raw = tag;
        baked = swishtag;
        context = flatten_from dom_char swishtag pd₁.metastack.head;
        n = pd₁.metastack.count;
      } in
      (
        record pd₁ { metastack = stack },
        opens tag swishtag context m pd e
            ∙ ap
                (λ r. r >>= λ head'.
                  flush_buffer x env head'.baked head'.context pd
                  >>= rest_of_open tag swishtag context)
                h
            ∙ ap (λ r. r >>= rest_of_open tag swishtag context) flushes
            ∙ rest_of_open-pushed tag swishtag context pd₁ absent,
        (
          t,
          refl,
          refl,
          flush_buffer-unknown swishtag t.context (record pd₁ { metastack = stack }) unknown,
        ),
      )
