-- ===== src/Parser/Tags.antt =====
-- src/libswish3/parser.c: `open_tag` without attributes, `close_tag`, and the tag that an attribute
-- makes.
use libswish.Config.{Pointer}
use libswish.Hash.{hash_exists}
use libswish.LibXml.{LibXml}
use libswish.Parser.{
  Env, ParserData, exists_tag, dom_char, dot, flush_buffer, add_stack_to_prop_buf,
  buffer_characters,
}
use libswish.Parser.Baking.{bake_plain}
use libswish.Prelude.{
  true, not, ◌||◌, [], ◌∷◌, Option, none, some, Bytes, Run, ok, croak, ◌>>=◌, if◌then◌else◌,
  null_pointer, double_free, strdup_of_null,
}
use libswish.TagStack.{Tag, TagStack, push_tag_stack, pop_tag_stack, pop_tag_stack_on_match}

-- `swish_xfree` of the tag. Freeing NULL only warns.
unfoldable pub free_tag : Pointer → Run Pointer
free_tag Pointer.null = ok Pointer.null
free_tag Pointer.freed = croak double_free
free_tag (Pointer.to tag) = ok Pointer.freed

-- The same where the pointer is set to NULL behind it, and NULL is left alone.
unfoldable pub drop_tag : Pointer → Run Pointer
unfolding free_tag
drop_tag Pointer.null = ok Pointer.null
drop_tag p = free_tag p >>= λ freed. ok Pointer.null

abbrev pub pointer_to : Option Bytes → Pointer
pointer_to none = Pointer.null
pointer_to (some s) = Pointer.to s

-- `head`, which is read.
unfoldable pub top : TagStack → Run Tag
top stack = elim stack.head [ [] ↦ croak null_pointer | t ∷ ts ↦ ok t ]

-- `swish_xstrdup` of a name that may be NULL.
unfoldable pub strdup : Option Bytes → Run Bytes
strdup none = croak strdup_of_null
strdup (some s) = ok s

module _ (x : LibXml) (env : Env x) where
  -- `open_tag` behind `bake_tag`: the stack of all tags.
  unfoldable pub push_dom : Bytes → Option Bytes → ParserData x → Run (ParserData x)
  unfolding push_tag_stack
  push_dom tag swishtag pd = do
    dom ← push_tag_stack pd.domstack tag (elim swishtag [ none ↦ tag | some t ↦ t ]) dot
    ok (record pd { tag = pointer_to swishtag; domstack = dom })

  -- The context if it is a property, or else the tag.
  unfoldable pub baked_name : Option Bytes → Bytes → ParserData x → Run Bytes
  unfolding hash_exists strdup
  baked_name swishtag context pd =
      if hash_exists x pd.config.properties context then ok context else strdup swishtag

  unfoldable pub open_property : Bytes → Option Bytes → Bytes → ParserData x → Run (ParserData x)
  unfolding exists_tag hash_exists add_stack_to_prop_buf baked_name push_tag_stack
  open_property tag swishtag context pd =
      if not
        (exists_tag x pd.config.properties swishtag || hash_exists x pd.config.properties context)
      then ok pd
      else do
        pd₁ ← add_stack_to_prop_buf x env none pd
        baked ← baked_name swishtag context pd₁
        stack ← push_tag_stack pd₁.propstack tag baked dom_char
        ok (record pd₁ { prop_buf = []; propstack = stack })

  unfoldable pub open_meta : Bytes → Option Bytes → Bytes → ParserData x → Run (ParserData x)
  unfolding exists_tag hash_exists top flush_buffer baked_name push_tag_stack
  open_meta tag swishtag context pd =
      if not
        (exists_tag x pd.config.metanames swishtag || hash_exists x pd.config.metanames context)
      then ok pd
      else do
        head ← top pd.metastack
        pd₁ ← flush_buffer x env head.baked head.context pd
        baked ← baked_name swishtag context pd₁
        stack ← push_tag_stack pd₁.metastack tag baked dom_char
        ok (record pd₁ { metastack = stack })

  unfoldable pub opened : Bytes → Option Bytes → ParserData x → Run (ParserData x)
  unfolding push_dom top open_property open_meta
  opened tag swishtag pd = do
    pd₁ ← push_dom tag swishtag pd
    head ← top pd₁.domstack
    pd₂ ← open_property tag swishtag head.context pd₁
    open_meta tag swishtag head.context pd₂

  -- `open_tag` without attributes.
  unfoldable pub open_plain : Bytes → Option Bytes → ParserData x → Run (ParserData x)
  unfolding drop_tag bake_plain opened
  open_plain tag xmlns_prefix pd = do
    dropped ← drop_tag pd.tag
    r ← bake_plain x env tag xmlns_prefix (record pd { tag = dropped })
    opened tag r.0 r.1

  unfoldable pub close_property : Bytes → ParserData x → Run (ParserData x)
  unfolding pop_tag_stack_on_match add_stack_to_prop_buf
  close_property tag pd = do
    r ← pop_tag_stack_on_match pd.propstack tag
    elim r.0 [
      | none ↦ ok (record pd { propstack = r.1 })
      | some st ↦
          add_stack_to_prop_buf x env (some st.baked) (record pd { propstack = r.1 }) >>= λ pd'.
          ok (record pd' { prop_buf = [] })
    ]

  unfoldable pub close_meta : Bytes → ParserData x → Run (ParserData x)
  unfolding pop_tag_stack_on_match flush_buffer
  close_meta tag pd = do
    r ← pop_tag_stack_on_match pd.metastack tag
    elim r.0 [
      | none ↦ ok (record pd { metastack = r.1 })
      | some st ↦ flush_buffer x env st.baked st.context (record pd { metastack = r.1 })
    ]

  -- The tag that is popped is read, which has to be there.
  unfoldable pub close_dom : ParserData x → Run (ParserData x)
  unfolding pop_tag_stack
  close_dom pd = elim (pop_tag_stack pd.domstack).0 [
    | none ↦ croak null_pointer
    | some st ↦ ok (record pd { domstack = (pop_tag_stack pd.domstack).1 })
  ]

  -- `bake_tag` gives NULL only for a tag with attributes.
  unfoldable pub close_tag : Bytes → Option Bytes → ParserData x → Run (ParserData x)
  unfolding drop_tag bake_plain close_property close_meta close_dom
  close_tag tag xmlns_prefix pd = do
    dropped ← drop_tag pd.tag
    r ← bake_plain x env tag xmlns_prefix (record pd { tag = dropped })
    let pd₁ = record (r.1) { tag = pointer_to r.0 }
    elim r.0 [
      | none ↦ ok pd₁
      | some swishtag ↦ close_property tag pd₁ >>= λ pd₂. close_meta tag pd₂ >>= close_dom
    ]

  -- A metaname with a content, made of an attribute: a tag within the tag. `parser_data->tag` is
  -- freed behind it, and still points at what it did.
  unfoldable pub tag_with_content : Bytes → Bytes → Option Bytes → ParserData x → Run (ParserData x)
  unfolding open_plain buffer_characters close_tag free_tag
  tag_with_content metaname content xmlns_prefix pd = do
    pd₁ ← open_plain metaname xmlns_prefix (record pd { bump_word = true })
    pd₂ ← buffer_characters x env content pd₁
    pd₃ ← close_tag metaname xmlns_prefix pd₂
    freed ← free_tag pd₃.tag
    ok (record pd₃ { tag = freed })
