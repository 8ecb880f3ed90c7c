-- ===== src/Parser/Content/Opening.antt =====
-- The stacks when a tag is opened: the properties.
use libswish.Config.{Property}
use libswish.Config.Whole.{Config}
use libswish.Hash.{hash_exists}
use libswish.LibXml.{LibXml, IsLibXml}
use libswish.NamedBuffer.{NamedBuffer, nb_get_value}
use libswish.NamedBuffer.Values as Named
use libswish.Parser.{Env, ParserData, exists_tag, add_own, add_to_stack, add_stack_to_prop_buf}
use libswish.Parser.Content.{baked_of}
use libswish.Parser.Content.State.{Vars, IsPlain, state, IsPropTag, IsPropTop, OpensProp}
use libswish.Parser.Content.Storing.{Keeps, HasBuffer, add_to_stack-Keeps}
use libswish.Parser.Tags.{strdup, baked_name, open_property}
use libswish.Prelude.{
  Bool, true, false, not, ◌||◌, ◌≡◌, ◌≢◌, refl, ◌∙◌, ap, ◌⊎◌, inl, inr, List, [], ◌∷◌, ◌++◌, none,
  some, Bytes, ok, ◌>>=◌, if◌then◌else◌, length, arith, Option-cases, All,
}
use libswish.TagStack.{Tag, TagStack, push_tag_stack, flatten_from}
use libswish.TagStack.Contexts as Stacks
use libswish.TagStack.Contexts.{pushed, push_tag_stack_lem, pushed-IsValid}

module _ (x : LibXml) (laws : IsLibXml x) (env : Env x) (c : Config x) (plain : IsPlain x c)
    (is_html : Bool) (lower : Bytes → Bytes) where
  abbrev baked : Bytes → Bytes
  baked = baked_of x env c is_html lower

  abbrev st : Vars x → ParserData x
  st = state x env c is_html lower

  -- Every configured property has a buffer.
  abbrev pub PropsThere : NamedBuffer x → Type 0
  PropsThere nb =
      (name : Bytes) → x.lookup Property c.properties name ≢ none → nb_get_value x nb name ≢ none

  pub PropsThere-Keeps : (nb r : NamedBuffer x) → Keeps x laws nb r → PropsThere nb → PropsThere r
  PropsThere-Keeps nb r k there name h = k.kept name (there name h)

  pub tags-HasBuffer :
      (nb : NamedBuffer x) (ts : List Tag)
      → PropsThere nb
      → All (IsPropTag x env c is_html lower) ts
      → All (HasBuffer x laws nb) ts
  tags-HasBuffer nb [] there h = tt
  tags-HasBuffer nb (t ∷ ts) there h = (
    elim h.0 [ inl root ↦ inl root | inr known ↦ inr (there t.baked known) ],
    tags-HasBuffer nb ts there h.1,
  )

  -- What stands in the buffers of the properties.
  pub record PropsReady (nb : NamedBuffer x) (stack : TagStack) : Type 0 where
    pub props : Named.IsValid x nb
    pub props_there : PropsThere nb
    pub prop : Stacks.IsValid 47 stack
    pub prop_top : IsPropTop x env c is_html lower stack
    pub prop_names : All (IsPropTag x env c is_html lower) stack.head

  -- The stack of properties before and after a tag.
  abbrev pub PropOpened : Bytes → TagStack → TagStack → Type 0
  PropOpened tag old new =
      ((OpensProp x env c is_html lower tag) × (new ≡ pushed 47 old tag (baked tag)))
      ⊎ ((x.lookup Property c.properties (baked tag) ≡ none) × (new ≡ old))

  pub pushed-PropsReady :
      (nb : NamedBuffer x) (old : TagStack) (tag : Bytes)
      → Named.IsValid x nb
      → PropsThere nb
      → OpensProp x env c is_html lower tag
      → Stacks.IsValid 47 old
      → All (IsPropTag x env c is_html lower) old.head
      → PropsReady nb (pushed 47 old tag (baked tag))
  pushed-PropsReady nb old tag v there opens stack names = record {
    props = v;
    props_there = there;
    prop = pushed-IsValid 47 old tag (baked tag) stack;
    prop_top = record {
      top = record {
        raw = tag;
        baked = baked tag;
        context = flatten_from 47 (baked tag) old.head;
        n = old.count;
      };
      below = old.head;
      head_is = refl;
      opened = inr opens;
    };
    prop_names = (inr opens, names);
  }

  -- The path to a tag is the tag, or is in no table.
  abbrev pub IsPathTo : Bytes → Bytes → Type 0
  IsPathTo context tag =
      (context ≡ baked tag) ⊎ ((a : Bytes) × (b : Bytes) × (context ≡ a ++ 46 ∷ b))

  pub exists_known :
      {V : Type 0} (t : x.Table V) (name : Bytes)
      → x.lookup V t name ≢ none
      → hash_exists x t name ≡ true
  unfolding hash_exists
  exists_known {V} t name h = ground (arith, Option-cases (x.lookup V t name))

  pub exists_unknown :
      {V : Type 0} (t : x.Table V) (name : Bytes)
      → x.lookup V t name ≡ none
      → hash_exists x t name ≡ false
  unfolding hash_exists
  exists_unknown {V} t name h = ground (arith, h)

  pub baked_name_lem :
      (tag context : Bytes) (v : Vars x)
      → IsPathTo context tag
      → baked_name x env (some (baked tag)) context (st v) ≡ ok (baked tag)
  unfolding baked_name strdup
  baked_name_lem tag context v (inl same) = ground (arith, same)
  baked_name_lem tag context v (inr (a, b, dotted)) = ground (
    arith,
    exists_unknown c.properties context
        (ap (x.lookup Property c.properties) dotted ∙ plain.props_dotless a b),
  )

  add_stack_steps :
      (pd : ParserData x) (r : NamedBuffer x × Bytes)
      → add_to_stack x env pd.propstack.head (length pd.prop_buf) true (pd.properties, pd.prop_buf)
        ≡ ok r
      → add_stack_to_prop_buf x env none pd ≡ ok (record pd { properties = r.0; prop_buf = r.1 })
  unfolding add_stack_to_prop_buf add_own
  add_stack_steps pd r e =
      ap (λ m. m >>= λ r. ok (record pd { properties = r.0; prop_buf = r.1 })) e

  -- A tag is in a table, or the path to it is, if the tag is.
  pub tag_or_path :
      {V : Type 0} (t : x.Table V) (tag context : Bytes)
      → ((a b : Bytes) → x.lookup V t (a ++ 46 ∷ b) ≡ none)
      → IsPathTo context tag
      → (exists_tag x t (some (baked tag)) || hash_exists x t context) ≡ hash_exists x t (baked tag)
  unfolding exists_tag
  tag_or_path {V} t tag context dotless (inl same) = ground (arith, same)
  tag_or_path {V} t tag context dotless (inr (a, b, dotted)) =
      ground (arith, exists_unknown t context (ap (x.lookup V t) dotted ∙ dotless a b))

  not_opened :
      (tag context : Bytes) (pd : ParserData x)
      → (exists_tag x pd.config.properties (some (baked tag))
          || hash_exists x pd.config.properties context)
        ≡ false
      → open_property x env tag (some (baked tag)) context pd ≡ ok pd
  unfolding open_property
  not_opened tag context pd e =
      ap
        (λ b. if not b then ok pd else do
          pd₁ ← add_stack_to_prop_buf x env none pd
          b ← baked_name x env (some (baked tag)) context pd₁
          stack ← push_tag_stack pd₁.propstack tag b 47
          ok (record pd₁ { prop_buf = []; propstack = stack }))
        e

  open_steps :
      (tag context : Bytes) (pd pd₁ : ParserData x) (name : Bytes) (stack : TagStack)
      → (exists_tag x pd.config.properties (some (baked tag))
          || hash_exists x pd.config.properties context)
        ≡ true
      → add_stack_to_prop_buf x env none pd ≡ ok pd₁
      → baked_name x env (some (baked tag)) context pd₁ ≡ ok name
      → push_tag_stack pd₁.propstack tag name 47 ≡ ok stack
      → open_property x env tag (some (baked tag)) context pd
        ≡ ok (record pd₁ { prop_buf = []; propstack = stack })
  unfolding open_property
  open_steps tag context pd pd₁ name stack e f g h =
      ap
        (λ b. if not b then ok pd else do
          pd₁ ← add_stack_to_prop_buf x env none pd
          b ← baked_name x env (some (baked tag)) context pd₁
          stack ← push_tag_stack pd₁.propstack tag b 47
          ok (record pd₁ { prop_buf = []; propstack = stack }))
        e
      ∙ ap
          (λ m. m >>= λ pd₁. baked_name x env (some (baked tag)) context pd₁ >>= λ b.
            push_tag_stack pd₁.propstack tag b 47 >>= λ stack.
            ok (record pd₁ { prop_buf = []; propstack = stack }))
          f
      ∙ ap
          (λ m. m >>= λ b. push_tag_stack pd₁.propstack tag b 47 >>= λ stack.
            ok (record pd₁ { prop_buf = []; propstack = stack }))
          g
      ∙ ap (λ m. m >>= λ stack. ok (record pd₁ { prop_buf = []; propstack = stack })) h

  -- A property that begins hands on the text before it and is put on the stack; any other tag changes
  -- nothing.
  pub open_property_lem :
      (tag context : Bytes) (v : Vars x)
      → IsPathTo context tag
      → PropsReady v.properties v.propstack
      → (nb : NamedBuffer x) × (buf : Bytes) × (stack : TagStack) × (open_property x env tag
            (some (baked tag))
            context
            (st v)
          ≡ ok (st (record v { properties = nb; prop_buf = buf; propstack = stack })))
        × PropsReady nb stack
        × PropOpened tag v.propstack stack
  open_property_lem tag context v path ready =
      let test = tag_or_path c.properties tag context plain.props_dotless path in
      elim (Option-cases (x.lookup Property c.properties (baked tag))) [
        | inl absent ↦ (
          v.properties,
          v.prop_buf,
          v.propstack,
          not_opened tag context (st v) (test ∙ exists_unknown c.properties (baked tag) absent),
          ready,
          inr (absent, refl),
        )
        | inr (p, present) ↦
            let opens : OpensProp x env c is_html lower tag = λ none_yet. absurd cc in
            let (r, e, k) =
              add_to_stack-Keeps x laws env v.propstack.head (length v.prop_buf) true v.properties
                v.prop_buf ready.props
                (tags-HasBuffer v.properties v.propstack.head ready.props_there ready.prop_names) in
            (
              r.0,
              [],
              pushed 47 v.propstack tag (baked tag),
              open_steps tag context (st v) (st (record v { properties = r.0; prop_buf = r.1 }))
                  (baked tag) (pushed 47 v.propstack tag (baked tag))
                  (test ∙ exists_known c.properties (baked tag) opens) (add_stack_steps (st v) r e)
                  (baked_name_lem tag context (record v { properties = r.0; prop_buf = r.1 }) path)
                  (push_tag_stack_lem 47 v.propstack tag (baked tag)),
              pushed-PropsReady r.0 v.propstack tag k.valid
                  (PropsThere-Keeps v.properties r.0 k ready.props_there) opens ready.prop
                  ready.prop_names,
              inl (opens, refl),
            )
      ]
