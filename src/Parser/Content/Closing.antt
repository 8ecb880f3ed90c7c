-- ===== src/Parser/Content/Closing.antt =====
-- The steps of `close_tag` on a state in the middle of a document.
use libswish.Config.{Pointer, Property}
use libswish.Config.Whole.{Config}
use libswish.LibXml.{LibXml, IsLibXml}
use libswish.NamedBuffer.{NamedBuffer}
use libswish.NamedBuffer.Values as Named
use libswish.Parser.{
  Env, ParserData, stored_as, add_own, add_to_stack, add_stack_to_prop_buf, flush_buffer,
}
use libswish.Parser.Baking.{bake_plain}
use libswish.Parser.Content.{baked_of}
use libswish.Parser.Content.Opening.{PropsThere}
use libswish.Parser.Content.State.{Vars, IsPlain, state}
use libswish.Parser.Content.Storing.{Keeps, nb_add_buf-Keeps}
use libswish.Parser.Tags.{drop_tag, close_property, close_meta, close_dom, close_tag}
use libswish.Prelude.{
  ℕ, Bool, not, ◌≡◌, ◌≢◌, ◌∙◌, ap, sym, ◌⊎◌, inl, inr, List, [], ◌∷◌, Option, none, some, Bytes,
  eq_bytes, eq_bytes_iff, eq_bytes_refl, Run, ok, ◌>>=◌, if◌then◌else◌, Returns, length, arith,
  Option-cases, Bool-cases,
}
use libswish.TagStack.{Tag, TagStack, pop_tag_stack, pop_tag_stack_on_match, flatten_from}
use libswish.TagStack.Contexts.{IsValid, pushed, pop_on_match_lem}

-- The tag that has been put on a stack is popped on its name, and the stack is as it was.
pub popped :
    (join : ℕ) (old new : TagStack) (tag baked : Bytes)
    → IsValid join old
    → new ≡ pushed join old tag baked
    → pop_tag_stack_on_match new tag
      ≡ ok (
        some (record {
          raw = tag;
          baked = baked;
          context = flatten_from join baked old.head;
          n = old.count;
        }),
        old,
      )
popped join old new tag baked v e =
    let t : Tag = record {
      raw = tag;
      baked = baked;
      context = flatten_from join baked old.head;
      n = old.count;
    } in
    ap (λ s. pop_tag_stack_on_match s tag) e
    ∙ pop_on_match_lem join t old tag v
    ∙ ap (λ b. ok (if b then (some t, old) else (none, pushed join old tag baked)))
        (eq_bytes_refl tag)

-- A stack whose top has another name is left alone.
pub not_popped :
    (new : TagStack) (tag : Bytes) (t : Tag) (ts : List Tag)
    → new.head ≡ t ∷ ts
    → t.raw ≢ tag
    → pop_tag_stack_on_match new tag ≡ ok (none, new)
unfolding pop_tag_stack_on_match
not_popped new tag t ts e other = elim (Bool-cases (eq_bytes t.raw tag)) [
  | inl same ↦ absurd (other ((eq_bytes_iff t.raw tag).0 same))
  | inr differs ↦ ground (arith, e, differs)
]

module _ (x : LibXml) (laws : IsLibXml x) (env : Env x) (c : Config x) (plain : IsPlain x c)
    (is_html : Bool) (lower : Bytes → Bytes) where
  abbrev baked : Bytes → Bytes
  baked = baked_of x env c is_html lower

  abbrev st : Vars x → ParserData x
  st = state x env c is_html lower

  pub add_own_lem :
      (name : Bytes) (v : Vars x)
      → Named.IsValid x v.properties
      → PropsThere x laws env c plain is_html lower v.properties
      → x.lookup Property c.properties name ≢ none
      → Returns (add_own x env (some name) (st v)) (λ r. Keeps x laws v.properties r.0.0)
  unfolding add_own stored_as
  add_own_lem name v valid there known = elim (Option-cases (x.lookup Property c.properties name)) [
    | inl absent ↦ absurd (known absent)
    | inr (p, present) ↦
        let (r, e, k) =
          nb_add_buf-Keeps x laws v.properties name v.prop_buf (length v.prop_buf) (not p.verbatim)
            valid (there name known) in
        ((r, not p.verbatim), ground (arith, present, plain.props_direct name p, e), k)
  ]

  pub add_stack_steps :
      (name : Bytes) (pd : ParserData x) (own : (NamedBuffer x × Bytes) × Bool)
      (r : NamedBuffer x × Bytes)
      → add_own x env (some name) pd ≡ ok own
      → add_to_stack x env pd.propstack.head (length pd.prop_buf) own.1 own.0 ≡ ok r
      → add_stack_to_prop_buf x env (some name) pd
        ≡ ok (record pd { properties = r.0; prop_buf = r.1 })
  unfolding add_stack_to_prop_buf
  add_stack_steps name pd own r e f =
      ap
        (λ m. m >>= λ own.
          add_to_stack x env pd.propstack.head (length pd.prop_buf) own.1 own.0 >>= λ r.
          ok (record pd { properties = r.0; prop_buf = r.1 }))
        e
      ∙ ap (λ m. m >>= λ r. ok (record pd { properties = r.0; prop_buf = r.1 })) f

  pub close_property_other :
      (tag : Bytes) (pd : ParserData x) (stack : TagStack)
      → pop_tag_stack_on_match pd.propstack tag ≡ ok (none, stack)
      → close_property x env tag pd ≡ ok (record pd { propstack = stack })
  unfolding close_property
  close_property_other tag pd stack e = ground (arith, e)

  pub close_property_steps :
      (tag : Bytes) (pd pd' : ParserData x) (t : Tag) (stack : TagStack)
      → pop_tag_stack_on_match pd.propstack tag ≡ ok (some t, stack)
      → add_stack_to_prop_buf x env (some t.baked) (record pd { propstack = stack }) ≡ ok pd'
      → close_property x env tag pd ≡ ok (record pd' { prop_buf = [] })
  unfolding close_property
  close_property_steps tag pd pd' t stack e f = ground (arith, e, f)

  pub close_meta_other :
      (tag : Bytes) (pd : ParserData x) (stack : TagStack)
      → pop_tag_stack_on_match pd.metastack tag ≡ ok (none, stack)
      → close_meta x env tag pd ≡ ok (record pd { metastack = stack })
  unfolding close_meta
  close_meta_other tag pd stack e = ground (arith, e)

  pub close_meta_steps :
      (tag : Bytes) (pd pd' : ParserData x) (t : Tag) (stack : TagStack)
      → pop_tag_stack_on_match pd.metastack tag ≡ ok (some t, stack)
      → flush_buffer x env t.baked t.context (record pd { metastack = stack }) ≡ ok pd'
      → close_meta x env tag pd ≡ ok pd'
  unfolding close_meta
  close_meta_steps tag pd pd' t stack e f = ground (arith, e, f)

  pub close_dom_lem :
      (pd : ParserData x) (t : Tag) (stack : TagStack)
      → pop_tag_stack pd.domstack ≡ (some t, stack)
      → close_dom x env pd ≡ ok (record pd { domstack = stack })
  unfolding close_dom
  close_dom_lem pd t stack e = ground (arith, e)

  pub close_tag_steps :
      (tag b : Bytes) (pd pd₁ pd₂ pd₃ pd₄ : ParserData x) (dropped : Pointer)
      → drop_tag pd.tag ≡ ok dropped
      → bake_plain x env tag none (record pd { tag = dropped }) ≡ ok (some b, pd₁)
      → close_property x env tag (record pd₁ { tag = Pointer.to b }) ≡ ok pd₂
      → close_meta x env tag pd₂ ≡ ok pd₃
      → close_dom x env pd₃ ≡ ok pd₄
      → close_tag x env tag none pd ≡ ok pd₄
  unfolding close_tag
  close_tag_steps tag b pd pd₁ pd₂ pd₃ pd₄ dropped d k f g h =
      ap (λ m. m >>= λ dropped. bake_plain x env tag none (record pd { tag = dropped }) >>= closing)
        d
      ∙ ap (λ m. m >>= closing) k
      ∙ ap (λ m. m >>= λ pd₂. close_meta x env tag pd₂ >>= close_dom x env) f
      ∙ ap (λ m. m >>= close_dom x env) g
      ∙ h
    where
      closing : Option Bytes × ParserData x → Run (ParserData x)
      closing r =
          let pd₁ = record (r.1) {
            tag = elim r.0 [ none ↦ Pointer.null | some s ↦ Pointer.to s ];
          } in
          elim r.0 [
            | none ↦ ok pd₁
            | some swishtag ↦
                close_property x env tag pd₁ >>= λ pd₂. close_meta x env tag pd₂ >>= close_dom x env
          ]

  abbrev pub tag_of : ℕ → TagStack → Bytes → Tag
  tag_of join old tag = record {
    raw = tag;
    baked = baked tag;
    context = flatten_from join (baked tag) old.head;
    n = old.count;
  }

  -- A name whose tag opens nothing is not that of a tag that did.
  pub other_name :
      {V : Type 0} (t : x.Table V) (raw tag bottom : Bytes)
      → (raw ≡ bottom) ⊎ (x.lookup V t (baked raw) ≢ none)
      → tag ≢ bottom
      → x.lookup V t (baked tag) ≡ none
      → raw ≢ tag
  other_name {V} t raw tag bottom (inl is) h e same = h (sym same ∙ is)
  other_name {V} t raw tag bottom (inr opens) h e same =
      opens (ap (λ n. x.lookup V t (baked n)) same ∙ e)
