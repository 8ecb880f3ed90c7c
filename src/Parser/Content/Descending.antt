-- ===== src/Parser/Content/Descending.antt =====
-- The steps of `open_tag` on a state in the middle of a document.
use libswish.Config.{Pointer}
use libswish.Config.Whole.{Config}
use libswish.Hash.{hash_exists}
use libswish.LibXml.{LibXml, IsLibXml}
use libswish.NamedBuffer.{NamedBuffer}
use libswish.Parser.{Env, ParserData, exists_tag, flush_buffer}
use libswish.Parser.Baking.{bake_plain}
use libswish.Parser.Content.{baked_of, sets_off}
use libswish.Parser.Content.Opening.{IsPathTo}
use libswish.Parser.Content.State.{Vars, IsPlain, state}
use libswish.Parser.Tags.{
  drop_tag, free_tag, top, push_dom, baked_name, open_property, open_meta, opened, open_plain,
}
use libswish.Prelude.{
  ℕ, Bool, true, false, not, ◌||◌, ◌≡◌, ◌≢◌, refl, ◌∙◌, ap, inl, inr, List, [], ◌∷◌, none, some,
  Bytes, ok, ◌>>=◌, if◌then◌else◌, arith,
}
use libswish.TagStack.{Tag, TagStack, push_tag_stack, flatten_from}
use libswish.TagStack.Contexts.{IsValid, pushed, push_tag_stack_lem, flatten_from-context}

pub drop_tag_lem : (p : Pointer) → p ≢ Pointer.freed → drop_tag p ≡ ok Pointer.null
unfolding drop_tag free_tag
drop_tag_lem Pointer.null h = refl
drop_tag_lem Pointer.freed h = absurd (h refl)
drop_tag_lem (Pointer.to s) h = refl

pub top_lem : (stack : TagStack) (t : Tag) (ts : List Tag) → stack.head ≡ t ∷ ts → top stack ≡ ok t
unfolding top
top_lem stack t ts e = ground (arith, e)

module _ (x : LibXml) (laws : IsLibXml x) (env : Env x) (c : Config x) (plain : IsPlain x c)
    (is_html : Bool) (lower : Bytes → Bytes) where
  abbrev baked : Bytes → Bytes
  baked = baked_of x env c is_html lower

  abbrev st : Vars x → ParserData x
  st = state x env c is_html lower

  pub path_to :
      (tag : Bytes) (ts : List Tag) (count : ℕ)
      → IsValid 46 (record { head = ts; count = count })
      → IsPathTo x laws env c plain is_html lower (flatten_from 46 (baked tag) ts) tag
  unfolding flatten_from
  path_to tag [] count v = inl refl
  path_to tag (t ∷ ts) count v =
      inr (t.context, baked tag, flatten_from-context 46 (baked tag) t ts count v)

  pub not_opened :
      (tag context : Bytes) (pd : ParserData x)
      → (exists_tag x pd.config.metanames (some (baked tag))
          || hash_exists x pd.config.metanames context)
        ≡ false
      → open_meta x env tag (some (baked tag)) context pd ≡ ok pd
  unfolding open_meta
  not_opened tag context pd e =
      ap
        (λ b. if not b then ok pd else do
          head ← top pd.metastack
          pd₁ ← flush_buffer x env head.baked head.context pd
          b ← baked_name x env (some (baked tag)) context pd₁
          stack ← push_tag_stack pd₁.metastack tag b 47
          ok (record pd₁ { metastack = stack }))
        e

  pub open_steps :
      (tag context : Bytes) (pd pd₁ : ParserData x) (head : Tag) (name : Bytes) (stack : TagStack)
      → (exists_tag x pd.config.metanames (some (baked tag))
          || hash_exists x pd.config.metanames context)
        ≡ true
      → top pd.metastack ≡ ok head
      → flush_buffer x env head.baked head.context pd ≡ ok pd₁
      → baked_name x env (some (baked tag)) context pd₁ ≡ ok name
      → push_tag_stack pd₁.metastack tag name 47 ≡ ok stack
      → open_meta x env tag (some (baked tag)) context pd ≡ ok (record pd₁ { metastack = stack })
  unfolding open_meta
  open_steps tag context pd pd₁ head name stack e t f g h =
      ap
        (λ b. if not b then ok pd else do
          head ← top pd.metastack
          pd₁ ← flush_buffer x env head.baked head.context pd
          b ← baked_name x env (some (baked tag)) context pd₁
          stack ← push_tag_stack pd₁.metastack tag b 47
          ok (record pd₁ { metastack = stack }))
        e
      ∙ ap
          (λ m. m >>= λ head. flush_buffer x env head.baked head.context pd >>= λ pd₁.
            baked_name x env (some (baked tag)) context pd₁ >>= λ b.
            push_tag_stack pd₁.metastack tag b 47 >>= λ stack.
            ok (record pd₁ { metastack = stack }))
          t
      ∙ ap
          (λ m. m >>= λ pd₁. baked_name x env (some (baked tag)) context pd₁ >>= λ b.
            push_tag_stack pd₁.metastack tag b 47 >>= λ stack.
            ok (record pd₁ { metastack = stack }))
          f
      ∙ ap
          (λ m. m >>= λ b. push_tag_stack pd₁.metastack tag b 47 >>= λ stack.
            ok (record pd₁ { metastack = stack }))
          g
      ∙ ap (λ m. m >>= λ stack. ok (record pd₁ { metastack = stack })) h

  pub open_plain_steps :
      (tag : Bytes) (pd pd₁ pd₂ pd₃ pd₄ : ParserData x) (dropped : Pointer) (b : Bytes) (head : Tag)
      → drop_tag pd.tag ≡ ok dropped
      → bake_plain x env tag none (record pd { tag = dropped }) ≡ ok (some b, pd₁)
      → push_dom x env tag (some b) pd₁ ≡ ok pd₂
      → top pd₂.domstack ≡ ok head
      → open_property x env tag (some b) head.context pd₂ ≡ ok pd₃
      → open_meta x env tag (some b) head.context pd₃ ≡ ok pd₄
      → open_plain x env tag none pd ≡ ok pd₄
  unfolding open_plain opened
  open_plain_steps tag pd pd₁ pd₂ pd₃ pd₄ dropped b head d k p t f g =
      ap
        (λ m. m >>= λ dropped.
          bake_plain x env tag none (record pd { tag = dropped }) >>= λ r. opened x env tag r.0 r.1)
        d
      ∙ ap (λ m. m >>= λ r. opened x env tag r.0 r.1) k
      ∙ ap
          (λ m. m >>= λ pd₁. top pd₁.domstack >>= λ head.
            open_property x env tag (some b) head.context pd₁ >>= λ pd₂.
            open_meta x env tag (some b) head.context pd₂)
          p
      ∙ ap
          (λ m. m >>= λ head. open_property x env tag (some b) head.context pd₂ >>= λ pd₂.
            open_meta x env tag (some b) head.context pd₂)
          t
      ∙ ap (λ m. m >>= open_meta x env tag (some b) head.context) f
      ∙ g

  abbrev pub path : Bytes → Vars x → Bytes
  path tag v = flatten_from 46 (baked tag) v.domstack.head

  -- The state in front of the stack of metanames.
  abbrev pub inside : Bytes → Vars x → NamedBuffer x → Bytes → TagStack → Vars x
  inside tag v nb buf stack = record v {
    tag = Pointer.to (baked tag);
    bump_word = sets_off x env c is_html lower tag v.bump_word;
    domstack = pushed 46 v.domstack tag (baked tag);
    properties = nb;
    prop_buf = buf;
    propstack = stack;
  }

  pub push_dom_lem :
      (tag b : Bytes) (pd : ParserData x)
      → push_dom x env tag (some b) pd
        ≡ ok (record pd { tag = Pointer.to b; domstack = pushed 46 pd.domstack tag b })
  unfolding push_dom
  push_dom_lem tag b pd =
      ap (λ m. m >>= λ dom. ok (record pd { tag = Pointer.to b; domstack = dom }))
        (push_tag_stack_lem 46 pd.domstack tag b)
