-- ===== src/TagStack.antt =====
-- src/libswish3/parser.c: the stacks of open tags.
pub mod Contexts
use libswish.Prelude.{
  ℕ, zero, suc, ◌+◌, ◌-◌, Bool, true, false, List, [], ◌∷◌, ◌++◌, Option, none, some, Bytes,
  eq_bytes, Run, ok, croak, if◌then◌else◌, ltb, null_pointer, stack_was_empty,
}

-- `raw` is the name that libxml2 reports, `baked` the one under which the tag is indexed.
pub record Tag : Type 0 where
  pub raw : Bytes
  pub baked : Bytes
  pub context : Bytes
  pub n : ℕ

-- The linked list from `head`.
pub record TagStack : Type 0 where
  pub head : List Tag
  pub count : ℕ

-- The loop of `flatten_tag_stack`.
unfoldable pub flatten_from : ℕ → Bytes → List Tag → Bytes
flatten_from flatten_join flat [] = flat
flatten_from flatten_join flat (t ∷ ts) =
    flatten_from flatten_join (t.baked ++ flatten_join ∷ flat) ts

-- Without `baked` the top of the stack is read, which has to be there.
unfoldable pub flatten_tag_stack : Option Bytes → List Tag → ℕ → Run Bytes
unfolding flatten_from
flatten_tag_stack (some baked) ts flatten_join = ok (flatten_from flatten_join baked ts)
flatten_tag_stack none [] flatten_join = croak null_pointer
flatten_tag_stack none (t ∷ ts) flatten_join = ok (flatten_from flatten_join t.baked ts)

-- The context is computed with the tag already on the stack.
unfoldable pub push_tag_stack : TagStack → Bytes → Bytes → ℕ → Run TagStack
unfolding flatten_tag_stack
push_tag_stack stack raw baked flatten_join =
    let thistag : Tag = record { raw = raw; baked = baked; context = []; n = stack.count } in
    elim (flatten_tag_stack none (thistag ∷ stack.head) flatten_join) [
      | croak e ↦ croak e
      | ok context ↦ ok (record {
        head = record thistag { context = context } ∷ stack.head;
        count = stack.count + 1;
      })
    ]

unfoldable pub pop_tag_stack : TagStack → Option Tag × TagStack
pop_tag_stack stack = elim stack.head [
  | [] ↦ (none, stack)
  | t ∷ ts ↦
      if ltb 1 stack.count
      then (some t, record { head = ts; count = stack.count - 1 })
      else (some t, record { head = []; count = stack.count - 1 })
]

-- An empty stack is read through its null `head`.
unfoldable pub pop_tag_stack_on_match : TagStack → Bytes → Run (Option Tag × TagStack)
unfolding pop_tag_stack
pop_tag_stack_on_match stack tag = elim stack.head [
  | [] ↦ croak null_pointer
  | t ∷ ts ↦
      if eq_bytes t.raw tag
      then (elim (pop_tag_stack stack).0 [
        | some st ↦ ok (pop_tag_stack stack)
        | none ↦ if ltb 0 stack.count then ok (none, stack) else croak stack_was_empty
      ])
      else ok (none, stack)
]
