-- ===== src/TagStack/Contexts.antt =====
-- The stacks work last in first out, and a context spells the path from the root.
use libswish.Prelude.{
  ℕ, ◌+◌, ◌-◌, ◌<◌, ◌≡◌, refl, sym, ◌∙◌, ap, ap₂, List, [], ◌∷◌, ◌++◌, append_assoc, none, some,
  Bytes, eq_bytes, ok, if◌then◌else◌, length, arith, Returns, ◌⊎◌, inl, inr, Bool-cases,
}
use libswish.TagStack.{
  Tag, TagStack, flatten_from, flatten_tag_stack, push_tag_stack, pop_tag_stack,
  pop_tag_stack_on_match,
}

-- The baked names from the root to the top, with the join character between them.
abbrev pub path_of : ℕ → List Tag → Bytes
path_of join [] = []
path_of join (t ∷ []) = t.baked
path_of join (t ∷ u ∷ ts) = path_of join (u ∷ ts) ++ join ∷ t.baked

-- Each tag on the stack keeps the path to it, and its number is the number of tags below it.
abbrev pub AllPaths : ℕ → List Tag → Type 0
AllPaths join [] = Unit
AllPaths join (t ∷ ts) = (t.context ≡ path_of join (t ∷ ts)) × (t.n ≡ length ts) × AllPaths join ts

pub record IsValid (join : ℕ) (stack : TagStack) : Type 0 where
  pub count_is : stack.count ≡ length stack.head
  pub paths : AllPaths join stack.head

flatten_from-append :
    (join : ℕ) (u v : Bytes) (ts : List Tag)
    → flatten_from join (u ++ v) ts ≡ flatten_from join u ts ++ v
unfolding flatten_from
flatten_from-append join u v [] = refl
flatten_from-append join u v (t ∷ ts) =
    ap (λ s. flatten_from join s ts) (sym (append_assoc t.baked (join ∷ u) v))
    ∙ flatten_from-append join (t.baked ++ join ∷ u) v ts

flatten_from-path :
    (join : ℕ) (t : Tag) (ts : List Tag) → flatten_from join t.baked ts ≡ path_of join (t ∷ ts)
unfolding flatten_from
flatten_from-path join t [] = refl
flatten_from-path join t (u ∷ ts) =
    flatten_from-append join u.baked (join ∷ t.baked) ts
    ∙ ap (λ s. s ++ join ∷ t.baked) (flatten_from-path join u ts)

-- Flattening a stack under a name spells the path to the top and then the name.
pub flatten_tag_stack-path :
    (join : ℕ) (baked : Bytes) (t : Tag) (ts : List Tag)
    → flatten_tag_stack (some baked) (t ∷ ts) join ≡ ok (path_of join (t ∷ ts) ++ join ∷ baked)
unfolding flatten_tag_stack flatten_from
flatten_tag_stack-path join baked t ts = ap ok (
    flatten_from-append join t.baked (join ∷ baked) ts
    ∙ ap (λ s. s ++ join ∷ baked) (flatten_from-path join t ts))

-- The stack with a tag on it.
abbrev pub pushed : ℕ → TagStack → Bytes → Bytes → TagStack
pushed join stack raw baked = record {
  head =
      record {
        raw = raw;
        baked = baked;
        context = flatten_from join baked stack.head;
        n = stack.count;
      }
      ∷ stack.head;
  count = stack.count + 1;
}

pub push_tag_stack_lem :
    (join : ℕ) (stack : TagStack) (raw baked : Bytes)
    → push_tag_stack stack raw baked join ≡ ok (pushed join stack raw baked)
unfolding push_tag_stack flatten_tag_stack
push_tag_stack_lem join stack raw baked = refl

pub pushed-IsValid :
    (join : ℕ) (stack : TagStack) (raw baked : Bytes)
    → IsValid join stack
    → IsValid join (pushed join stack raw baked)
pushed-IsValid join stack raw baked v = record {
  count_is = omega (arith, v.count_is);
  paths = (
    flatten_from-path join
        (record {
          raw = raw;
          baked = baked;
          context = flatten_from join baked stack.head;
          n = stack.count;
        })
        stack.head,
    v.count_is,
    v.paths,
  );
}

-- The path to a tag goes on from the context of the tag below it.
pub flatten_from-context :
    (join : ℕ) (baked : Bytes) (t : Tag) (ts : List Tag) (count : ℕ)
    → IsValid join (record { head = t ∷ ts; count = count })
    → flatten_from join baked (t ∷ ts) ≡ t.context ++ join ∷ baked
unfolding flatten_from
flatten_from-context join baked t ts count v =
    flatten_from-append join t.baked (join ∷ baked) ts
    ∙ ap (λ s. s ++ join ∷ baked) (flatten_from-path join t ts ∙ sym v.paths.0)

pub record Pushes (join : ℕ) (stack : TagStack) (raw baked : Bytes) (r : TagStack) : Type 0 where
  pub valid : IsValid join r
  pub top : Tag
  pub raw_is : top.raw ≡ raw
  pub baked_is : top.baked ≡ baked
  pub pops : pop_tag_stack r ≡ (some top, stack)
  pub matches :
      (tag : Bytes)
      → pop_tag_stack_on_match r tag
        ≡ ok (if eq_bytes raw tag then (some top, stack) else (none, r))

add_sub : (n : ℕ) → n + 1 - 1 ≡ n
add_sub n = omega arith

zero_cases : (n : ℕ) → (n ≡ 0) ⊎ (0 < n)
zero_cases n = ground arith

empty_head : (ts : List Tag) → length ts ≡ 0 → ts ≡ []
empty_head [] h = refl
empty_head (t ∷ ts) h = absurd (omega arith)

pop_many :
    (t : Tag) (stack : TagStack)
    → 0 < stack.count
    → pop_tag_stack (record { head = t ∷ stack.head; count = stack.count + 1 }) ≡ (some t, stack)
unfolding pop_tag_stack
pop_many t stack h = ground (arith, h, ap (λ n. record stack { count = n }) (add_sub stack.count))

pop_last :
    (t : Tag) (stack : TagStack)
    → stack.count ≡ 0
    → stack.head ≡ []
    → pop_tag_stack (record { head = t ∷ stack.head; count = stack.count + 1 }) ≡ (some t, stack)
unfolding pop_tag_stack
pop_last t stack z e =
    let same : record { head = []; count = stack.count + 1 - 1 } ≡ stack =
      ap₂ (λ h n. record { head = h; count = n }) (sym e) (add_sub stack.count) in
    ground (arith, z, same)

pub pop_lem :
    (join : ℕ) (t : Tag) (stack : TagStack)
    → IsValid join stack
    → pop_tag_stack (record { head = t ∷ stack.head; count = stack.count + 1 }) ≡ (some t, stack)
pop_lem join t stack v = elim (zero_cases stack.count) [
  | inl z ↦ pop_last t stack z (empty_head stack.head (omega (arith, v.count_is)))
  | inr p ↦ pop_many t stack p
]

pub pop_on_match_lem :
    (join : ℕ) (t : Tag) (stack : TagStack) (tag : Bytes)
    → IsValid join stack
    → let r : TagStack = record { head = t ∷ stack.head; count = stack.count + 1 } in
      pop_tag_stack_on_match r tag ≡ ok (if eq_bytes t.raw tag then (some t, stack) else (none, r))
unfolding pop_tag_stack_on_match
pop_on_match_lem join t stack tag v = elim (Bool-cases (eq_bytes t.raw tag)) [
  | inl same ↦ ground (arith, same, pop_lem join t stack v)
  | inr other ↦ ground (arith, other)
]

-- On a well-formed stack a push succeeds and keeps the stack well formed: the new tag's context is
-- the path from the root to it. A pop, or a pop on the same raw name, gives that tag and the stack
-- as it was before; a pop on another name leaves the stack alone.
pub push_tag_stack-Pushes :
    (join : ℕ) (stack : TagStack) (raw baked : Bytes)
    → IsValid join stack
    → Returns (push_tag_stack stack raw baked join) (Pushes join stack raw baked)
unfolding push_tag_stack flatten_tag_stack pop_tag_stack_on_match
push_tag_stack-Pushes join stack raw baked v =
    let t : Tag = record {
      raw = raw;
      baked = baked;
      context = flatten_from join baked stack.head;
      n = stack.count;
    } in
    (
      record { head = t ∷ stack.head; count = stack.count + 1 },
      refl,
      record {
        valid = record {
          count_is = omega (arith, v.count_is);
          paths = (flatten_from-path join t stack.head, v.count_is, v.paths);
        };
        top = t;
        raw_is = refl;
        baked_is = refl;
        pops = pop_lem join t stack v;
        matches = λ tag. pop_on_match_lem join t stack tag v;
      },
    )
