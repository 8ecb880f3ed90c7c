-- ===== src/Parser/Content/Storing.antt =====
-- Moving the text of a buffer to the buffers of properties and metanames: what
-- `swish_nb_add_buf` does where it does not end the program.
use libswish.LibXml.{LibXml, IsLibXml}
use libswish.NamedBuffer.{NamedBuffer, bumper, cleaned, nb_get_value}
use libswish.NamedBuffer.Adding.{joined, nb_add_str-Joins, nb_add_str_refuses}
use libswish.NamedBuffer.Values.{IsValid}
use libswish.Parser.{nb_add_buf, append_text, buffer_text, dom_str, add_to_stack, Env}
use libswish.Parser.Content.{store_text, add_text}
use libswish.Prelude.{
  ℕ, Bool, true, false, ◌≡◌, ◌≢◌, refl, ◌∙◌, ap, sym, ◌⊎◌, inl, inr, List, [], ◌∷◌, ◌++◌,
  append-nil, Option, none, some, Bytes, ok, ◌>>=◌, if◌then◌else◌, Returns, eq_bytes, eq_bytes_iff,
  arith, Bool-cases, length, take, All,
}
use libswish.Str.{all_ws}
use libswish.TagStack.{Tag}

take-length : (s : Bytes) → take (length s) s ≡ s
take-length [] = refl
take-length (c ∷ s) = ap (◌∷◌ c) (take-length s)

cleaned-whole : (s : Bytes) → cleaned false s (length s) ≡ s
unfolding cleaned
cleaned-whole s = take-length s

module _ (x : LibXml) (laws : IsLibXml x) where
  -- Text is appended, behind a bumper where that is asked for and there is text already.
  pub buffer_text_lem :
      (env : Env x) (bump : Bool) (buf ch : Bytes)
      → buffer_text x env bump buf ch ≡ ok (add_text bump buf ch)
  unfolding buffer_text append_text
  buffer_text_lem env bump buf [] =
      ground (arith, append-nil buf, append-nil (buf ++ bumper), laws.buffer_adds buf bumper)
  buffer_text_lem env bump buf (c ∷ ch) = ground (
    arith,
    laws.buffer_adds buf bumper,
    laws.buffer_adds buf (c ∷ ch),
    laws.buffer_adds (buf ++ bumper) (c ∷ ch),
  )

  -- A whole text, as it is, goes to the buffer of its name and to no other.
  pub record Stores (nb : NamedBuffer x) (name words : Bytes) (r : NamedBuffer x) : Type 0 where
    pub valid : IsValid x r
    pub values :
        (j : Bytes)
        → nb_get_value x r j ≡ (
            if eq_bytes j name then store_text (nb_get_value x nb j) words else nb_get_value x nb j)

  same_text :
      (o : Option Bytes) (words : Bytes)
      → all_ws words ≡ false
      → some (joined o bumper words) ≡ store_text o words
  same_text none words e = ground (arith, e)
  same_text (some b) words e = ground (arith, e)

  pub nb_add_buf-Stores :
      (nb : NamedBuffer x) (name words : Bytes)
      → IsValid x nb
      → Returns
          (nb_add_buf x nb name words (length words) bumper false true)
          (λ r. Stores nb name words r.0)
  unfolding nb_add_buf
  nb_add_buf-Stores nb name words v = elim (Bool-cases (all_ws words)) [
    | inl white ↦ (
      (nb, words),
      (nb_add_str_refuses x laws nb name words (length words) bumper false true).0 white,
      record { valid = v; values = λ j. ground (arith, white) },
    )
    | inr ink ↦
        let (r, e, joins) =
          nb_add_str-Joins x laws nb name words (length words) bumper false true v ink (inr refl) in
        (
          r,
          e,
          record {
            valid = joins.valid;
            values = λ j. ground (
              arith,
              joins.values j,
              cleaned-whole words,
              same_text (nb_get_value x nb name) words ink,
              eq_bytes_iff j name,
            );
          },
        )
  ]

  -- Every name keeps its buffer.
  pub record Keeps (nb r : NamedBuffer x) : Type 0 where
    pub valid : IsValid x r
    pub kept : (j : Bytes) → nb_get_value x nb j ≢ none → nb_get_value x r j ≢ none

  pub Keeps-trans : (a b d : NamedBuffer x) → Keeps a b → Keeps b d → Keeps a d
  Keeps-trans a b d k l = record { valid = l.valid; kept = λ j h. l.kept j (k.kept j h) }

  joined_not_none :
      (o n : Option Bytes) (v : Bytes) (b : Bool)
      → n ≡ (if b then some v else o)
      → o ≢ none
      → n ≢ none
  joined_not_none o n v true e h k = absurd cc
  joined_not_none o n v false e h k = h (sym e ∙ k)

  pub nb_add_buf-Keeps :
      (nb : NamedBuffer x) (name words : Bytes) (len : ℕ) (cleanwsp : Bool)
      → IsValid x nb
      → nb_get_value x nb name ≢ none
      → Returns (nb_add_buf x nb name words len bumper cleanwsp false) (λ r. Keeps nb r.0)
  unfolding nb_add_buf
  nb_add_buf-Keeps nb name words len cleanwsp v there = elim (Bool-cases (all_ws words)) [
    | inl white ↦ (
      (nb, words),
      (nb_add_str_refuses x laws nb name words len bumper cleanwsp false).0 white,
      record { valid = v; kept = λ j h. h },
    )
    | inr ink ↦
        let (r, e, joins) =
          nb_add_str-Joins x laws nb name words len bumper cleanwsp false v ink (inl there) in
        (
          r,
          e,
          record {
            valid = joins.valid;
            kept = λ j h.
                joined_not_none (nb_get_value x nb j) (nb_get_value x r.0 j)
                  (joined (nb_get_value x nb name) bumper (cleaned cleanwsp words len))
                  (eq_bytes j name) (joins.values j) h;
          },
        )
  ]

  -- The tag is the sentinel, or its property has a buffer.
  abbrev pub HasBuffer : NamedBuffer x → Tag → Type 0
  HasBuffer nb t = (t.baked ≡ dom_str) ⊎ (nb_get_value x nb t.baked ≢ none)

  HasBuffer-Keeps :
      (nb r : NamedBuffer x) (ts : List Tag)
      → Keeps nb r
      → All (HasBuffer nb) ts
      → All (HasBuffer r) ts
  HasBuffer-Keeps nb r [] k h = tt
  HasBuffer-Keeps nb r (t ∷ ts) k h = (
    elim h.0 [ inl root ↦ inl root | inr there ↦ inr (k.kept t.baked there) ],
    HasBuffer-Keeps nb r ts k h.1,
  )

  add_to_stack_steps :
      (env : Env x) (t : Tag) (ts : List Tag) (len : ℕ) (cleanwsp : Bool) (nb : NamedBuffer x)
      (buf : Bytes) (r : NamedBuffer x × Bytes)
      → (if eq_bytes t.baked dom_str
          then ok (nb, buf)
          else nb_add_buf x nb t.baked buf len bumper cleanwsp false)
        ≡ ok r
      → add_to_stack x env (t ∷ ts) len cleanwsp (nb, buf) ≡ add_to_stack x env ts len cleanwsp r
  unfolding add_to_stack
  add_to_stack_steps env t ts len cleanwsp nb buf r e =
      ap (λ m. m >>= add_to_stack x env ts len cleanwsp) e

  add_one :
      (t : Tag) (len : ℕ) (cleanwsp : Bool) (nb : NamedBuffer x) (buf : Bytes)
      → IsValid x nb
      → HasBuffer nb t
      → Returns
          (if eq_bytes t.baked dom_str
            then ok (nb, buf)
            else nb_add_buf x nb t.baked buf len bumper cleanwsp false)
          (λ r. Keeps nb r.0)
  add_one t len cleanwsp nb buf v h = elim (Bool-cases (eq_bytes t.baked dom_str)) [
    | inl root ↦ ((nb, buf), rw root, record { valid = v; kept = λ j h. h })
    | inr other ↦ elim h [
      | inl root ↦ absurd (ground (arith, eq_bytes_iff t.baked dom_str))
      | inr there ↦
          let (r, e, k) = nb_add_buf-Keeps nb t.baked buf len cleanwsp v there in (r, rw other e, k)
    ]
  ]

  pub add_to_stack-Keeps :
      (env : Env x) (ts : List Tag) (len : ℕ) (cleanwsp : Bool) (nb : NamedBuffer x) (buf : Bytes)
      → IsValid x nb
      → All (HasBuffer nb) ts
      → Returns (add_to_stack x env ts len cleanwsp (nb, buf)) (λ r. Keeps nb r.0)
  unfolding add_to_stack
  add_to_stack-Keeps env [] len cleanwsp nb buf v h =
      ((nb, buf), refl, record { valid = v; kept = λ j h. h })
  add_to_stack-Keeps env (t ∷ ts) len cleanwsp nb buf v h =
      let (r, e, k) = add_one t len cleanwsp nb buf v h.0 in
      let (r', e', k') =
        add_to_stack-Keeps env ts len cleanwsp r.0 r.1 k.valid (HasBuffer-Keeps nb r.0 ts k h.1) in
      (r', add_to_stack_steps env t ts len cleanwsp nb buf r e ∙ e', Keeps-trans nb r.0 r'.0 k k')
