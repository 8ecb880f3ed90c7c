-- ===== src/NamedBuffer.antt =====
-- src/libswish3/namedbuffer.c: a hash of text buffers.
pub mod Values
pub mod Init
pub mod Adding
pub mod Concat
use libswish.Hash.{hash_add, hash_exists, hash_fetch}
use libswish.LibXml.{LibXml}
use libswish.Prelude.{
  ℕ, ◌+◌, ◌-◌, ◌++◌, Bool, true, false, not, List, [], ◌∷◌, Option, none, some, Bytes, Run, ok,
  croak, ◌>>=◌, if◌then◌else◌, ◌==◌, length, take, not_a_named_buffer, buffer_failed, null_pointer,
}
use libswish.Str.{all_ws, ctrl_to_ws, skip_ws, trim_ws}

-- `SWISH_TOKENPOS_BUMPER`
abbrev pub bumper : Bytes
bumper = 3 ∷ []

module _ (x : LibXml) where
  -- The table holds pointers to buffers, `store` what stands in each; `next` was never allocated.
  pub record NamedBuffer : Type 0 where
    pub hash : x.Table ℕ
    pub store : ℕ → Bytes
    pub next : ℕ

abbrev pub write : (ℕ → Bytes) → ℕ → Bytes → ℕ → Bytes
write store p b q = if q == p then b else store q

-- The text that is appended: `len` bytes as they are, or the string with its control characters
-- blanked and no white space at its ends.
unfoldable pub cleaned : Bool → Bytes → ℕ → Bytes
cleaned cleanwsp str len = if cleanwsp then trim_ws (skip_ws (ctrl_to_ws str)) else take len str

-- The caller's string is cleaned in place: its control characters are blanked, and the trimmed
-- end is cut off by a NUL, behind the white space at its start.
unfoldable pub clean_in_place : Bytes → Bytes
clean_in_place str =
    let s = ctrl_to_ws str in take (length s - length (skip_ws s)) s ++ trim_ws (skip_ws s)

module _ (x : LibXml) where
  unfoldable pub add_name_to_hash : Bytes → NamedBuffer x → Run (NamedBuffer x)
  unfolding hash_exists hash_add
  add_name_to_hash name nb =
      if hash_exists x nb.hash name
      then ok nb
      else hash_add x nb.hash name nb.next >>= λ h.
          ok (record { hash = h; store = write nb.store nb.next []; next = nb.next + 1 })

  -- The scan of the configured names.
  unfoldable pub add_names : {A : Type 0} → List (Bytes × A) → NamedBuffer x → Run (NamedBuffer x)
  unfolding add_name_to_hash
  add_names [] nb = ok nb
  add_names (e ∷ es) nb = add_name_to_hash e.0 nb >>= add_names es

  unfoldable pub nb_init : {A : Type 0} → x.Table A → Run (NamedBuffer x)
  unfolding add_names
  nb_init confhash =
      add_names (x.scan _ confhash) (record { hash = x.create ℕ; store = λ p. []; next = 0 })

  unfoldable pub nb_new : NamedBuffer x → Bytes → Run (NamedBuffer x)
  unfolding add_name_to_hash
  nb_new nb key = add_name_to_hash key nb

  -- `swish_buffer_append` of a text at a pointer that may be NULL.
  unfoldable pub buffer_append : (ℕ → Bytes) → Option ℕ → Bytes → Run (ℕ → Bytes)
  buffer_append store none [] = ok store
  buffer_append store (some p) [] = ok store
  buffer_append store none (c ∷ txt) = croak null_pointer
  buffer_append store (some p) (c ∷ txt) = elim (x.buffer_add (store p) (c ∷ txt)) [
    | none ↦ croak buffer_failed
    | some b ↦ ok (write store p b)
  ]

  -- The buffer of a name, made on the way if that is asked for.
  unfoldable pub find_buffer : NamedBuffer x → Bytes → Bool → Run (NamedBuffer x × ℕ)
  unfolding add_name_to_hash hash_fetch
  find_buffer nb name autovivify = elim (hash_fetch x nb.hash name) [
    | some p ↦ ok (nb, p)
    | none ↦
        if not autovivify
        then croak not_a_named_buffer
        else add_name_to_hash name nb >>= λ made. elim (hash_fetch x made.hash name) [
          | some p ↦ ok (made, p)
          | none ↦ croak not_a_named_buffer
        ]
  ]

  -- The new buffers, and what the call leaves of the caller's string.
  unfoldable pub nb_add_str :
      NamedBuffer x → Bytes → Bytes → ℕ → Bytes → Bool → Bool → Run (NamedBuffer x × Bytes)
  unfolding find_buffer buffer_append cleaned clean_in_place
  nb_add_str nb name str len joiner cleanwsp autovivify =
      if all_ws str
      then ok (nb, str)
      else find_buffer nb name autovivify >>= λ found.
          let (nb', p) = found in
          (if length (nb'.store p) == 0
            then ok nb'.store
            else buffer_append nb'.store (some p) joiner)
          >>= λ joined. buffer_append joined (some p) (cleaned cleanwsp str len) >>= λ store'.
              ok (record nb' { store = store' }, if cleanwsp then clean_in_place str else str)

  unfoldable pub nb_get_value : NamedBuffer x → Bytes → Option Bytes
  unfolding hash_fetch
  nb_get_value nb key = elim (hash_fetch x nb.hash key) [ none ↦ none | some p ↦ some (nb.store p) ]

  -- `xmlBufferCat`, whose result the code does not look at.
  unfoldable pub buffer_cat : (ℕ → Bytes) → ℕ → Bytes → ℕ → Bytes
  buffer_cat store p txt = elim (x.buffer_add (store p) txt) [
    | none ↦ store
    | some b ↦ write store p b
  ]

  -- The body of `cat_buffer` on the text of the second set; a name that it lacks has none.
  unfoldable pub cat_text : (ℕ → Bytes) → ℕ → Option Bytes → ℕ → Bytes
  unfolding buffer_cat
  cat_text store p none = store
  cat_text store p (some []) = store
  cat_text store p (some (c ∷ txt)) =
      buffer_cat (if length (store p) == 0 then store else buffer_cat store p bumper) p (c ∷ txt)

  unfoldable pub cat_buffer : NamedBuffer x → ℕ → Bytes → (ℕ → Bytes) → ℕ → Bytes
  unfolding nb_get_value cat_text
  cat_buffer nb2 p name store = cat_text store p (nb_get_value nb2 name)

  unfoldable pub cat_buffers : NamedBuffer x → List (Bytes × ℕ) → (ℕ → Bytes) → ℕ → Bytes
  unfolding cat_buffer
  cat_buffers nb2 [] store = store
  cat_buffers nb2 (e ∷ es) store = cat_buffers nb2 es (cat_buffer nb2 e.1 e.0 store)

  unfoldable pub buffer_concat : NamedBuffer x → NamedBuffer x → NamedBuffer x
  unfolding cat_buffers
  buffer_concat nb1 nb2 = record nb1 { store = cat_buffers nb2 (x.scan ℕ nb1.hash) nb1.store }
