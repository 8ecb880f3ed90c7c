-- ===== src/TokenList.antt =====
-- src/libswish3/tokenizer.c: the list of tokens, whose texts stand NUL-terminated in one buffer.
pub mod Layout
pub mod Adding
pub mod Iterator
use libswish.Hash.{hash_exists_or_add, hash_fetch}
use libswish.LibXml.{LibXml}
use libswish.Prelude.{
  ℕ, ◌+◌, ◌-◌, ◌*◌, ◌/◌, ◌%◌, Bool, true, false, not, ◌&&◌, ◌||◌, List, [], ◌∷◌, ◌++◌, Option, none,
  some, Bytes, Run, ok, croak, ◌>>=◌, ◌>>◌, guard, if◌then◌else◌, ltb, leb, ◌==◌, length, take,
  drop, get_elem?, empty_token, buffer_failed, out_of_bounds, null_pointer,
}

-- `meta` stands for the pointer to the metaname. The text of a token is not kept in it: `value` is
-- a pointer into the buffer at `offset`.
pub record Token : Type 0 where
  pub pos : ℕ
  pub meta : ℕ
  pub context : Bytes
  pub offset : ℕ
  pub len : ℕ

-- `SWISH_TOKEN_LIST_SIZE`
abbrev pub list_size : ℕ
list_size = 1024

-- The block of pointers is enlarged at each multiple of its first size.
unfoldable pub grown : ℕ → ℕ → ℕ
grown n slots =
    let num_of_allocs = n / list_size in
    if not (num_of_allocs == 0) && n % list_size == 0
    then list_size * (num_of_allocs + 1)
    else slots

module _ (x : LibXml) where
  -- `n` is the number of `tokens`, `slots` the number of pointers that are allocated for them.
  pub record TokenList : Type 0 where
    pub pos : ℕ
    pub contexts : x.Table Bytes
    pub buf : Bytes
    pub tokens : List Token
    pub slots : ℕ

  unfoldable pub token_list_init : TokenList
  token_list_init = record {
    pos = 0;
    contexts = x.create Bytes;
    buf = [];
    tokens = [];
    slots = list_size;
  }

  unfoldable pub set_token : Bytes → Bytes → ℕ → Run Bytes
  set_token buf token len = elim (x.buffer_add buf (take len (token ++ 0 ∷ []))) [
    | none ↦ croak buffer_failed
    | some b ↦ ok b
  ]

  -- The context is cached, and the token points at the cached string.
  unfoldable pub cache_context : x.Table Bytes → Bytes → Run (x.Table Bytes × Bytes)
  unfolding hash_exists_or_add hash_fetch
  cache_context contexts context = hash_exists_or_add x contexts context context >>= λ t.
      elim (hash_fetch x t context) [ none ↦ croak null_pointer | some c ↦ ok (t, c) ]

  -- `token_len` counts the NUL.
  unfoldable pub add_token : TokenList → Bytes → ℕ → ℕ → Bytes → Run TokenList
  unfolding set_token cache_context grown
  add_token tl token token_len meta context =
      if token_len == 0 || length token == 0 then croak empty_token else do
        buf' ← set_token tl.buf token token_len
        cached ← cache_context tl.contexts context
        let n = length tl.tokens
        let slots' = grown n tl.slots
        guard (ltb n slots') out_of_bounds
        let t : Token = record {
          pos = tl.pos + 1;
          meta = meta;
          context = cached.1;
          offset = length tl.buf;
          len = token_len - 1;
        }
        ok (record {
          pos = tl.pos + 1;
          contexts = cached.0;
          buf = buf';
          tokens = tl.tokens ++ t ∷ [];
          slots = slots';
        })

-- The bytes up to the first NUL.
unfoldable pub up_to_nul : Bytes → Bytes
up_to_nul [] = []
up_to_nul (c ∷ s) = if c == 0 then [] else c ∷ up_to_nul s

-- `swish_token_list_get_token_value`, read as a C string.
unfoldable pub get_token_value : Bytes → Token → Bytes
unfolding up_to_nul
get_token_value buf t = up_to_nul (drop t.offset buf)

module _ (x : LibXml) where
  pub record TokenIterator : Type 0 where
    pub tl : TokenList x
    pub pos : ℕ

  unfoldable pub token_iterator_next_token : TokenIterator → Option (Token × Bytes) × TokenIterator
  unfolding get_token_value
  token_iterator_next_token it =
      if leb (length it.tl.tokens) it.pos
      then (none, it)
      else elim (get_elem? it.tl.tokens it.pos) [
        | none ↦ (none, it)
        | some t ↦ (some (t, get_token_value it.tl.buf t), record it { pos = it.pos + 1 })
      ]
