-- ===== src/TokenList/Adding.antt =====
-- `swish_token_list_add_token` appends one token and keeps the list well formed.
use libswish.Hash.Merge.{hash_exists_or_add-reads}
use libswish.LibXml.{LibXml, IsLibXml}
use libswish.Prelude.{
  ℕ, ◌+◌, ◌-◌, ◌*◌, ◌/◌, ◌<◌, ◌≡◌, ◌≢◌, refl, ◌∙◌, ap, ap₂, [], ◌∷◌, ◌++◌, Option, some, none,
  Bytes, length, take, ok, Option-cases, Returns, arith, inl, inr, All-append, length-append,
  eq_bytes_iff, lt→ltb,
}
use libswish.TokenList.Layout.{
  IsText, IsPlaced, IsValid, All-IsPlaced-append, get_token_value-IsPlaced, views, views-append,
  views_grow, Rises-concat,
}
use libswish.TokenList.{
  Token, list_size, TokenList, token_list_init, set_token, cache_context, grown, add_token,
}

take_all : (s : Bytes) (n : ℕ) → n ≡ length s → take n s ≡ s
take_all [] n h = rw h refl
take_all (c ∷ s) n h = rw h (ap (◌∷◌ c) (take_all s (length s) refl))

take_nul : (s : Bytes) → take (length s + 1) (s ++ 0 ∷ []) ≡ s ++ 0 ∷ []
take_nul s = take_all (s ++ 0 ∷ []) (length s + 1) (omega (arith, length-append s (0 ∷ [])))

-- The block of pointers keeps its form, and has room for one more.
grown-room :
    (n slots : ℕ)
    → slots ≡ list_size * ((n - 1) / list_size + 1)
    → (n < grown n slots) × (grown n slots ≡ list_size * (n / list_size + 1))
unfolding grown
grown-room n slots h = ground arith

none-some : {o : Option Bytes} {c : Bytes} → o ≡ none → o ≢ some c
none-some n e = absurd cc

module _ (x : LibXml) (laws : IsLibXml x) where
  pub token_list_init-IsValid : IsValid x (token_list_init x)
  unfolding token_list_init
  token_list_init-IsValid = record {
    placed = tt;
    rises = omega arith;
    cached = λ k c e. absurd (none-some (laws.lookup-create Bytes k) e);
    allocated = refl;
  }

  abbrev Cached : x.Table Bytes → Type 0
  Cached t = (k c : Bytes) → x.lookup Bytes t k ≡ some c → c ≡ k

  cache_context-Cached :
      (t : x.Table Bytes) (context : Bytes)
      → Cached t
      → Returns (cache_context x t context) (λ r. Cached r.0 × (r.1 ≡ context))
  unfolding cache_context
  cache_context-Cached t context c =
      let (t', added, reads) = hash_exists_or_add-reads x laws t context context in
      elim (Option-cases (x.lookup Bytes t context)) [
        | inl absent ↦ (
          (t', context),
          ground (arith, added, reads context, eq_bytes_iff context context),
          (λ k d e. ground (arith, reads k, c k d, eq_bytes_iff k context), refl),
        )
        | inr (w, present) ↦ (
          (t', context),
          ground (arith, added, reads context, c context w, eq_bytes_iff context context),
          (λ k d e. ground (arith, reads k, c k d, c context w, eq_bytes_iff k context), refl),
        )
      ]

  -- `r` is `tl` with one more token, at the next position.
  pub record Adds (tl : TokenList x) (token : Bytes) (meta : ℕ) (context : Bytes) (r : TokenList x)
      : Type 0 where
    pub valid : IsValid x r
    pub pos_next : r.pos ≡ tl.pos + 1
    pub views_are :
        views r.buf r.tokens
        ≡ views tl.buf tl.tokens
          ++ record { text = token; pos = tl.pos + 1; meta = meta; context = context } ∷ []

  abbrev token_at : TokenList x → Bytes → ℕ → Bytes → Token
  token_at tl token meta context = record {
    pos = tl.pos + 1;
    meta = meta;
    context = context;
    offset = length tl.buf;
    len = length token + 1 - 1;
  }

  token_at-IsPlaced :
      (tl : TokenList x) (token : Bytes) (meta : ℕ) (context : Bytes)
      → 0 < length token
      → IsText token
      → IsPlaced (tl.buf ++ (token ++ 0 ∷ [])) (token_at tl token meta context)
  token_at-IsPlaced tl token meta context h t = record {
    before = tl.buf;
    value = token;
    after = [];
    splits = refl;
    offset_is = refl;
    len_is = omega arith;
    is_text = t;
    nonempty = omega arith;
  }

  add_token_steps :
      (tl : TokenList x) (token : Bytes) (meta : ℕ) (context : Bytes) {buf' : Bytes}
      {cached : x.Table Bytes × Bytes}
      → 0 < length token
      → set_token x tl.buf token (length token + 1) ≡ ok buf'
      → cache_context x tl.contexts context ≡ ok cached
      → length tl.tokens < grown (length tl.tokens) tl.slots
      → add_token x tl token (length token + 1) meta context
        ≡ ok (record {
          pos = tl.pos + 1;
          contexts = cached.0;
          buf = buf';
          tokens =
              tl.tokens
              ++ record {
                pos = tl.pos + 1;
                meta = meta;
                context = cached.1;
                offset = length tl.buf;
                len = length token + 1 - 1;
              }
                ∷ [];
          slots = grown (length tl.tokens) tl.slots;
        })
  unfolding add_token
  add_token_steps tl token meta context h e f room =
      ground (arith, e, f, room, lt→ltb (length tl.tokens) (grown (length tl.tokens) tl.slots) room)

  set_token_lem :
      (buf token : Bytes) → set_token x buf token (length token + 1) ≡ ok (buf ++ (token ++ 0 ∷ []))
  unfolding set_token
  set_token_lem buf token = ground (arith, take_nul token, laws.buffer_adds buf (token ++ 0 ∷ []))

  -- A text that is not empty, given with its length and the NUL, is added with no write out of
  -- bounds: the tokens before it keep their texts and positions.
  pub add_token-Adds :
      (tl : TokenList x) (token : Bytes) (meta : ℕ) (context : Bytes)
      → IsValid x tl
      → 0 < length token
      → IsText token
      → Returns (add_token x tl token (length token + 1) meta context) (Adds tl token meta context)
  unfolding token_at-IsPlaced
  add_token-Adds tl token meta context v h t =
      let ((contexts', c), cached, (cached', c_is)) =
        cache_context-Cached tl.contexts context v.cached in
      let room = grown-room (length tl.tokens) tl.slots v.allocated in
      let u = token_at tl token meta context in
      let r : TokenList x = record {
        pos = tl.pos + 1;
        contexts = contexts';
        buf = tl.buf ++ (token ++ 0 ∷ []);
        tokens = tl.tokens ++ u ∷ [];
        slots = grown (length tl.tokens) tl.slots;
      } in
      (
        r,
        add_token_steps tl token meta context h (set_token_lem tl.buf token) cached room.0
            ∙ ap (λ d. ok (record r { tokens = tl.tokens ++ record u { context = d } ∷ [] })) c_is,
        record {
          valid = record {
            placed =
                All-append (IsPlaced r.buf) tl.tokens (u ∷ [])
                  (All-IsPlaced-append tl.buf (token ++ 0 ∷ []) tl.tokens v.placed)
                  (token_at-IsPlaced tl token meta context h t, tt);
            rises = Rises-concat 0 tl.pos tl.tokens u v.rises (omega arith);
            cached = cached';
            allocated = ground (arith, room.1, length-append tl.tokens (u ∷ []));
          };
          pos_next = refl;
          views_are =
              views-append r.buf tl.tokens (u ∷ [])
              ∙ ap₂ ◌++◌ (views_grow tl.buf (token ++ 0 ∷ []) tl.tokens v.placed) (
                  ap
                    (λ w.
                      record { text = w; pos = tl.pos + 1; meta = meta; context = context } ∷ [])
                    (get_token_value-IsPlaced r.buf u
                      (token_at-IsPlaced tl token meta context h t)));
        },
      )
