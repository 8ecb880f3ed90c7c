-- ===== src/TokenList/Layout.antt =====
-- Where the texts of the tokens stand, and the invariant of a token list.
use libswish.LibXml.{LibXml}
use libswish.Prelude.{
  ℕ, ◌+◌, ◌-◌, ◌*◌, ◌/◌, ◌≤◌, ◌<◌, ◌≡◌, ◌≢◌, refl, sym, ◌∙◌, ap, ap₂, List, [], ◌∷◌, ◌++◌,
  append_assoc, some, Bytes, length, All, drop-append, arith,
}
use libswish.TokenList.{Token, list_size, TokenList, up_to_nul, get_token_value}

abbrev pub IsText : Bytes → Type 0
IsText = All (λ c. c ≢ 0)

-- The text of `t` stands in the buffer at its offset, with a NUL behind it.
pub record IsPlaced (buf : Bytes) (t : Token) : Type 0 where
  pub before : Bytes
  pub value : Bytes
  pub after : Bytes
  pub splits : buf ≡ before ++ (value ++ (0 ∷ after))
  pub offset_is : length before ≡ t.offset
  pub len_is : length value ≡ t.len
  pub is_text : IsText value
  pub nonempty : 0 < t.len

pub up_to_nul-text : (v after : Bytes) → IsText v → up_to_nul (v ++ (0 ∷ after)) ≡ v
unfolding up_to_nul
up_to_nul-text [] after h = refl
up_to_nul-text (c ∷ v) after h = ground (arith, up_to_nul-text v after h.1)

pub get_token_value-IsPlaced :
    (buf : Bytes) (t : Token) (p : IsPlaced buf t) → get_token_value buf t ≡ p.value
unfolding get_token_value
get_token_value-IsPlaced buf t p =
    rw (p.splits, ← p.offset_is, drop-append p.before (p.value ++ (0 ∷ p.after)))
      (up_to_nul-text p.value p.after p.is_text)

pub IsPlaced-append : (buf more : Bytes) (t : Token) → IsPlaced buf t → IsPlaced (buf ++ more) t
IsPlaced-append buf more t p = record {
  before = p.before;
  value = p.value;
  after = p.after ++ more;
  splits = rw p.splits (simp append_assoc);
  offset_is = p.offset_is;
  len_is = p.len_is;
  is_text = p.is_text;
  nonempty = p.nonempty;
}

pub All-IsPlaced-append :
    (buf more : Bytes) (ts : List Token) → All (IsPlaced buf) ts → All (IsPlaced (buf ++ more)) ts
All-IsPlaced-append buf more [] h = tt
All-IsPlaced-append buf more (t ∷ ts) h =
    (IsPlaced-append buf more t h.0, All-IsPlaced-append buf more ts h.1)

-- The positions rise from above `low` and stay up to `high`.
abbrev pub Rises : ℕ → ℕ → List Token → Type 0
Rises low high [] = low ≤ high
Rises low high (t ∷ ts) = (low < t.pos) × Rises t.pos high ts

module _ (x : LibXml) where
  pub record IsValid (tl : TokenList x) : Type 0 where
    pub placed : All (IsPlaced tl.buf) tl.tokens
    pub rises : Rises 0 tl.pos tl.tokens
    pub cached : (k c : Bytes) → x.lookup Bytes tl.contexts k ≡ some c → c ≡ k
    pub allocated : tl.slots ≡ list_size * ((length tl.tokens - 1) / list_size + 1)

-- What a token says of the document.
pub record View : Type 0 where
  pub text : Bytes
  pub pos : ℕ
  pub meta : ℕ
  pub context : Bytes

abbrev pub view : Bytes → Token → View
view buf t = record {
  text = get_token_value buf t;
  pos = t.pos;
  meta = t.meta;
  context = t.context;
}

abbrev pub views : Bytes → List Token → List View
views buf [] = []
views buf (t ∷ ts) = view buf t ∷ views buf ts

pub views-append :
    (buf : Bytes) (ts us : List Token) → views buf (ts ++ us) ≡ views buf ts ++ views buf us
views-append buf [] us = refl
views-append buf (t ∷ ts) us = ap (◌∷◌ (view buf t)) (views-append buf ts us)

-- What is written behind the placed texts changes none of them.
pub views_grow :
    (buf more : Bytes) (ts : List Token)
    → All (IsPlaced buf) ts
    → views (buf ++ more) ts ≡ views buf ts
unfolding IsPlaced-append get_token_value
views_grow buf more [] h = refl
views_grow buf more (t ∷ ts) h =
    let same =
      get_token_value-IsPlaced (buf ++ more) t (IsPlaced-append buf more t h.0)
      ∙ sym (get_token_value-IsPlaced buf t h.0) in
    ap₂ (λ v vs. record { text = v; pos = t.pos; meta = t.meta; context = t.context } ∷ vs) same
      (views_grow buf more ts h.1)

pub Rises-concat :
    (low high : ℕ) (ts : List Token) (t : Token)
    → Rises low high ts
    → high < t.pos
    → Rises low t.pos (ts ++ t ∷ [])
Rises-concat low high [] t r h = (omega arith, omega arith)
Rises-concat low high (u ∷ ts) t r h = (r.0, Rises-concat u.pos high ts t r.1 h)

pub Rises-later :
    (low high high' : ℕ) (ts : List Token) → Rises low high ts → high ≤ high' → Rises low high' ts
Rises-later low high high' [] r h = omega arith
Rises-later low high high' (u ∷ ts) r h = (r.0, Rises-later u.pos high high' ts r.1 h)
