-- ===== src/TokenList/Iterator.antt =====
-- `swish_token_iterator_next_token` hands out the tokens of the list in their order.
use libswish.LibXml.{LibXml}
use libswish.Prelude.{
  ℕ, zero, suc, ◌+◌, ◌≤◌, ◌<◌, ◌≡◌, refl, ◌∙◌, ap, List, [], ◌∷◌, Option, none, some, Bytes, length,
  get_elem?, drop, arith, inl, inr, ◌⊎◌,
}
use libswish.TokenList.{Token, get_token_value, TokenIterator, token_iterator_next_token}

-- Calls to `swish_token_iterator_next_token` until it returns NULL, at most `fuel` of them.
abbrev pub rest_of : (x : LibXml) → ℕ → TokenIterator x → Option (List (Token × Bytes))
rest_of x zero it = none
rest_of x (suc fuel) it =
    let rest = rest_of x fuel (token_iterator_next_token x it).1 in
    elim (token_iterator_next_token x it).0 [
      | none ↦ some []
      | some p ↦ elim rest [ none ↦ none | some ps ↦ some (p ∷ ps) ]
    ]

abbrev pub with_values : Bytes → List Token → List (Token × Bytes)
with_values buf [] = []
with_values buf (t ∷ ts) = (t, get_token_value buf t) ∷ with_values buf ts

pub drop-get_elem? :
    {A : Type 0} (xs : List A) (i : ℕ)
    → i < length xs
    → (y : A) × (get_elem? xs i ≡ some y) × (drop i xs ≡ y ∷ drop (suc i) xs)
drop-get_elem? [] i h = absurd (omega arith)
drop-get_elem? (y ∷ xs) zero h = (y, refl, refl)
drop-get_elem? (y ∷ xs) (suc i) h = drop-get_elem? xs i (omega arith)

pub drop_all : {A : Type 0} (xs : List A) (i : ℕ) → length xs ≤ i → drop i xs ≡ []
drop_all [] zero h = refl
drop_all [] (suc i) h = refl
drop_all (y ∷ xs) zero h = absurd (omega arith)
drop_all (y ∷ xs) (suc i) h = drop_all xs i (omega arith)

pub Nat_le_cases : (m n : ℕ) → (m ≤ n) ⊎ (n < m)
Nat_le_cases m n = ground arith

pub next_index : (n : ℕ) → n + 1 ≡ suc n
next_index n = omega arith

module _ (x : LibXml) where
  pub next_none :
      (it : TokenIterator x)
      → length it.tl.tokens ≤ it.pos
      → token_iterator_next_token x it ≡ (none, it)
  unfolding token_iterator_next_token
  next_none it h = ground arith

  pub next_some :
      (it : TokenIterator x) (t : Token)
      → it.pos < length it.tl.tokens
      → get_elem? it.tl.tokens it.pos ≡ some t
      → token_iterator_next_token x it
        ≡ (some (t, get_token_value it.tl.buf t), record it { pos = it.pos + 1 })
  unfolding token_iterator_next_token
  next_some it t h e = ground (arith, e)

  rest_of_stop :
      (fuel : ℕ) (it : TokenIterator x)
      → token_iterator_next_token x it ≡ (none, it)
      → rest_of x (suc fuel) it ≡ some []
  rest_of_stop fuel it e =
      ap
        (λ r. elim r.0 [
          | none ↦ some []
          | some p ↦ elim (rest_of x fuel r.1) [ none ↦ none | some ps ↦ some (p ∷ ps) ]
        ])
        e

  rest_of_step :
      (fuel : ℕ) (it it' : TokenIterator x) (p : Token × Bytes) (ps : List (Token × Bytes))
      → token_iterator_next_token x it ≡ (some p, it')
      → rest_of x fuel it' ≡ some ps
      → rest_of x (suc fuel) it ≡ some (p ∷ ps)
  rest_of_step fuel it it' p ps e f =
      ap
        (λ r. elim r.0 [
          | none ↦ some []
          | some q ↦ elim (rest_of x fuel r.1) [ none ↦ none | some qs ↦ some (q ∷ qs) ]
        ])
        e
      ∙ ap (λ r. elim r [ none ↦ none | some qs ↦ some (p ∷ qs) ]) f

  -- From any position in the list, calling for the next token until NULL yields exactly the tokens
  -- from that position on, in their order and each with the text at its offset; as many calls as
  -- tokens are left, and one more, are enough.
  pub rest_of-drop :
      (fuel : ℕ) (it : TokenIterator x)
      → it.pos ≤ length it.tl.tokens
      → length it.tl.tokens < it.pos + fuel
      → rest_of x fuel it ≡ some (with_values it.tl.buf (drop it.pos it.tl.tokens))
  rest_of-drop zero it b h = absurd (omega arith)
  rest_of-drop (suc fuel) it b h = elim (Nat_le_cases (length it.tl.tokens) it.pos) [
    | inl past ↦ rw (drop_all it.tl.tokens it.pos past) (rest_of_stop fuel it (next_none it past))
    | inr more ↦
        let (t, e, d) = drop-get_elem? it.tl.tokens it.pos more in
        let it' : TokenIterator x = record it { pos = it.pos + 1 } in
        rw d (
          rest_of_step fuel it it' (t, get_token_value it.tl.buf t)
            (with_values it.tl.buf (drop (suc it.pos) it.tl.tokens)) (next_some it t more e)
            (rest_of-drop fuel it' (omega arith) (omega arith)
              ∙ ap (λ n. some (with_values it.tl.buf (drop n it.tl.tokens))) (next_index it.pos)))
  ]
