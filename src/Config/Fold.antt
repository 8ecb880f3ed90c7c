-- ===== src/Config/Fold.antt =====
-- Merging a table into another, entry by entry.
use libswish.LibXml.{find, Distinct, LibXml}
use libswish.Prelude.{
  All, arith, subst, ◌≢◌, true, false, ◌≡◌, refl, ◌∙◌, sym, ap, List, [], ◌∷◌, Option, none, some,
  Bytes, Run, ok, ◌>>=◌, if◌then◌else◌, Returns, eq_bytes, eq_bytes_iff, Bool-cases, inl, inr,
}

-- Where the new entry and the old one fit, `step` puts under a key the `value` that they give.
abbrev pub Steps :
    (x : LibXml) {V : Type 0}
    → (V → x.Table V → Bytes → Run (x.Table V))
    → (V → Bytes → Option V → V)
    → (V → Option V → Type 0)
    → Type 0
Steps x {V} step value fits =
    (v : V) (t : x.Table V) (k : Bytes)
    → fits v (x.lookup V t k)
    → Returns (step v t k) (λ t'.
      (j : Bytes)
      → x.lookup V t' j
        ≡ (if eq_bytes j k then some (value v k (x.lookup V t k)) else x.lookup V t j))

-- `loop` takes the steps in order.
abbrev pub Loops :
    (x : LibXml) {V : Type 0}
    → (V → x.Table V → Bytes → Run (x.Table V))
    → (List (Bytes × V) → x.Table V → Run (x.Table V))
    → Type 0
Loops x {V} step loop =
    ((t : x.Table V) → loop [] t ≡ ok t)
    × ((e : Bytes × V) (es : List (Bytes × V)) (t : x.Table V)
        → loop (e ∷ es) t ≡ (step e.1 t e.0 >>= loop es))

-- The entry under `k`, with a new one or none laid over the old one.
abbrev pub merged :
    {V : Type 0} → (V → Bytes → Option V → V) → Option V → Bytes → Option V → Option V
merged value none k old = old
merged value (some v) k old = some (value v k old)

eq_bytes-swap : (a b : Bytes) → eq_bytes a b ≡ false → eq_bytes b a ≡ false
eq_bytes-swap a b h = ground (arith, h, eq_bytes_iff a b, eq_bytes_iff b a)

module _ (x : LibXml) {V : Type 0} (step : V → x.Table V → Bytes → Run (x.Table V))
    (loop : List (Bytes × V) → x.Table V → Run (x.Table V)) (value : V → Bytes → Option V → V)
    (fits : V → Option V → Type 0) where
  here :
      (e : Bytes × V) (es : List (Bytes × V)) (t t' : x.Table V) (j : Bytes)
      → j ≡ e.0
      → eq_bytes j e.0 ≡ true
      → find e.0 es ≡ none
      → x.lookup V t' j
        ≡ (if eq_bytes j e.0 then some (value e.1 e.0 (x.lookup V t e.0)) else x.lookup V t j)
      → merged value (find j es) j (x.lookup V t' j)
        ≡ merged value (find j (e ∷ es)) j (x.lookup V t j)
  unfolding find
  here e es t t' j at same fresh reads = rw same (
      ap (λ o. merged value o j (x.lookup V t' j)) (ap (λ k. find k es) at ∙ fresh)
      ∙ reads
      ∙ rw same (ap (λ k. some (value e.1 k (x.lookup V t k))) (sym at)))

  abbrev Fit : List (Bytes × V) → x.Table V → Type 0
  Fit es t = All (λ e. fits e.1 (x.lookup V t e.0)) es

  Fit-step :
      (k : Bytes) (es : List (Bytes × V)) (t t' : x.Table V)
      → find k es ≡ none
      → ((j : Bytes) → eq_bytes j k ≡ false → x.lookup V t' j ≡ x.lookup V t j)
      → Fit es t
      → Fit es t'
  unfolding find
  Fit-step k [] t t' absent same f = tt
  Fit-step k (e ∷ es) t t' absent same f = elim (Bool-cases (eq_bytes k e.0)) [
    | inl equal ↦ absurd (ground (arith, absent, equal))
    | inr other ↦ (
      subst (fits e.1) (sym (same e.0 (eq_bytes-swap k e.0 other))) f.0,
      Fit-step k es t t' (ground (arith, absent, other)) same f.1,
    )
  ]

  pub loop-reads :
      Steps x step value fits
      → Loops x step loop
      → (es : List (Bytes × V)) (t : x.Table V) → Distinct es
      → Fit es t
      → Returns
          (loop es t)
          (λ t'. (j : Bytes) → x.lookup V t' j ≡ merged value (find j es) j (x.lookup V t j))
  unfolding find
  loop-reads steps loops [] t d f = (t, loops.0 t, λ j. refl)
  loop-reads steps loops (e ∷ es) t d f =
      let (t', put, reads) = steps e.1 t e.0 f.0 in
      let (t'', done, reads') =
        loop-reads steps loops es t' d.1
          (Fit-step e.0 es t t' d.0 (λ j other. reads j ∙ rw other refl) f.1) in
      (
        t'',
        loops.1 e es t ∙ ap (λ r. r >>= loop es) put ∙ done,
        λ j. reads' j ∙ elim (Bool-cases (eq_bytes j e.0)) [
          | inl same ↦
              let at : j ≡ e.0 = (eq_bytes_iff j e.0).0 same in
              here e es t t' j at same d.0 (reads j)
          | inr other ↦ rw other (ap (merged value (find j es) j) (reads j ∙ rw other refl))
        ],
      )

some-none : {V : Type 0} {v : V} → some v ≢ none
some-none e = absurd cc

-- What holds of every entry that is found holds of all of them.
pub found_all :
    {V : Type 0} (P : V → Type 0) (es : List (Bytes × V))
    → Distinct es
    → ((k : Bytes) (v : V) → find k es ≡ some v → P v)
    → All (λ e. P e.1) es
unfolding find
found_all P [] d h = tt
found_all P (e ∷ es) d h = (
  h e.0 e.1 (rw ((eq_bytes_iff e.0 e.0).1 refl) refl),
  found_all P es d.1 λ k v found. elim (Bool-cases (eq_bytes k e.0)) [
    | inl same ↦ absurd (absent_found es k v ((eq_bytes_iff k e.0).0 same) d.0 found)
    | inr other ↦ h k v (rw other found)
  ],
)
  where
    absent_found :
        {V : Type 0} (es : List (Bytes × V)) (j : Bytes) (v : V) {k : Bytes}
        → j ≡ k
        → find k es ≡ none
        → find j es ≢ some v
    absent_found es j v at absent found =
        absurd (some-none (sym found ∙ ap (λ i. find i es) at ∙ absent))
