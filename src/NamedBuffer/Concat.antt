-- ===== src/NamedBuffer/Concat.antt =====
-- `swish_buffer_concat`: the texts of a second set are put behind those of the first.
use libswish.LibXml.{find, Distinct, LibXml, IsLibXml}
use libswish.NamedBuffer.Values.{IsValid}
use libswish.NamedBuffer.{
  NamedBuffer, bumper, nb_get_value, buffer_cat, cat_text, cat_buffer, cat_buffers, buffer_concat,
}
use libswish.Prelude.{
  ℕ, true, ◌≡◌, ◌≢◌, refl, sym, ◌∙◌, ap, List, [], ◌∷◌, ◌++◌, Option, none, some, Bytes,
  if◌then◌else◌, eq_bytes, eq_bytes_iff, arith, Option-cases, inl, inr, ◌==◌, Bool-cases, length,
}

-- A text behind another, with a bumper between them unless the first is empty.
abbrev pub bumped : Bytes → Option Bytes → Bytes
bumped b none = b
bumped b (some []) = b
bumped b (some (c ∷ txt)) = if length b == 0 then c ∷ txt else (b ++ bumper) ++ c ∷ txt

empty_append : (b txt : Bytes) → (length b == 0) ≡ true → b ++ txt ≡ txt
empty_append [] txt h = refl
empty_append (c ∷ b) txt h = ground arith

module _ (x : LibXml) (laws : IsLibXml x) where
  -- No buffer stands under two names.
  abbrev Apart : List (Bytes × ℕ) → Type 0
  Apart es = (j k : Bytes) (p : ℕ) → find j es ≡ some p → find k es ≡ some p → j ≡ k

  buffer_cat-reads :
      (store : ℕ → Bytes) (p q : ℕ) (txt : Bytes)
      → buffer_cat x store p txt q ≡ (if q == p then store p ++ txt else store q)
  unfolding buffer_cat
  buffer_cat-reads store p q txt = ground (arith, laws.buffer_adds (store p) txt)

  cat_text-bumped :
      (store : ℕ → Bytes) (p : ℕ) (o : Option Bytes) (q : ℕ)
      → cat_text x store p o q ≡ (if q == p then bumped (store p) o else store q)
  unfolding cat_text
  cat_text-bumped store p none q = ground arith
  cat_text-bumped store p (some []) q = ground arith
  cat_text-bumped store p (some (c ∷ txt)) q = elim (Bool-cases (length (store p) == 0)) [
    | inl empty ↦
        rw empty
          (ground (arith, buffer_cat-reads store p q (c ∷ txt), empty_append (store p) (c ∷ txt)))
    | inr full ↦ rw full (
        ground (
          arith,
          buffer_cat-reads (buffer_cat x store p bumper) p q (c ∷ txt),
          buffer_cat-reads store p q bumper,
          buffer_cat-reads store p p bumper,
        ))
  ]

  cat_buffer-bumped :
      (nb2 : NamedBuffer x) (p : ℕ) (name : Bytes) (store : ℕ → Bytes) (q : ℕ)
      → cat_buffer x nb2 p name store q
        ≡ (if q == p then bumped (store p) (nb_get_value x nb2 name) else store q)
  unfolding cat_buffer
  cat_buffer-bumped nb2 p name store q = cat_text-bumped store p (nb_get_value x nb2 name) q

  find-later :
      (e : Bytes × ℕ) (es : List (Bytes × ℕ)) (j : Bytes) (p : ℕ)
      → Distinct (e ∷ es)
      → find j es ≡ some p
      → find j (e ∷ es) ≡ some p
  unfolding find
  find-later e es j p d h = ground (arith, eq_bytes_iff j e.0)

  Apart-tail :
      (e : Bytes × ℕ) (es : List (Bytes × ℕ)) → Distinct (e ∷ es) → Apart (e ∷ es) → Apart es
  Apart-tail e es d a j k p h h' = a j k p (find-later e es j p d h) (find-later e es k p d h')

  find-head : (e : Bytes × ℕ) (es : List (Bytes × ℕ)) → find e.0 (e ∷ es) ≡ some e.1
  unfolding find
  find-head e es = ground (arith, eq_bytes_iff e.0 e.0)

  -- The first entry's buffer is under no later name.
  later_ne_head :
      (e : Bytes × ℕ) (es : List (Bytes × ℕ)) (k : Bytes)
      → Distinct (e ∷ es)
      → Apart (e ∷ es)
      → find k es ≢ some e.1
  later_ne_head e es k d a h =
      let same : k ≡ e.0 = a k e.0 e.1 (find-later e es k e.1 d h) (find-head e es) in cc (d.0)

  cat_buffers-reads :
      (nb2 : NamedBuffer x) (es : List (Bytes × ℕ)) (store : ℕ → Bytes) (q : ℕ)
      → Distinct es
      → Apart es
      → ((j : Bytes)
          → find j es ≡ some q
          → cat_buffers x nb2 es store q ≡ bumped (store q) (nb_get_value x nb2 j))
        × (((j : Bytes) → find j es ≢ some q) → cat_buffers x nb2 es store q ≡ store q)
  unfolding cat_buffers find
  cat_buffers-reads nb2 [] store q d a = (λ j e. cc, λ n. refl)
  cat_buffers-reads nb2 (e ∷ es) store q d a =
      let store' = cat_buffer x nb2 e.1 e.0 store in
      let rest = cat_buffers-reads nb2 es store' q d.1 (Apart-tail e es d a) in
      let now = cat_buffer-bumped nb2 e.1 e.0 store q in
      (
        λ j h. elim (Bool-cases (eq_bytes j e.0)) [
          | inl same ↦
              let here : e.1 ≡ q = ground (arith, eq_bytes_iff j e.0) in
              rest.1 (λ k hk. later_ne_head e es k d a (hk ∙ ap some (sym here)))
              ∙ ground (arith, now, eq_bytes_iff j e.0)
          | inr other ↦
              let late : find j es ≡ some q = ground arith in
              let apart : q ≢ e.1 = λ eq. later_ne_head e es j d a (late ∙ ap some eq) in
              rest.0 j late ∙ ground (arith, now)
        ],
        λ n.
            let apart : q ≢ e.1 = λ eq. n e.0 (find-head e es ∙ ap some (sym eq)) in
            rest.1 (λ k hk. n k (find-later e es k q d hk)) ∙ ground (arith, now),
      )

  -- Each name of the first set has its own text and behind it that of the second set, with a bumper
  -- between two that are not empty; no name is added.
  pub buffer_concat-bumped :
      (nb1 nb2 : NamedBuffer x) (j : Bytes)
      → IsValid x nb1
      → nb_get_value x (buffer_concat x nb1 nb2) j ≡ elim (nb_get_value x nb1 j) [
        | none ↦ none
        | some b ↦ some (bumped b (nb_get_value x nb2 j))
      ]
  unfolding buffer_concat
  buffer_concat-bumped nb1 nb2 j v = elim (Option-cases (x.lookup ℕ nb1.hash j)) [
    | inl absent ↦ unfold nb_get_value in ground arith
    | inr (p, e) ↦
        let reads =
          (cat_buffers-reads nb2 (x.scan ℕ nb1.hash) nb1.store p (laws.scan-Distinct ℕ nb1.hash)
              (λ i k r h h'.
                v.apart i k r (sym (laws.scan_find ℕ nb1.hash i) ∙ h)
                  (sym (laws.scan_find ℕ nb1.hash k) ∙ h'))).0
            j (laws.scan_find ℕ nb1.hash j ∙ e) in
        unfold nb_get_value in ground (arith, reads)
  ]
