-- ===== src/NamedBuffer/Adding.antt =====
-- `swish_nb_add_str` on every branch.
use libswish.LibXml.{LibXml, IsLibXml}
use libswish.NamedBuffer.Values.{IsValid, Finds, find_buffer-Finds}
use libswish.NamedBuffer.{
  NamedBuffer, write, find_buffer, buffer_append, cleaned, clean_in_place, nb_add_str, nb_get_value,
}
use libswish.Prelude.{
  ℕ, Bool, true, false, ◌≡◌, ◌≢◌, refl, ◌∙◌, ap, [], ◌∷◌, ◌++◌, append-nil, Option, none, some,
  Bytes, Run, ok, croak, ◌>>=◌, if◌then◌else◌, Returns, eq_bytes, eq_bytes_iff, arith, Option-cases,
  inl, inr, ◌==◌, Bool-cases, length, ◌⊎◌, not_a_named_buffer,
}
use libswish.Str.{all_ws}

-- A text behind what the buffer holds, with the joiner between them unless the buffer is empty.
abbrev pub joined : Option Bytes → Bytes → Bytes → Bytes
joined none joiner piece = piece
joined (some b) joiner piece = if length b == 0 then piece else (b ++ joiner) ++ piece

joined_steps :
    (b joiner piece : Bytes)
    → (b ++ (if length b == 0 then [] else joiner)) ++ piece ≡ joined (some b) joiner piece
joined_steps [] joiner piece = refl
joined_steps (c ∷ b) joiner piece = ground arith

module _ (x : LibXml) (laws : IsLibXml x) where
  abbrev Appended : (ℕ → Bytes) → ℕ → Bytes → (ℕ → Bytes) → Type 0
  Appended store p txt store' = (q : ℕ) → store' q ≡ (if q == p then store p ++ txt else store q)

  buffer_append-Appended :
      (store : ℕ → Bytes) (p : ℕ) (txt : Bytes)
      → Returns (buffer_append x store (some p) txt) (Appended store p txt)
  unfolding buffer_append
  buffer_append-Appended store p [] = (store, refl, λ q. ground (arith, append-nil (store p)))
  buffer_append-Appended store p (c ∷ txt) = (
    write store p (store p ++ (c ∷ txt)),
    ground (arith, laws.buffer_adds (store p) (c ∷ txt)),
    λ q. refl,
  )

  join-Appended :
      (store : ℕ → Bytes) (p : ℕ) (joiner : Bytes)
      → Returns
          (if length (store p) == 0 then ok store else buffer_append x store (some p) joiner)
          (Appended store p (if length (store p) == 0 then [] else joiner))
  join-Appended store p joiner = elim (Bool-cases (length (store p) == 0)) [
    | inl empty ↦ (store, rw empty, λ q. rw empty (ground (arith, append-nil (store p))))
    | inr full ↦
        let (s, e, reads) = buffer_append-Appended store p joiner in
        (s, rw full e, λ q. rw full (reads q))
  ]

  -- What a text that is not all white space does to the buffers.
  pub record Joins (nb : NamedBuffer x) (name joiner piece : Bytes) (nb' : NamedBuffer x)
      : Type 0 where
    pub valid : IsValid x nb'
    pub values :
        (j : Bytes)
        → nb_get_value x nb' j ≡ (
            if eq_bytes j name
            then some (joined (nb_get_value x nb name) joiner piece)
            else nb_get_value x nb j)

  Joins-Finds :
      (nb nb' : NamedBuffer x) (name joiner piece : Bytes) (p : ℕ) (s t : ℕ → Bytes)
      → Finds x laws nb name (nb', p)
      → Appended nb'.store p (if length (nb'.store p) == 0 then [] else joiner) s
      → Appended s p piece t
      → Joins nb name joiner piece (record nb' { store = t })
  unfolding nb_get_value
  Joins-Finds nb nb' name joiner piece p s t f r r' = record {
    valid = record { below = f.added.valid.below; apart = f.added.valid.apart };
    values = λ j. elim (Option-cases (x.lookup ℕ nb'.hash j)) [
      | inl none' ↦ ground (arith, f.found, f.added.values j, eq_bytes_iff j name)
      | inr (q, e) ↦ ground (
        arith,
        f.found,
        f.added.values j,
        f.added.values name,
        f.added.valid.apart j name p,
        eq_bytes_iff j name,
        eq_bytes_iff name name,
        r q,
        r' q,
        r p,
        joined_steps (nb'.store p) joiner piece,
      )
    ];
  }

  nb_add_str_steps :
      (nb nb' : NamedBuffer x) (name str : Bytes) (len : ℕ) (joiner : Bytes)
      (cleanwsp autovivify : Bool) (p : ℕ) (s t : ℕ → Bytes)
      → all_ws str ≡ false
      → find_buffer x nb name autovivify ≡ ok (nb', p)
      → (if length (nb'.store p) == 0
          then ok nb'.store
          else buffer_append x nb'.store (some p) joiner)
        ≡ ok s
      → buffer_append x s (some p) (cleaned cleanwsp str len) ≡ ok t
      → nb_add_str x nb name str len joiner cleanwsp autovivify
        ≡ ok (record nb' { store = t }, if cleanwsp then clean_in_place str else str)
  unfolding nb_add_str
  nb_add_str_steps nb nb' name str len joiner cleanwsp autovivify p s t ink e f g =
      ap (λ b. if b then ok (nb, str) else find_buffer x nb name autovivify >>= again) ink
      ∙ ap (λ r. r >>= again) e
      ∙ ap (λ r. r >>= last) f
      ∙ ap
          (λ r. r >>= λ store'.
            ok (record nb' { store = store' }, if cleanwsp then clean_in_place str else str))
          g
    where
      last : (ℕ → Bytes) → Run (NamedBuffer x × Bytes)
      last joined = buffer_append x joined (some p) (cleaned cleanwsp str len) >>= λ store'.
          ok (record nb' { store = store' }, if cleanwsp then clean_in_place str else str)

      again : NamedBuffer x × ℕ → Run (NamedBuffer x × Bytes)
      again (nb'', q) =
          (if length (nb''.store q) == 0
            then ok nb''.store
            else buffer_append x nb''.store (some q) joiner)
          >>= λ joined. buffer_append x joined (some q) (cleaned cleanwsp str len) >>= λ store'.
              ok (record nb'' { store = store' }, if cleanwsp then clean_in_place str else str)

  pub nb_add_str-Joins :
      (nb : NamedBuffer x) (name str : Bytes) (len : ℕ) (joiner : Bytes)
      (cleanwsp autovivify : Bool)
      → IsValid x nb
      → all_ws str ≡ false
      → (nb_get_value x nb name ≢ none) ⊎ (autovivify ≡ true)
      → Returns
          (nb_add_str x nb name str len joiner cleanwsp autovivify)
          (λ r. Joins nb name joiner (cleaned cleanwsp str len) r.0)
  nb_add_str-Joins nb name str len joiner cleanwsp autovivify v ink c =
      let ((nb', p), finds, f) = find_buffer-Finds x laws nb name autovivify v c in
      let (s, joins, reads) = join-Appended nb'.store p joiner in
      let (t, appends, reads') = buffer_append-Appended s p (cleaned cleanwsp str len) in
      (
        (record nb' { store = t }, if cleanwsp then clean_in_place str else str),
        nb_add_str_steps nb nb' name str len joiner cleanwsp autovivify p s t ink finds joins
            appends,
        Joins-Finds nb nb' name joiner (cleaned cleanwsp str len) p s t f reads reads',
      )

  -- White space alone is skipped, whatever the name. A text for a name without a buffer that may
  -- not be made ends the program.
  pub nb_add_str_refuses :
      (nb : NamedBuffer x) (name str : Bytes) (len : ℕ) (joiner : Bytes)
      (cleanwsp autovivify : Bool)
      → (all_ws str ≡ true → nb_add_str x nb name str len joiner cleanwsp autovivify ≡ ok (nb, str))
        × (all_ws str ≡ false
            → nb_get_value x nb name ≡ none
            → nb_add_str x nb name str len joiner cleanwsp false ≡ croak not_a_named_buffer)
  unfolding nb_add_str nb_get_value
  nb_add_str_refuses nb name str len joiner cleanwsp autovivify =
      (λ white. ground arith, λ ink absent. ground (arith, Option-cases (x.lookup ℕ nb.hash name)))
