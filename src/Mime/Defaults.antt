-- ===== src/Mime/Defaults.antt =====
-- What `swish_mime_defaults` puts in the table.
use libswish.Hash.Merge.{Puts, hash_add-Puts, first_of_two}
use libswish.LibXml.{find, Distinct, LibXml, IsLibXml}
use libswish.Mime.{mime_table, mime_pairs, add_types, mime_defaults}
use libswish.Prelude.{
  Bool, true, false, ◌≡◌, refl, ◌∙◌, ap, List, [], ◌∷◌, ◌++◌, Option, none, some, Bytes, text, take,
  All, ◌>>=◌, if◌then◌else◌, Returns, eq_bytes, eq_bytes_iff, arith, Bool-cases, inl, inr,
}

abbrev pub has_key : Bytes → List (Bytes × Bytes) → Bool
has_key k [] = false
has_key k (e ∷ es) = if eq_bytes k e.0 then true else has_key k es

abbrev pub distinct : List (Bytes × Bytes) → Bool
distinct [] = true
distinct (e ∷ es) = if has_key e.0 es then false else distinct es

has_key-find : (k : Bytes) (es : List (Bytes × Bytes)) → has_key k es ≡ false → find k es ≡ none
unfolding find
has_key-find k [] h = refl
has_key-find k (e ∷ es) h = ground (arith, h, has_key-find k es)

distinct-Distinct : (es : List (Bytes × Bytes)) → distinct es ≡ true → Distinct es
distinct-Distinct [] h = tt
distinct-Distinct (e ∷ es) h = elim (Bool-cases (has_key e.0 es)) [
  | inl has ↦ absurd (ground (arith, h, has))
  | inr lacks ↦ (has_key-find e.0 es lacks, distinct-Distinct es (ground (arith, h, lacks)))
]

eq_bytes-swap : (a b : Bytes) → eq_bytes a b ≡ false → eq_bytes b a ≡ false
eq_bytes-swap a b h = ground (arith, h, eq_bytes_iff a b, eq_bytes_iff b a)

-- Without its last entry, entries are found as before, apart from those under its key.
find-last :
    (es : List (Bytes × Bytes)) (k v j : Bytes)
    → has_key k es ≡ false
    → find j es ≡ (if eq_bytes j k then none else find j (es ++ (k, v) ∷ []))
unfolding find
find-last [] k v j h = ground arith
find-last (e ∷ es) k v j h = elim (Bool-cases (eq_bytes k e.0)) [
  | inl same ↦ absurd (ground (arith, h, same))
  | inr other ↦ elim (Bool-cases (eq_bytes j e.0)) [
    | inl found ↦
        let differs : eq_bytes j k ≡ false =
          ap (λ i. eq_bytes i k) ((eq_bytes_iff j e.0).0 found) ∙ eq_bytes-swap k e.0 other in
        rw found (rw differs refl)
    | inr elsewhere ↦ rw elsewhere (find-last es k v j (ground (arith, h, other)))
  ]
]

zip_is_last : take mime_pairs mime_table ++ (text "zip", text "application/zip") ∷ [] ≡ mime_table
zip_is_last = refl

zip_is_new : has_key (text "zip") (take mime_pairs mime_table) ≡ false
unfolding eq_bytes
zip_is_new = refl

pairs_are :
    (j : Bytes)
    → find j (take mime_pairs mime_table)
      ≡ (if eq_bytes j (text "zip") then none else find j mime_table)
pairs_are j =
    find-last (take mime_pairs mime_table) (text "zip") (text "application/zip") j zip_is_new
    ∙ ap (λ es. if eq_bytes j (text "zip") then none else find j es) zip_is_last

pairs_distinct : distinct (take mime_pairs mime_table) ≡ true
unfolding eq_bytes
pairs_distinct = refl

module _ (x : LibXml) (laws : IsLibXml x) where
  -- No key of the entries is in the table.
  abbrev Fresh : x.Table Bytes → List (Bytes × Bytes) → Type 0
  Fresh t = All (λ e. x.lookup Bytes t e.0 ≡ none)

  Fresh-Puts :
      (t t' : x.Table Bytes) (k v : Bytes) (es : List (Bytes × Bytes))
      → Puts x laws t k (some v) t'
      → find k es ≡ none
      → Fresh t es
      → Fresh t' es
  unfolding find
  Fresh-Puts t t' k v [] reads absent fresh = tt
  Fresh-Puts t t' k v (e ∷ es) reads absent fresh = elim (Bool-cases (eq_bytes k e.0)) [
    | inl same ↦ absurd (ground (arith, absent, same))
    | inr other ↦ (
      ground (arith, reads e.0, other, fresh.0, eq_bytes_iff e.0 k, eq_bytes_iff k e.0),
      Fresh-Puts t t' k v es reads (ground (arith, absent, other)) fresh.1,
    )
  ]

  add_types-reads :
      (es : List (Bytes × Bytes)) (t : x.Table Bytes)
      → Distinct es
      → Fresh t es
      → Returns (add_types x es t) (λ t'.
        (j : Bytes) → x.lookup Bytes t' j ≡ first_of_two x laws (find j es) (x.lookup Bytes t j))
  unfolding add_types find
  add_types-reads [] t d fresh = (t, refl, λ j. refl)
  add_types-reads (e ∷ es) t d fresh =
      let (t', added, reads) = hash_add-Puts x laws t e.0 e.1 fresh.0 in
      let (t'', done, reads') =
        add_types-reads es t' d.1 (Fresh-Puts t t' e.0 e.1 es reads d.0 fresh.1) in
      (
        t'',
        ap (λ r. r >>= add_types x es) added ∙ done,
        λ j. ground (arith, reads' j, reads j, eq_bytes_iff j e.0, d.0),
      )

  Fresh-create : (es : List (Bytes × Bytes)) → Fresh (x.create Bytes) es
  Fresh-create [] = tt
  Fresh-create (e ∷ es) = (laws.lookup-create Bytes e.0, Fresh-create es)

  -- Entries with distinct keys are what a table has that was empty.
  pub add_types-create :
      (es : List (Bytes × Bytes))
      → distinct es ≡ true
      → Returns
          (add_types x es (x.create Bytes))
          (λ t. (j : Bytes) → x.lookup Bytes t j ≡ find j es)
  add_types-create es h =
      let (t, done, reads) =
        add_types-reads es (x.create Bytes) (distinct-Distinct es h) (Fresh-create es) in
      (t, done, λ j. reads j ∙ no_more (find j es) (laws.lookup-create Bytes j))
    where
      no_more : (o : Option Bytes) {p : Option Bytes} → p ≡ none → first_of_two x laws o p ≡ o
      no_more none e = e
      no_more (some v) e = refl

  -- Filling the table of MIME types never ends the program, and the table then has exactly what
  -- the source lists, but nothing under "zip", which the source lists as "application/zip".
  pub mime_defaults-reads : Returns (mime_defaults x) (λ t.
      ((j : Bytes)
        → x.lookup Bytes t j ≡ (if eq_bytes j (text "zip") then none else find j mime_table))
      × (find (text "zip") mime_table ≡ some (text "application/zip")))
  unfolding mime_defaults find eq_bytes
  mime_defaults-reads =
      let (t, done, reads) = add_types-create (take mime_pairs mime_table) pairs_distinct in
      (t, done, (λ j. reads j ∙ pairs_are j, refl))
