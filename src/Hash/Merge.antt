-- ===== src/Hash/Merge.antt =====
-- What the hash functions do to the map that a table stands for.
use libswish.Hash.{
  hash_add, hash_delete, hash_exists, hash_exists_or_add, merge_hashes, merge_entries, hash_merge,
}
use libswish.LibXml.{find, Distinct, LibXml, IsLibXml}
use libswish.Prelude.{
  ◌≡◌, refl, ◌∙◌, List, [], ◌∷◌, Option, none, some, Bytes, croak, if◌then◌else◌, Returns, eq_bytes,
  eq_bytes_iff, hash_add_failed, hash_delete_failed, arith, Option-cases, inl, inr, sym, Bool-cases,
  ◌⊎◌, ◌≢◌, eq_bytes_refl,
}

module _ (x : LibXml) (laws : IsLibXml x) {V : Type 0} where
  open x use {Table}

  -- `t'` is `t` with `v` under `k`.
  abbrev pub Puts : Table V → Bytes → Option V → Table V → Type 0
  Puts t k v t' = (j : Bytes) → x.lookup V t' j ≡ (if eq_bytes j k then v else x.lookup V t j)

  pub Puts-same : (t t' : Table V) (k : Bytes) (v : Option V) → Puts t k v t' → x.lookup V t' k ≡ v
  Puts-same t t' k v reads = ground (arith, reads k, eq_bytes_refl k)

  pub Puts-other :
      (t t' : Table V) (k j : Bytes) (v : Option V)
      → Puts t k v t'
      → j ≢ k
      → x.lookup V t' j ≡ x.lookup V t j
  Puts-other t t' k j v reads h = elim (Bool-cases (eq_bytes j k)) [
    | inl same ↦ absurd (h ((eq_bytes_iff j k).0 same))
    | inr other ↦ reads j ∙ rw other refl
  ]

  -- An entry that is there after a put is the one that was put or was there before.
  pub Puts-cases :
      (t t' : Table V) (k j : Bytes) (v w : V)
      → Puts t k (some v) t'
      → x.lookup V t' j ≡ some w
      → ((j ≡ k) × (some w ≡ some v)) ⊎ (x.lookup V t j ≡ some w)
  Puts-cases t t' k j v w reads e = elim (Bool-cases (eq_bytes j k)) [
    | inl same ↦ inl ((eq_bytes_iff j k).0 same, sym e ∙ reads j ∙ rw same refl)
    | inr other ↦ inr (sym (reads j ∙ rw other refl) ∙ e)
  ]

  pub hash_add-Puts :
      (t : Table V) (k : Bytes) (v : V)
      → x.lookup V t k ≡ none
      → Returns (hash_add x t k v) (Puts t k (some v))
  unfolding hash_add
  hash_add-Puts t k v e =
      let (t', added, reads) = laws.add_absent V t k v e in (t', rw (added, hash_add), reads)

  -- A key is added once: the second time the program ends.
  pub hash_add_twice :
      (t : Table V) (k : Bytes) (v w : V)
      → x.lookup V t k ≡ some w
      → hash_add x t k v ≡ croak hash_add_failed
  unfolding hash_add
  hash_add_twice t k v w e = rw (laws.add_present V t k v w e, hash_add)

  pub merge_hashes-Puts :
      (t : Table V) (k : Bytes) (v : V) → Returns (merge_hashes x k v t) (Puts t k (some v))
  unfolding merge_hashes
  merge_hashes-Puts t k v = elim (Option-cases (x.lookup V t k)) [
    | inl absent ↦
        let (t', added, reads) = laws.add_absent V t k v absent in
        (t', ground (arith, added), reads)
    | inr (w, present) ↦
        let (t', put, reads) = laws.update V t k v in (t', ground (arith, put), reads)
  ]

  abbrev pub first_of_two : Option V → Option V → Option V
  first_of_two (some v) w = some v
  first_of_two none w = w

  merge_entries-reads :
      (es : List (Bytes × V)) (t : Table V)
      → Distinct es
      → Returns
          (merge_entries x es t)
          (λ t'. (j : Bytes) → x.lookup V t' j ≡ first_of_two (find j es) (x.lookup V t j))
  unfolding merge_entries find
  merge_entries-reads [] t d = (t, refl, λ j. refl)
  merge_entries-reads (e ∷ es) t d =
      let (t', put, reads) = merge_hashes-Puts t e.0 e.1 in
      let (t'', merged, reads') = merge_entries-reads es t' d.1 in
      (t'', rw put merged, λ j. ground (arith, reads' j, reads j, eq_bytes_iff j e.0, d.0))

  -- A merge never croaks. It leaves a table that reads as the second one wherever that has an entry,
  -- and as the first one elsewhere.
  pub hash_merge-reads :
      (t1 t2 : Table V)
      → Returns
          (hash_merge x t1 t2)
          (λ t'. (j : Bytes) → x.lookup V t' j ≡ first_of_two (x.lookup V t2 j) (x.lookup V t1 j))
  unfolding hash_merge
  hash_merge-reads t1 t2 =
      let (t', merged, reads) = merge_entries-reads (x.scan V t2) t1 (laws.scan-Distinct V t2) in
      (t', merged, λ j. ground (arith, reads j, laws.scan_find V t2 j))

  -- The value that is there stays.
  pub hash_exists_or_add-reads :
      (t : Table V) (k : Bytes) (v : V)
      → Returns (hash_exists_or_add x t k v) (λ t'.
        (j : Bytes)
        → x.lookup V t' j ≡ (
            if eq_bytes j k
            then some (elim (x.lookup V t k) [ none ↦ v | some w ↦ w ])
            else x.lookup V t j))
  unfolding hash_exists_or_add hash_add hash_exists
  hash_exists_or_add-reads t k v = elim (Option-cases (x.lookup V t k)) [
    | inl absent ↦
        let (t', added, reads) = laws.add_absent V t k v absent in
        (t', ground (arith, added), λ j. ground (arith, reads j))
    | inr (w, present) ↦ (t, ground arith, λ j. ground (arith, eq_bytes_iff j k))
  ]

  -- A key that is there and is deleted is gone, and every other key stays as it was.
  pub hash_delete-Puts :
      (t : Table V) (k : Bytes) (w : V)
      → x.lookup V t k ≡ some w
      → Returns (hash_delete x t k) (Puts t k none)
  unfolding hash_delete
  hash_delete-Puts t k w e =
      let (t', removed, reads) = laws.remove_present V t k w e in
      (t', ground (arith, removed), reads)

  -- To delete a key that is not there ends the program.
  hash_delete_absent :
      (t : Table V) (k : Bytes)
      → x.lookup V t k ≡ none
      → hash_delete x t k ≡ croak hash_delete_failed
  unfolding hash_delete
  hash_delete_absent t k e = ground (arith, laws.remove_absent V t k e)
