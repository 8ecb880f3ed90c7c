-- ===== src/NamedBuffer/Values.antt =====
-- The map from names to texts that a set of buffers stands for, and the invariant behind it.

use libswish.LibXml.{LibXml, IsLibXml}
use libswish.NamedBuffer.{NamedBuffer, write, add_name_to_hash, nb_get_value, find_buffer}
use libswish.Prelude.{
  ℕ, ◌+◌, ◌<◌, Bool, true, ◌≡◌, ◌≢◌, ◌⊎◌, [], none, some, Bytes, if◌then◌else◌, Returns, eq_bytes,
  eq_bytes_iff, arith, Option-cases, inl, inr,
}

module _ (x : LibXml) where
  -- Each name has a buffer of its own, below `next`.
  pub record IsValid (nb : NamedBuffer x) : Type 0 where
    pub below : (k : Bytes) (p : ℕ) → x.lookup ℕ nb.hash k ≡ some p → p < nb.next
    pub apart :
        (j k : Bytes) (p : ℕ)
        → x.lookup ℕ nb.hash j ≡ some p
        → x.lookup ℕ nb.hash k ≡ some p
        → j ≡ k

module _ (x : LibXml) (laws : IsLibXml x) where
  -- A name that is there stays as it is, a new one gets an empty text.
  pub record Adds (nb : NamedBuffer x) (name : Bytes) (nb' : NamedBuffer x) : Type 0 where
    pub valid : IsValid x nb'
    pub values :
        (j : Bytes)
        → nb_get_value x nb' j ≡ (
            if eq_bytes j name
            then some (elim (nb_get_value x nb name) [ none ↦ [] | some b ↦ b ])
            else nb_get_value x nb j)

  add_absent-IsValid :
      (nb : NamedBuffer x) (name : Bytes) (h : x.Table ℕ)
      → IsValid x nb
      → ((j : Bytes)
          → x.lookup ℕ h j ≡ (if eq_bytes j name then some nb.next else x.lookup ℕ nb.hash j))
      → IsValid x (record { hash = h; store = write nb.store nb.next []; next = nb.next + 1 })
  add_absent-IsValid nb name h v reads = record {
    below = λ k p e. ground (arith, reads k, v.below k p);
    apart = λ j k p e f. ground (
      arith,
      reads j,
      reads k,
      v.below j p,
      v.below k p,
      v.apart j k p,
      eq_bytes_iff j name,
      eq_bytes_iff k name,
    );
  }

  pub add_name_to_hash-Adds :
      (nb : NamedBuffer x) (name : Bytes)
      → IsValid x nb
      → Returns (add_name_to_hash x name nb) (Adds nb name)
  unfolding add_name_to_hash nb_get_value
  add_name_to_hash-Adds nb name v = elim (Option-cases (x.lookup ℕ nb.hash name)) [
    | inr (p, present) ↦
        (nb, ground arith, record { valid = v; values = λ j. ground (arith, eq_bytes_iff j name) })
    | inl absent ↦
        let (h, added, reads) = laws.add_absent ℕ nb.hash name nb.next absent in
        (
          record { hash = h; store = write nb.store nb.next []; next = nb.next + 1 },
          ground (arith, added),
          record {
            valid = add_absent-IsValid nb name h v reads;
            values = λ j. elim (Option-cases (x.lookup ℕ nb.hash j)) [
              | inl e ↦ ground (arith, reads j)
              | inr (p, e) ↦ ground (arith, reads j, v.below j p)
            ];
          },
        )
  ]

  -- What `find_buffer` gives: the buffer of the name, in a set where that name has one.
  pub record Finds (nb : NamedBuffer x) (name : Bytes) (r : NamedBuffer x × ℕ) : Type 0 where
    pub added : Adds nb name r.0
    pub found : x.lookup ℕ r.0.hash name ≡ some r.1

  pub find_buffer-Finds :
      (nb : NamedBuffer x) (name : Bytes) (autovivify : Bool)
      → IsValid x nb
      → (nb_get_value x nb name ≢ none) ⊎ (autovivify ≡ true)
      → Returns (find_buffer x nb name autovivify) (Finds nb name)
  unfolding find_buffer nb_get_value
  find_buffer-Finds nb name autovivify v c = elim (Option-cases (x.lookup ℕ nb.hash name)) [
    | inr (p, present) ↦ (
      (nb, p),
      ground arith,
      record {
        added = record { valid = v; values = λ j. ground (arith, eq_bytes_iff j name) };
        found = present;
      },
    )
    | inl absent ↦
        let (nb', made, adds) = add_name_to_hash-Adds nb name v in
        elim (Option-cases (x.lookup ℕ nb'.hash name)) [
          | inr (p, present) ↦
              ((nb', p), ground (arith, made), record { added = adds; found = present })
          | inl none' ↦ absurd (ground (arith, adds.values name, eq_bytes_iff name name))
        ]
  ]
