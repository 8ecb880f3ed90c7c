-- ===== src/LibXml/Assoc.antt =====
-- Association lists meet the laws: a table is a list of entries with distinct keys.
use libswish.Prelude.{
  ◌≡◌, refl, List, [], ◌∷◌, ◌++◌, none, some, if◌then◌else◌, Bytes, eq_bytes, eq_bytes_iff,
  eq_bytes_refl, arith, ◌∙◌,
}
use libswish.LibXml.{find, Distinct, LibXml, IsLibXml}

abbrev pub Entries : Type 0 → Type 0
Entries V = (es : List (Bytes × V)) × Distinct es

module _ {V : Type 0} where
  unfoldable pub replace : Bytes → V → List (Bytes × V) → List (Bytes × V)
  replace k v [] = (k, v) ∷ []
  replace k v ((j, w) ∷ es) = if eq_bytes k j then (j, v) ∷ es else (j, w) ∷ replace k v es

  unfoldable pub erase : Bytes → List (Bytes × V) → List (Bytes × V)
  erase k [] = []
  erase k ((j, w) ∷ es) = if eq_bytes k j then es else (j, w) ∷ erase k es

  find-replace :
      (k j : Bytes) (v : V) (es : List (Bytes × V))
      → find j (replace k v es) ≡ (if eq_bytes j k then some v else find j es)
  unfolding find replace
  find-replace k j v [] = refl
  find-replace k j v ((i, w) ∷ es) =
      ground (arith, find-replace k j v es, eq_bytes_iff k i, eq_bytes_iff j i, eq_bytes_iff j k)

  pub replace-Distinct :
      (k : Bytes) (v : V) (es : List (Bytes × V)) → Distinct es → Distinct (replace k v es)
  unfolding replace find
  replace-Distinct k v [] d = (refl, tt)
  replace-Distinct k v ((i, w) ∷ es) d =
      ground
        (arith, replace-Distinct k v es, find-replace k i v es, eq_bytes_iff k i, eq_bytes_iff i k)

  find-erase :
      (k j : Bytes) (es : List (Bytes × V))
      → Distinct es
      → find j (erase k es) ≡ (if eq_bytes j k then none else find j es)
  unfolding find erase
  find-erase k j [] d = ground arith
  find-erase k j ((i, w) ∷ es) d =
      ground (arith, find-erase k j es, eq_bytes_iff k i, eq_bytes_iff j i, eq_bytes_iff j k)

  pub erase-Distinct : (k : Bytes) (es : List (Bytes × V)) → Distinct es → Distinct (erase k es)
  unfolding erase find
  erase-Distinct k [] d = tt
  erase-Distinct k ((i, w) ∷ es) d =
      ground (arith, erase-Distinct k es, find-erase k i es, eq_bytes_iff k i, eq_bytes_iff i k)

-- In the tests a table's proofs are carried along, and an operation matches the lookup it rests on.
unfoldable pub assoc : LibXml
unfolding find replace erase
assoc = record {
  Table = Entries;
  create = λ V. ([], tt);
  lookup = λ V t k. find k t.0;
  add_entry = λ V t k v. elim (find k t.0) [
    | some w ↦ none
    | none ↦ some (replace k v t.0, replace-Distinct k v t.0 t.1)
  ];
  update_entry = λ V t k v. some (replace k v t.0, replace-Distinct k v t.0 t.1);
  remove_entry = λ V t k. elim (find k t.0) [
    | some w ↦ some (erase k t.0, erase-Distinct k t.0 t.1)
    | none ↦ none
  ];
  scan = λ V t. t.0;
  buffer_add = λ b s. some (b ++ s);
}

pub assoc-IsLibXml : IsLibXml assoc
unfolding assoc
assoc-IsLibXml = record {
  lookup-create = λ V k. refl;
  add_present = λ V t k v w e. ground arith;
  add_absent = λ V t k v e.
      ((replace k v t.0, replace-Distinct k v t.0 t.1), ground arith, λ j. find-replace k j v t.0);
  update = λ V t k v.
      ((replace k v t.0, replace-Distinct k v t.0 t.1), refl, λ j. find-replace k j v t.0);
  remove_absent = λ V t k e. ground arith;
  remove_present = λ V t k w e.
      ((erase k t.0, erase-Distinct k t.0 t.1), ground arith, λ j. find-erase k j t.0 t.1);
  scan_find = λ V t k. refl;
  scan-Distinct = λ V t. t.1;
  buffer_adds = λ b s. refl;
}

-- A table with an entry more.
abbrev pub put : {V : Type 0} → assoc.Table V → Bytes → V → assoc.Table V
put {V} t k v = (assoc-IsLibXml.update V t k v).0

pub lookup-put :
    {V : Type 0} (t : assoc.Table V) (k : Bytes) (v : V) → assoc.lookup V (put t k v) k ≡ some v
lookup-put {V} t k v = (assoc-IsLibXml.update V t k v).2 k ∙ rw (eq_bytes_refl k) refl
