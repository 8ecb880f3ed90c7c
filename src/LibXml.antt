-- ===== src/LibXml.antt =====
-- What the program calls of libxml2's hash tables and buffers, which are not part of the
-- repository: operations as a parameter, and their documented behaviour as laws.
pub mod Assoc
use libswish.Prelude.{
  Bool, ◌≡◌, List, [], ◌∷◌, ◌++◌, Option, none, some, if◌then◌else◌, Bytes, eq_bytes, All, not,
  false,
}

-- The first entry under a key.
unfoldable pub find {ℓ} : {V : Type ℓ} → Bytes → List (Bytes × V) → Option V
find k [] = none
find k ((j, v) ∷ es) = if eq_bytes k j then some v else find k es

-- No two entries have the same key.
abbrev pub Distinct : {V : Type 0} → List (Bytes × V) → Type 0
Distinct [] = Unit
Distinct ((k, v) ∷ es) = (find k es ≡ none) × Distinct es

-- A function that returns -1 returns `none`. `scan` lists the entries in the order in which
-- `xmlHashScan` visits them. A buffer is its contents.
pub record LibXml : Type 1 where
  pub Table : Type 0 → Type 0
  pub create : (V : Type 0) → Table V
  pub lookup : (V : Type 0) → Table V → Bytes → Option V
  pub add_entry : (V : Type 0) → Table V → Bytes → V → Option (Table V)
  pub update_entry : (V : Type 0) → Table V → Bytes → V → Option (Table V)
  pub remove_entry : (V : Type 0) → Table V → Bytes → Option (Table V)
  pub scan : (V : Type 0) → Table V → List (Bytes × V)
  pub buffer_add : Bytes → Bytes → Option Bytes

-- The documented behaviour, as long as memory lasts. `add_entry` refuses a key that is there,
-- `update_entry` replaces or adds, `remove_entry` refuses a key that is not there, and a scan
-- visits each entry once.
pub record IsLibXml (x : LibXml) : Type 1 where
  pub lookup-create : (V : Type 0) (k : Bytes) → x.lookup V (x.create V) k ≡ none
  pub add_present :
      (V : Type 0) (t : x.Table V) (k : Bytes) (v w : V)
      → x.lookup V t k ≡ some w
      → x.add_entry V t k v ≡ none
  pub add_absent :
      (V : Type 0) (t : x.Table V) (k : Bytes) (v : V)
      → x.lookup V t k ≡ none
      → (t' : x.Table V) × (x.add_entry V t k v ≡ some t')
        × ((j : Bytes) → x.lookup V t' j ≡ (if eq_bytes j k then some v else x.lookup V t j))
  pub update :
      (V : Type 0) (t : x.Table V) (k : Bytes) (v : V)
      → (t' : x.Table V) × (x.update_entry V t k v ≡ some t')
        × ((j : Bytes) → x.lookup V t' j ≡ (if eq_bytes j k then some v else x.lookup V t j))
  pub remove_absent :
      (V : Type 0) (t : x.Table V) (k : Bytes) → x.lookup V t k ≡ none → x.remove_entry V t k ≡ none
  pub remove_present :
      (V : Type 0) (t : x.Table V) (k : Bytes) (w : V)
      → x.lookup V t k ≡ some w
      → (t' : x.Table V) × (x.remove_entry V t k ≡ some t')
        × ((j : Bytes) → x.lookup V t' j ≡ (if eq_bytes j k then none else x.lookup V t j))
  pub scan_find : (V : Type 0) (t : x.Table V) (k : Bytes) → find k (x.scan V t) ≡ x.lookup V t k
  pub scan-Distinct : (V : Type 0) (t : x.Table V) → Distinct (x.scan V t)
  pub buffer_adds : (b s : Bytes) → x.buffer_add b s ≡ some (b ++ s)
