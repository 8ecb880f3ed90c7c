-- ===== src/Hash.antt =====
-- src/libswish3/hash.c: the hash tables of libxml2 behind functions that croak.
pub mod Merge
use libswish.LibXml.{LibXml}
use libswish.Prelude.{
  ℕ, Bool, true, false, List, [], ◌∷◌, Option, none, some, Bytes, Run, ok, croak, ◌>>=◌,
  if◌then◌else◌, hash_add_failed, hash_replace_failed, hash_delete_failed,
}

module _ (x : LibXml) {V : Type 0} where
  open x use {Table}

  unfoldable pub hash_add : Table V → Bytes → V → Run (Table V)
  hash_add t k v = elim (x.add_entry V t k v) [ none ↦ croak hash_add_failed | some t' ↦ ok t' ]

  unfoldable pub hash_replace : Table V → Bytes → V → Run (Table V)
  hash_replace t k v = elim (x.update_entry V t k v) [
    | none ↦ croak hash_replace_failed
    | some t' ↦ ok t'
  ]

  unfoldable pub hash_delete : Table V → Bytes → Run (Table V)
  hash_delete t k = elim (x.remove_entry V t k) [
    | none ↦ croak hash_delete_failed
    | some t' ↦ ok t'
  ]

  unfoldable pub hash_fetch : Table V → Bytes → Option V
  hash_fetch t k = x.lookup V t k

  unfoldable pub hash_exists : Table V → Bytes → Bool
  hash_exists t k = elim (x.lookup V t k) [ none ↦ false | some v ↦ true ]

  unfoldable pub hash_exists_or_add : Table V → Bytes → V → Run (Table V)
  unfolding hash_exists hash_add
  hash_exists_or_add t k v = if hash_exists t k then ok t else hash_add t k v

  -- `merge_hashes`, which `xmlHashScan` calls for an entry of the second table.
  unfoldable pub merge_hashes : Bytes → V → Table V → Run (Table V)
  unfolding hash_exists hash_replace hash_add
  merge_hashes k v t = if hash_exists t k then hash_replace t k v else hash_add t k v

  unfoldable pub merge_entries : List (Bytes × V) → Table V → Run (Table V)
  unfolding merge_hashes
  merge_entries [] t = ok t
  merge_entries (e ∷ es) t = merge_hashes e.0 e.1 t >>= merge_entries es

  unfoldable pub hash_merge : Table V → Table V → Run (Table V)
  unfolding merge_entries
  hash_merge t1 t2 = merge_entries (x.scan V t2) t1
