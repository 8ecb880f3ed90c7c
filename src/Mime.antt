-- ===== src/Mime.antt =====
-- src/libswish3/mime_types.c: the table of MIME types and the hash that is made of it.
pub mod TableA
pub mod TableB
pub mod Defaults
use TableA.{table_a}
use TableB.{table_b}
use libswish.Hash.{hash_add}
use libswish.LibXml.{LibXml}
use libswish.Prelude.{ℕ, zero, suc, List, [], ◌∷◌, ◌++◌, Bytes, take, Run, ok, ◌>>=◌}

-- The pairs of `SWISH_MIME_TABLE`.
abbrev pub mime_table : List (Bytes × Bytes)
mime_table = table_a ++ table_b

-- The loop goes by two up to the index 304, `SWISH_MIME_TABLE_COUNT`.
abbrev pub mime_pairs : ℕ
mime_pairs = 153

module _ (x : LibXml) where
  unfoldable pub add_types : List (Bytes × Bytes) → x.Table Bytes → Run (x.Table Bytes)
  unfolding hash_add
  add_types [] mimes = ok mimes
  add_types (e ∷ es) mimes = hash_add x mimes e.0 e.1 >>= add_types es

  unfoldable pub mime_defaults : Run (x.Table Bytes)
  unfolding add_types
  mime_defaults = add_types (take mime_pairs mime_table) (x.create Bytes)
