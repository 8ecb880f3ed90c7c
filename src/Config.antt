-- ===== src/Config.antt =====
-- src/libswish3/config.c: merging configurations; property.c and metaname.c: the properties and
-- metanames of a configuration and their numbers.
pub mod Whole
pub mod Fold
pub mod Entries
pub mod Merging
pub mod Both
pub mod Ids
pub mod Defaults
use libswish.Hash.{hash_add, hash_exists, hash_fetch, hash_merge}
use libswish.LibXml.{LibXml}
use libswish.Prelude.{
  ℕ, zero, suc, ◌+◌, ◌/◌, ◌%◌, Bool, true, false, List, [], ◌∷◌, Option, none, some, Bytes, text,
  eq_bytes, Run, ok, croak, ◌>>=◌, if◌then◌else◌, ◌==◌, ltb, no_such_property, unknown_value,
  null_pointer, double_free, use_after_free,
}
use libswish.Numbers.{ℤ, int_to_string}
use libswish.Str.{string_to_boolean}
use libswish.StringList.{StringList}
use libswish.StringList as Strings

-- A pointer to a string that may have been freed.
pub data Pointer : Type 0 where
  null freed : Pointer
  to : Bytes → Pointer

pub record Property : Type 0 where
  pub id : ℤ
  pub name : Bytes
  pub ignore_case : Bool
  pub type : ℕ
  pub verbatim : Bool
  pub alias_for : Pointer
  pub max : ℕ
  pub sort : Bool
  pub presort : Bool
  pub sort_length : ℕ

-- `SWISH_PROP_STRING` is 1.
unfoldable pub property_init : Bytes → Property
property_init name = record {
  id = ℤ.negsuc 0;
  name = name;
  ignore_case = true;
  type = 1;
  verbatim = false;
  alias_for = Pointer.null;
  max = 0;
  sort = true;
  presort = true;
  sort_length = 0;
}

pub record MetaName : Type 0 where
  pub id : ℤ
  pub name : Bytes
  pub bias : ℤ
  pub alias_for : Pointer

unfoldable pub metaname_init : Bytes → MetaName
metaname_init name = record {
  id = ℤ.negsuc 0;
  name = name;
  bias = ℤ.pos 0;
  alias_for = Pointer.null;
}

-- The pointer of the first is freed if it is not null, and replaced only by one that is not null.
-- A pointer that an earlier merge left to a freed string is freed again.
unfoldable pub copy_alias : Pointer → Pointer → Run Pointer
copy_alias (Pointer.freed) _ = croak double_free
copy_alias _ (Pointer.freed) = croak use_after_free
copy_alias Pointer.null Pointer.null = ok Pointer.null
copy_alias (Pointer.to _) Pointer.null = ok Pointer.freed
copy_alias _ (Pointer.to a) = ok (Pointer.to a)

unfoldable pub overwrite_property : Property → Property → Run Property
unfolding copy_alias
overwrite_property prop2 prop1 = copy_alias prop1.alias_for prop2.alias_for >>= λ alias_for.
    ok (record prop1 {
      id = prop2.id;
      ignore_case = prop2.ignore_case;
      type = prop2.type;
      verbatim = prop2.verbatim;
      alias_for = alias_for;
      max = prop2.max;
      sort = prop2.sort;
    })

unfoldable pub overwrite_metaname : MetaName → MetaName → Run MetaName
unfolding copy_alias
overwrite_metaname meta2 meta1 = copy_alias meta1.alias_for meta2.alias_for >>= λ alias_for.
    ok (record meta1 { id = meta2.id; bias = meta2.bias; alias_for = alias_for })

-- The built-in numbers, -2 for any other name.
unfoldable pub get_builtin_id : Bytes → ℤ
get_builtin_id propname =
    if eq_bytes propname (text "swishrank")
    then ℤ.negsuc 0
    else if eq_bytes propname (text "swishdocpath")
    then ℤ.pos 1
    else if eq_bytes propname (text "swishlastmodified")
    then ℤ.pos 5
    else if eq_bytes propname (text "swishdocsize")
    then ℤ.pos 4
    else if eq_bytes propname (text "swishmime")
    then ℤ.pos 8
    else if eq_bytes propname (text "swishparser")
    then ℤ.pos 9
    else if eq_bytes propname (text "swishwordnum")
    then ℤ.pos 7
    else ℤ.negsuc 1

module _ (x : LibXml) where
  unfoldable pub get_id : Bytes → x.Table Property → Run ℤ
  unfolding get_builtin_id hash_exists hash_fetch
  get_id propname properties = elim (get_builtin_id propname) [
    | ℤ.negsuc (suc zero) ↦ elim (hash_fetch x properties propname) [
      | none ↦ croak no_such_property
      | some prop ↦ ok prop.id
    ]
    | n ↦ ok n
  ]

  -- `copy_property`: the property of `props1` is changed where it is, which the table sees as a new
  -- value, or a new one is added.
  unfoldable pub copy_property : Property → x.Table Property → Bytes → Run (x.Table Property)
  unfolding hash_fetch hash_add overwrite_property property_init
  copy_property prop2 props1 prop2name = elim (hash_fetch x props1 prop2name) [
    | some prop1 ↦ overwrite_property prop2 (record prop1 { name = prop2.name }) >>= λ prop.
        elim (x.update_entry Property props1 prop2name prop) [
          | none ↦ croak null_pointer
          | some t ↦ ok t
        ]
    | none ↦ overwrite_property prop2 (property_init prop2name) >>= hash_add x props1 prop2name
  ]

  unfoldable pub copy_properties :
      List (Bytes × Property) → x.Table Property → Run (x.Table Property)
  unfolding copy_property
  copy_properties [] t = ok t
  copy_properties (e ∷ es) t = copy_property e.1 t e.0 >>= copy_properties es

  unfoldable pub merge_properties : x.Table Property → x.Table Property → Run (x.Table Property)
  unfolding copy_properties
  merge_properties props1 props2 = copy_properties (x.scan Property props2) props1

  unfoldable pub copy_metaname : MetaName → x.Table MetaName → Bytes → Run (x.Table MetaName)
  unfolding hash_fetch hash_add overwrite_metaname metaname_init
  copy_metaname meta2 metas1 meta2name = elim (hash_fetch x metas1 meta2name) [
    | some meta1 ↦ overwrite_metaname meta2 (record meta1 { name = meta2.name }) >>= λ meta.
        elim (x.update_entry MetaName metas1 meta2name meta) [
          | none ↦ croak null_pointer
          | some t ↦ ok t
        ]
    | none ↦ overwrite_metaname meta2 (metaname_init meta2name) >>= hash_add x metas1 meta2name
  ]

  unfoldable pub copy_metanames :
      List (Bytes × MetaName) → x.Table MetaName → Run (x.Table MetaName)
  unfolding copy_metaname
  copy_metanames [] t = ok t
  copy_metanames (e ∷ es) t = copy_metaname e.1 t e.0 >>= copy_metanames es

  unfoldable pub merge_metanames : x.Table MetaName → x.Table MetaName → Run (x.Table MetaName)
  unfolding copy_metanames
  merge_metanames metas1 metas2 = copy_metanames (x.scan MetaName metas2) metas1

  -- The second's list is freed once its strings are copied behind the first's.
  unfoldable pub copy_strlist : StringList → x.Table StringList → Bytes → Run (x.Table StringList)
  unfolding hash_fetch hash_add Strings.merge Strings.copy
  copy_strlist strlist2 strlists1 key = elim (hash_fetch x strlists1 key) [
    | some strlist1 ↦
        elim (x.update_entry StringList strlists1 key (Strings.merge strlist2 strlist1)) [
          | none ↦ croak null_pointer
          | some t ↦ ok t
        ]
    | none ↦ hash_add x strlists1 key (Strings.copy strlist2)
  ]

  unfoldable pub copy_strlists :
      List (Bytes × StringList) → x.Table StringList → Run (x.Table StringList)
  unfolding copy_strlist
  copy_strlists [] t = ok t
  copy_strlists (e ∷ es) t = copy_strlist e.1 t e.0 >>= copy_strlists es

  unfoldable pub merge_stringlists :
      x.Table StringList → x.Table StringList → Run (x.Table StringList)
  unfolding copy_strlists
  merge_stringlists strlists1 strlists2 = copy_strlists (x.scan StringList strlists2) strlists1
