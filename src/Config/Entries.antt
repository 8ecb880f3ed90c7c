-- ===== src/Config/Entries.antt =====
-- What a merge makes of an entry of each table: `copy_property`, `copy_metaname` and `copy_strlist` of
-- src/libswish3/config.c.
use libswish.Config.{
  Pointer, Property, MetaName, property_init, metaname_init, copy_alias, overwrite_property,
  overwrite_metaname,
}
use libswish.Prelude.{◌+◌, true, ◌≡◌, ◌≢◌, ◌++◌, refl, Option, none, some, Bytes, ok, length}
use libswish.StringList.{StringList}

-- The alias after a merge: the second's if it has one, and what the merge has freed if only the
-- first has one.
abbrev pub merged_alias : Pointer → Pointer → Pointer
merged_alias first (Pointer.to name) = Pointer.to name
merged_alias (Pointer.null) _ = Pointer.null
merged_alias _ _ = Pointer.freed

-- The property under `k` once `prop2` is merged into it.
abbrev pub merged_property : Property → Bytes → Option Property → Property
merged_property prop2 k none = record {
  id = prop2.id;
  name = k;
  ignore_case = prop2.ignore_case;
  type = prop2.type;
  verbatim = prop2.verbatim;
  alias_for = prop2.alias_for;
  max = prop2.max;
  sort = prop2.sort;
  presort = true;
  sort_length = 0;
}
merged_property prop2 k (some prop1) = record {
  id = prop2.id;
  name = prop2.name;
  ignore_case = prop2.ignore_case;
  type = prop2.type;
  verbatim = prop2.verbatim;
  alias_for = merged_alias prop1.alias_for prop2.alias_for;
  max = prop2.max;
  sort = prop2.sort;
  presort = prop1.presort;
  sort_length = prop1.sort_length;
}

abbrev pub merged_metaname : MetaName → Bytes → Option MetaName → MetaName
merged_metaname meta2 k none = record {
  id = meta2.id;
  name = k;
  bias = meta2.bias;
  alias_for = meta2.alias_for;
}
merged_metaname meta2 k (some meta1) = record {
  id = meta2.id;
  name = meta2.name;
  bias = meta2.bias;
  alias_for = merged_alias meta1.alias_for meta2.alias_for;
}

-- The strings of the second behind those of the first, in a block for just as many.
abbrev pub merged_strlist : StringList → Bytes → Option StringList → StringList
merged_strlist sl2 k none = record { max = 2; slots = length sl2.word; word = sl2.word }
merged_strlist sl2 k (some sl1) = record {
  max = sl1.max;
  slots = length sl2.word + length sl1.word;
  word = sl1.word ++ sl2.word;
}

abbrev pub FitProperty : Property → Option Property → Type 0
FitProperty v old =
    (v.alias_for ≢ Pointer.freed) × ((w : Property) → old ≡ some w → w.alias_for ≢ Pointer.freed)

abbrev pub FitMetaName : MetaName → Option MetaName → Type 0
FitMetaName v old =
    (v.alias_for ≢ Pointer.freed) × ((w : MetaName) → old ≡ some w → w.alias_for ≢ Pointer.freed)

abbrev pub FitStrlist : StringList → Option StringList → Type 0
FitStrlist v old = Unit {0}

copy_alias_lem :
    (p q : Pointer) → p ≢ Pointer.freed → q ≢ Pointer.freed → copy_alias p q ≡ ok (merged_alias p q)
unfolding copy_alias
copy_alias_lem Pointer.freed q h k = absurd (h refl)
copy_alias_lem Pointer.null Pointer.freed h k = absurd (k refl)
copy_alias_lem (Pointer.to a) Pointer.freed h k = absurd (k refl)
copy_alias_lem Pointer.null Pointer.null h k = refl
copy_alias_lem Pointer.null (Pointer.to b) h k = refl
copy_alias_lem (Pointer.to a) Pointer.null h k = refl
copy_alias_lem (Pointer.to a) (Pointer.to b) h k = refl

pub overwrite_property_lem :
    (prop2 prop1 : Property)
    → prop2.alias_for ≢ Pointer.freed
    → prop1.alias_for ≢ Pointer.freed
    → overwrite_property prop2 prop1
      ≡ ok (record (merged_property prop2 prop1.name (some prop1)) { name = prop1.name })
unfolding overwrite_property
overwrite_property_lem prop2 prop1 h k =
    rw (copy_alias_lem prop1.alias_for prop2.alias_for k h) refl

pub overwrite_metaname_lem :
    (meta2 meta1 : MetaName)
    → meta2.alias_for ≢ Pointer.freed
    → meta1.alias_for ≢ Pointer.freed
    → overwrite_metaname meta2 meta1
      ≡ ok (record (merged_metaname meta2 meta1.name (some meta1)) { name = meta1.name })
unfolding overwrite_metaname
overwrite_metaname_lem meta2 meta1 h k =
    rw (copy_alias_lem meta1.alias_for meta2.alias_for k h) refl

null_alias : (p : Pointer) → p ≢ Pointer.freed → merged_alias Pointer.null p ≡ p
null_alias Pointer.null h = refl
null_alias Pointer.freed h = absurd (h refl)
null_alias (Pointer.to a) h = refl

pub new_property :
    (prop2 : Property) (k : Bytes)
    → prop2.alias_for ≢ Pointer.freed
    → overwrite_property prop2 (property_init k) ≡ ok (merged_property prop2 k none)
unfolding overwrite_property property_init
new_property prop2 k h =
    rw (copy_alias_lem Pointer.null prop2.alias_for (λ e. absurd cc) h)
      (rw (null_alias prop2.alias_for h) refl)

pub new_metaname :
    (meta2 : MetaName) (k : Bytes)
    → meta2.alias_for ≢ Pointer.freed
    → overwrite_metaname meta2 (metaname_init k) ≡ ok (merged_metaname meta2 k none)
unfolding overwrite_metaname metaname_init
new_metaname meta2 k h =
    rw (copy_alias_lem Pointer.null meta2.alias_for (λ e. absurd cc) h)
      (rw (null_alias meta2.alias_for h) refl)
