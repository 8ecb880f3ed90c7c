-- ===== src/Tests/Tables.antt =====
-- Tables, named buffers and configurations: src/libswish3/hash.c, namedbuffer.c and config.c.
use libswish.Config.{
  Pointer, Property, MetaName, property_init, get_builtin_id, get_id, copy_property,
}
use libswish.Config.Both.{Merges, config_merge-Merges}
use libswish.Config.Ids.{IsNumbered, property_new-IsNumbered}
use libswish.Config.Merging.{copy_property-double_free}
use libswish.StringList.{StringList}
use libswish.Config.Whole.{Config, ConfigFlags, init_flags, read_flags, property_new, config_merge}
use libswish.Config.Defaults.{config_init, config_set_default, title, description}
use libswish.Config.Defaults.Clash.{property_new_clash}
use libswish.Config.Defaults.Numbered.{IsDefault, config_set_default-IsDefault}
use libswish.LibXml.{find}
use libswish.Mime.{mime_defaults, mime_table}
use libswish.Mime.Defaults.{mime_defaults-reads}
use libswish.Hash.{hash_merge}
use libswish.Hash.Merge.{Puts, first_of_two, hash_merge-reads}
use libswish.LibXml.Assoc.{assoc, assoc-IsLibXml, put}
use libswish.NamedBuffer.{NamedBuffer, nb_init, nb_get_value, buffer_concat}
use libswish.NamedBuffer.Concat.{bumped, buffer_concat-bumped}
use libswish.NamedBuffer.Init.{nb_init-reads}
use libswish.NamedBuffer.Values.{IsValid}
use libswish.Numbers.{ℤ}
use libswish.Prelude.{
  croak, double_free, if◌then◌else◌, ◌>>=◌, ◌≡◌, ◌≢◌, refl, inr, false, [], ◌∷◌, Option, none, some,
  Bytes, text, eq_bytes, ok, Returns, arith,
}

abbrev key : Bytes
key = text "key"

abbrev one_entry : assoc.Table Bytes
one_entry = put (assoc.create Bytes) key (text "old")

hash_merge-reads_example : Returns (hash_merge assoc (assoc.create Bytes) one_entry) (λ t'.
    (j : Bytes)
    → assoc.lookup Bytes t' j
      ≡ first_of_two assoc assoc-IsLibXml
          (assoc.lookup Bytes one_entry j)
          (assoc.lookup Bytes (assoc.create Bytes) j))
hash_merge-reads_example = hash_merge-reads assoc assoc-IsLibXml (assoc.create Bytes) one_entry

nb_init-reads_example : Returns (nb_init assoc one_entry) (λ r.
    IsValid assoc r
    × ((j : Bytes)
        → nb_get_value assoc r j
          ≡ elim (assoc.lookup Bytes one_entry j) [ none ↦ none | some a ↦ some [] ]))
nb_init-reads_example = nb_init-reads assoc assoc-IsLibXml one_entry

abbrev buffers : NamedBuffer assoc
buffers = nb_init-reads_example.0

abbrev piece : Bytes
piece = text " a piece "

buffer_concat-bumped_example :
    nb_get_value assoc (buffer_concat assoc buffers buffers) key
    ≡ elim (nb_get_value assoc buffers key) [
      | none ↦ none
      | some b ↦ some (bumped b (nb_get_value assoc buffers key))
    ]
buffer_concat-bumped_example =
    buffer_concat-bumped assoc assoc-IsLibXml buffers buffers key nb_init-reads_example.2.0

abbrev alias : Property
alias = record (property_init key) { alias_for = Pointer.to (text "title") }

abbrev with_alias : assoc.Table Property
unfolding assoc find
with_alias = ((key, alias) ∷ [], (refl, tt))

copy_property-double_free_example :
    Returns
      (copy_property assoc (property_init key) with_alias key)
      (λ props. copy_property assoc (property_init key) props key ≡ croak double_free)
unfolding assoc find eq_bytes property_init
copy_property-double_free_example =
    copy_property-double_free assoc assoc-IsLibXml alias (property_init key) (property_init key)
      with_alias key (text "title") refl refl refl

-- A configuration with no property but a built-in number in use.
abbrev flags : ConfigFlags assoc
flags = record (init_flags assoc) { max_prop_id = ℤ.pos 10 }

abbrev config : Config assoc
config = record {
  misc = assoc.create Bytes;
  properties = assoc.create Property;
  metanames = assoc.create MetaName;
  tag_aliases = assoc.create Bytes;
  parsers = assoc.create Bytes;
  mimes = some (assoc.create Bytes);
  index = assoc.create Bytes;
  stringlists = assoc.create StringList;
  flags = flags;
}

none-some : {A : Type 0} {o : Option A} {a : A} → o ≡ none → o ≢ some a
none-some n e = absurd cc

config-IsNumbered : IsNumbered assoc config 10
unfolding init_flags
config-IsNumbered = record {
  max_is = refl;
  used = λ k name e. absurd (none-some (assoc-IsLibXml.lookup-create Bytes k) e);
  agrees = λ name p e. absurd (none-some (assoc-IsLibXml.lookup-create Property name) e);
}

key_is_plain : get_builtin_id key ≡ ℤ.negsuc 1
unfolding get_builtin_id eq_bytes
key_is_plain = refl

property_new-IsNumbered_example : Returns (property_new assoc key config) (λ r.
    IsNumbered assoc r 11
    × (get_id assoc key r.properties ≡ ok (ℤ.pos 11))
    × Puts assoc assoc-IsLibXml config.properties key
        (some (record (property_init key) { id = ℤ.pos 11 }))
        r.properties)
property_new-IsNumbered_example =
    property_new-IsNumbered assoc assoc-IsLibXml key config 10 config-IsNumbered (omega arith)
      (assoc-IsLibXml.lookup-create Property key) key_is_plain

no_settings : read_flags assoc (assoc.create Bytes) flags ≡ ok flags
unfolding read_flags
no_settings = ground (
  arith,
  assoc-IsLibXml.lookup-create Bytes (text "UndefinedMetaTags"),
  assoc-IsLibXml.lookup-create Bytes (text "UndefinedXMLAttributes"),
  assoc-IsLibXml.lookup-create Bytes (text "Tokenize"),
  assoc-IsLibXml.lookup-create Bytes (text "CascadeMetaContext"),
  assoc-IsLibXml.lookup-create Bytes (text "IgnoreXMLNameSpaces"),
  assoc-IsLibXml.lookup-create Bytes (text "FollowXInclude"),
)

-- The configuration with a property that is an alias, which a merge replaces by another one.
abbrev aliased : Config assoc
aliased = record config { properties = with_alias }

alias_is_unfreed :
    (k : Bytes) (p : Property)
    → assoc.lookup Property with_alias k ≡ some p
    → p.alias_for ≢ Pointer.freed
unfolding assoc find
alias_is_unfreed k p e f = ground (arith, e, f)

config_merge-Merges_example :
    Returns (config_merge assoc aliased aliased) (Merges assoc assoc-IsLibXml aliased aliased flags)
config_merge-Merges_example =
    config_merge-Merges assoc assoc-IsLibXml aliased aliased flags alias_is_unfreed alias_is_unfreed
      (λ k m e. absurd (none-some (assoc-IsLibXml.lookup-create MetaName k) e))
      (λ k m e. absurd (none-some (assoc-IsLibXml.lookup-create MetaName k) e))
      (inr (assoc.create Bytes, refl)) no_settings

mime_defaults-reads_example : Returns (mime_defaults assoc) (λ t.
    ((j : Bytes)
      → assoc.lookup Bytes t j ≡ (if eq_bytes j (text "zip") then none else find j mime_table))
    × (find (text "zip") mime_table ≡ some (text "application/zip")))
mime_defaults-reads_example = mime_defaults-reads assoc assoc-IsLibXml

config_set_default-IsDefault_example :
    Returns
      (config_set_default assoc (text "C") (config_init assoc))
      (IsDefault assoc assoc-IsLibXml (text "C"))
config_set_default-IsDefault_example = config_set_default-IsDefault assoc assoc-IsLibXml (text "C")

key_is_new : (eq_bytes key title ≡ false) × (eq_bytes key description ≡ false)
unfolding eq_bytes
key_is_new = (refl, refl)

property_new_clash_example :
    Returns
      (config_set_default assoc (text "C") (config_init assoc) >>= property_new assoc key)
      (λ r. get_id assoc key r.properties ≡ get_id assoc (text "swishwordnum") r.properties)
property_new_clash_example =
    property_new_clash assoc assoc-IsLibXml (text "C") key key_is_new.0 key_is_new.1 key_is_plain
