-- ===== src/Config/Defaults.antt =====
-- src/libswish3/config.c: a new configuration, and its defaults.
pub mod Listed
pub mod Numbered
pub mod Clash
use libswish.StringList.{StringList}
use libswish.Config.{Property, MetaName, property_init, metaname_init}
use libswish.Config.Whole.{Config, ConfigFlags, init_flags, lt_int}
use libswish.Hash.{hash_add}
use libswish.LibXml.{LibXml}
use libswish.Mime.{add_types, mime_defaults}
use libswish.Numbers.{ℤ, int_to_string}
use libswish.Prelude.{
  ℕ, Bool, true, false, List, [], ◌∷◌, none, some, Bytes, text, Run, ok, ◌>>=◌, if◌then◌else◌,
}

abbrev pub default_metaname : Bytes
default_metaname = text "swishdefault"

abbrev pub title : Bytes
title = text "swishtitle"

abbrev pub description : Bytes
description = text "swishdescription"

abbrev pub default_parsers : List (Bytes × Bytes)
default_parsers =
    (text "text/plain", text "TXT")
    ∷ (text "application/xml", text "XML")
    ∷ (text "text/xml", text "XML")
    ∷ (text "text/html", text "HTML")
    ∷ (text "default", text "HTML")
    ∷ []

abbrev pub default_index : Bytes → List (Bytes × Bytes)
default_index locale =
    (text "Format", text "Native")
    ∷ (text "Name", text "index.swish")
    ∷ (text "Locale", locale)
    ∷ []

abbrev pub default_aliases : List (Bytes × Bytes)
default_aliases = (text "title", title) ∷ (text "body", description) ∷ []

abbrev pub description_property : Property
description_property = record (property_init description) { id = ℤ.pos 6; sort = false }

abbrev pub title_property : Property
title_property = record (property_init title) { id = ℤ.pos 3 }

module _ (x : LibXml) where
  unfoldable pub config_init : Config x
  unfolding init_flags
  config_init = record {
    misc = x.create Bytes;
    properties = x.create Property;
    metanames = x.create MetaName;
    tag_aliases = x.create Bytes;
    parsers = x.create Bytes;
    mimes = none;
    index = x.create Bytes;
    stringlists = x.create StringList;
    flags = init_flags x;
  }

  -- The metanames, with their numbers 0 and 1.
  unfoldable pub set_default_metanames : Config x → Run (Config x)
  unfolding hash_add metaname_init lt_int
  set_default_metanames config = do
    ids ← hash_add x config.flags.meta_ids (int_to_string (ℤ.pos 0)) default_metaname
    metas ←
        hash_add x config.metanames default_metaname
          (record (metaname_init default_metaname) { id = ℤ.pos 0 })
    ids' ← hash_add x ids (int_to_string (ℤ.pos 1)) title
    metas' ← hash_add x metas title (record (metaname_init title) { id = ℤ.pos 1 })
    ok (record config {
      metanames = metas';
      flags = record config.flags {
        meta_ids = ids';
        max_meta_id = (if lt_int (ℤ.pos 0) (ℤ.pos 1) then ℤ.pos 1 else ℤ.pos 0);
      };
    })

  -- The properties, with their numbers 6 and 3.
  unfoldable pub set_default_properties : Config x → Run (Config x)
  unfolding hash_add property_init lt_int
  set_default_properties config = do
    props ← hash_add x config.properties description description_property
    ids ← hash_add x config.flags.prop_ids (int_to_string (ℤ.pos 6)) description
    props' ← hash_add x props title title_property
    ids' ← hash_add x ids (int_to_string (ℤ.pos 3)) title
    ok (record config {
      properties = props';
      flags = record config.flags {
        prop_ids = ids';
        max_prop_id = (if lt_int (ℤ.pos 6) (ℤ.pos 3) then ℤ.pos 3 else ℤ.pos 6);
      };
    })

  -- `locale` is what `setlocale` reports.
  unfoldable pub config_set_default : Bytes → Config x → Run (Config x)
  unfolding mime_defaults set_default_metanames set_default_properties add_types
  config_set_default locale config = do
    mimes' ← mime_defaults x
    c₁ ← set_default_metanames (record config { mimes = some mimes' })
    c₂ ← set_default_properties c₁
    parsers' ← add_types x default_parsers c₂.parsers
    index' ← add_types x (default_index locale) c₂.index
    tag_aliases' ← add_types x default_aliases c₂.tag_aliases
    ok (record c₂ { parsers = parsers'; index = index'; tag_aliases = tag_aliases' })
