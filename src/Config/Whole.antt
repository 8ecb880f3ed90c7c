-- ===== src/Config/Whole.antt =====
-- src/libswish3/config.c: the configuration with its flags, and the merge of two; property.c and
-- metaname.c: new properties and metanames.
use libswish.Config.{
  Property, MetaName, property_init, metaname_init, merge_properties, merge_metanames,
  merge_stringlists,
}
use libswish.StringList.{StringList}
use libswish.Hash.{hash_add, hash_fetch, hash_merge}
use libswish.LibXml.{LibXml}
use libswish.Numbers.{ℤ, int_to_string}
use libswish.Prelude.{
  zero, suc, ◌+◌, Bool, true, false, [], ◌∷◌, Option, none, some, Bytes, text, eq_bytes, Run, ok,
  croak, ◌>>=◌, if◌then◌else◌, ltb, unknown_value, hash_add_failed,
}
use libswish.Str.{string_to_boolean}

pub data UndefMetas : Type 0 where
  metas_error metas_ignore metas_index metas_auto metas_autoall : UndefMetas

pub data UndefAttrs : Type 0 where
  attrs_error attrs_ignore attrs_index attrs_auto attrs_autoall attrs_disable : UndefAttrs

-- `n + 1` and `m < n`
unfoldable pub next_int : ℤ → ℤ
next_int (ℤ.pos n) = ℤ.pos (n + 1)
next_int (ℤ.negsuc zero) = ℤ.pos 0
next_int (ℤ.negsuc (suc n)) = ℤ.negsuc n

unfoldable pub lt_int : ℤ → ℤ → Bool
lt_int (ℤ.pos m) (ℤ.pos n) = ltb m n
lt_int (ℤ.pos m) (ℤ.negsuc n) = false
lt_int (ℤ.negsuc m) (ℤ.pos n) = true
lt_int (ℤ.negsuc m) (ℤ.negsuc n) = ltb n m

unfoldable pub undef_metas_of : Bytes → Run UndefMetas
undef_metas_of v =
    if eq_bytes v (text "error")
    then ok UndefMetas.metas_error
    else if eq_bytes v (text "ignore")
    then ok UndefMetas.metas_ignore
    else if eq_bytes v (text "index")
    then ok UndefMetas.metas_index
    else if eq_bytes v (text "auto")
    then ok UndefMetas.metas_auto
    else if eq_bytes v (text "autoall")
    then ok UndefMetas.metas_autoall
    else croak unknown_value

unfoldable pub undef_attrs_of : Bytes → Run UndefAttrs
undef_attrs_of v =
    if eq_bytes v (text "error")
    then ok UndefAttrs.attrs_error
    else if eq_bytes v (text "ignore")
    then ok UndefAttrs.attrs_ignore
    else if eq_bytes v (text "index")
    then ok UndefAttrs.attrs_index
    else if eq_bytes v (text "auto")
    then ok UndefAttrs.attrs_auto
    else if eq_bytes v (text "autoall")
    then ok UndefAttrs.attrs_autoall
    else if eq_bytes v (text "disable")
    then ok UndefAttrs.attrs_disable
    else croak unknown_value

module _ (x : LibXml) where
  -- The tables of numbers keep pointers to the entries, here their names.
  pub record ConfigFlags : Type 0 where
    pub tokenize : Bool
    pub cascade_meta_context : Bool
    pub ignore_xmlns : Bool
    pub follow_xinclude : Bool
    pub undef_metas : UndefMetas
    pub undef_attrs : UndefAttrs
    pub max_meta_id : ℤ
    pub max_prop_id : ℤ
    pub meta_ids : x.Table Bytes
    pub prop_ids : x.Table Bytes

  unfoldable pub init_flags : ConfigFlags
  init_flags = record {
    tokenize = true;
    cascade_meta_context = false;
    ignore_xmlns = true;
    follow_xinclude = true;
    undef_metas = UndefMetas.metas_index;
    undef_attrs = UndefAttrs.attrs_disable;
    max_meta_id = ℤ.negsuc 0;
    max_prop_id = ℤ.negsuc 0;
    meta_ids = x.create Bytes;
    prop_ids = x.create Bytes;
  }

  -- A new configuration has no table of MIME types.
  pub record Config : Type 0 where
    pub misc : x.Table Bytes
    pub properties : x.Table Property
    pub metanames : x.Table MetaName
    pub tag_aliases : x.Table Bytes
    pub parsers : x.Table Bytes
    pub mimes : Option (x.Table Bytes)
    pub index : x.Table Bytes
    pub stringlists : x.Table StringList
    pub flags : ConfigFlags

  unfoldable pub property_new : Bytes → Config → Run Config
  unfolding hash_add next_int property_init
  property_new name config = do
    let id = next_int config.flags.max_prop_id
    let p = record (property_init name) { id = id }
    prop_ids' ← hash_add x config.flags.prop_ids (int_to_string id) name
    properties' ← hash_add x config.properties name p
    ok (record config {
      properties = properties';
      flags = record config.flags { max_prop_id = id; prop_ids = prop_ids' };
    })

  unfoldable pub metaname_new : Bytes → Config → Run Config
  unfolding hash_add next_int metaname_init
  metaname_new name config = do
    let id = next_int config.flags.max_meta_id
    let m = record (metaname_init name) { id = id }
    meta_ids' ← hash_add x config.flags.meta_ids (int_to_string id) name
    metanames' ← hash_add x config.metanames name m
    ok (record config {
      metanames = metanames';
      flags = record config.flags { max_meta_id = id; meta_ids = meta_ids' };
    })

  -- A flag of the second configuration, from its setting if there is one.
  unfoldable pub flag_of : x.Table Bytes → Bytes → Bool → Bool
  unfolding hash_fetch
  flag_of misc key flag = elim (hash_fetch x misc key) [
    | none ↦ flag
    | some v ↦ string_to_boolean (some v)
  ]

  unfoldable pub setting_of : {A : Type 0} → x.Table Bytes → Bytes → (Bytes → Run A) → A → Run A
  unfolding hash_fetch
  setting_of misc key parse old = elim (hash_fetch x misc key) [ none ↦ ok old | some v ↦ parse v ]

  -- The flags of the second configuration once its settings are read.
  unfoldable pub read_flags : x.Table Bytes → ConfigFlags → Run ConfigFlags
  unfolding flag_of setting_of undef_metas_of undef_attrs_of
  read_flags misc f = do
    metas ← setting_of misc (text "UndefinedMetaTags") undef_metas_of f.undef_metas
    attrs ← setting_of misc (text "UndefinedXMLAttributes") undef_attrs_of f.undef_attrs
    ok (record f {
      tokenize = flag_of misc (text "Tokenize") f.tokenize;
      cascade_meta_context = flag_of misc (text "CascadeMetaContext") f.cascade_meta_context;
      ignore_xmlns = flag_of misc (text "IgnoreXMLNameSpaces") f.ignore_xmlns;
      follow_xinclude = flag_of misc (text "FollowXInclude") f.follow_xinclude;
      undef_metas = metas;
      undef_attrs = attrs;
    })

  -- Every flag is taken from the second configuration, the numbers only where they are larger.
  unfoldable pub merge_flags : ConfigFlags → ConfigFlags → ConfigFlags
  unfolding lt_int
  merge_flags flags1 flags2 = record flags1 {
    tokenize = flags2.tokenize;
    cascade_meta_context = flags2.cascade_meta_context;
    ignore_xmlns = flags2.ignore_xmlns;
    follow_xinclude = flags2.follow_xinclude;
    undef_metas = flags2.undef_metas;
    undef_attrs = flags2.undef_attrs;
    max_meta_id =
        (if lt_int flags1.max_meta_id flags2.max_meta_id
          then flags2.max_meta_id
          else flags1.max_meta_id);
    max_prop_id =
        (if lt_int flags1.max_prop_id flags2.max_prop_id
          then flags2.max_prop_id
          else flags1.max_prop_id);
  }

  -- `swish_hash_merge` where a table may be NULL: nothing can be added to NULL.
  unfoldable pub merge_mimes :
      Option (x.Table Bytes) → Option (x.Table Bytes) → Run (Option (x.Table Bytes))
  unfolding hash_merge
  merge_mimes mimes1 none = ok mimes1
  merge_mimes none (some mimes2) = elim (x.scan Bytes mimes2) [
    | [] ↦ ok none
    | e ∷ es ↦ croak hash_add_failed
  ]
  merge_mimes (some mimes1) (some mimes2) = hash_merge x mimes1 mimes2 >>= λ mimes. ok (some mimes)

  -- The first configuration after the merge.
  unfoldable pub config_merge : Config → Config → Run Config
  unfolding merge_properties merge_metanames merge_stringlists merge_mimes hash_merge read_flags
      merge_flags
  config_merge config1 config2 = do
    properties' ← merge_properties x config1.properties config2.properties
    metanames' ← merge_metanames x config1.metanames config2.metanames
    parsers' ← hash_merge x config1.parsers config2.parsers
    mimes' ← merge_mimes config1.mimes config2.mimes
    index' ← hash_merge x config1.index config2.index
    tag_aliases' ← hash_merge x config1.tag_aliases config2.tag_aliases
    misc' ← hash_merge x config1.misc config2.misc
    stringlists' ← merge_stringlists x config1.stringlists config2.stringlists
    flags2' ← read_flags config2.misc config2.flags
    ok (record {
      misc = misc';
      properties = properties';
      metanames = metanames';
      tag_aliases = tag_aliases';
      parsers = parsers';
      mimes = mimes';
      index = index';
      stringlists = stringlists';
      flags = merge_flags config1.flags flags2';
    })
