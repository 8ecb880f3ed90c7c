-- ===== src/Config/Both.antt =====
-- `swish_config_merge` as a whole.
use libswish.Config.Fold.{merged}
use libswish.Config.Entries.{merged_property, merged_metaname, merged_strlist}
use libswish.Config.Merging.{
  UnfreedProperties, UnfreedMetaNames, merge_properties-reads, merge_metanames-reads,
  merge_stringlists-reads,
}
use libswish.Config.Whole.{
  Config, ConfigFlags, lt_int, read_flags, merge_flags, merge_mimes, config_merge,
}
use libswish.Config.{Property, MetaName, merge_properties, merge_metanames, merge_stringlists}
use libswish.StringList.{StringList}
use libswish.Hash.{hash_merge}
use libswish.Hash.Merge.{first_of_two, hash_merge-reads}
use libswish.LibXml.{LibXml, IsLibXml}
use libswish.Numbers.{ℤ}
use libswish.Prelude.{
  ◌≡◌, refl, true, false, Bytes, ok, if◌then◌else◌, Returns, arith, Option, none, some, ◌⊎◌, ap,
  ◌>>=◌, Bool-cases, inl, inr,
}

lt_int_irrefl : (m : ℤ) → lt_int m m ≡ false
unfolding lt_int
lt_int_irrefl (ℤ.pos m) = ground arith
lt_int_irrefl (ℤ.negsuc m) = ground arith

lt_int_asym : (m n : ℤ) → lt_int m n ≡ true → lt_int n m ≡ false
unfolding lt_int
lt_int_asym (ℤ.pos m) (ℤ.pos n) h = ground arith
lt_int_asym (ℤ.pos m) (ℤ.negsuc n) h = absurd cc
lt_int_asym (ℤ.negsuc m) (ℤ.pos n) h = refl
lt_int_asym (ℤ.negsuc m) (ℤ.negsuc n) h = ground arith

larger :
    (m n : ℤ) → let r = if lt_int m n then n else m in (lt_int r m ≡ false) × (lt_int r n ≡ false)
larger m n = elim (Bool-cases (lt_int m n)) [
  | inl less ↦ rw less (lt_int_asym m n less, lt_int_irrefl n)
  | inr more ↦ rw more (lt_int_irrefl m, more)
]

module _ (x : LibXml) (laws : IsLibXml x) where
  -- A table of strings that reads as the second one wherever that has an entry.
  abbrev pub Overrides : x.Table Bytes → x.Table Bytes → x.Table Bytes → Type 0
  Overrides t1 t2 r =
      (j : Bytes)
      → x.lookup Bytes r j ≡ first_of_two x laws (x.lookup Bytes t2 j) (x.lookup Bytes t1 j)

  -- In a table that is NULL nothing is found.
  abbrev pub lookup_in : Option (x.Table Bytes) → Bytes → Option Bytes
  lookup_in none j = none
  lookup_in (some t) j = x.lookup Bytes t j

  pub record Merges (config1 config2 : Config x) (flags2 : ConfigFlags x) (r : Config x)
      : Type 0 where
    pub properties_read :
        (j : Bytes)
        → x.lookup Property r.properties j
          ≡ merged merged_property
              (x.lookup Property config2.properties j)
              j
              (x.lookup Property config1.properties j)
    pub metanames_read :
        (j : Bytes)
        → x.lookup MetaName r.metanames j
          ≡ merged merged_metaname
              (x.lookup MetaName config2.metanames j)
              j
              (x.lookup MetaName config1.metanames j)
    pub parsers_read : Overrides config1.parsers config2.parsers r.parsers
    pub mimes_read :
        (j : Bytes)
        → lookup_in r.mimes j
          ≡ first_of_two x laws (lookup_in config2.mimes j) (lookup_in config1.mimes j)
    pub index_read : Overrides config1.index config2.index r.index
    pub tag_aliases_read : Overrides config1.tag_aliases config2.tag_aliases r.tag_aliases
    pub misc_read : Overrides config1.misc config2.misc r.misc
    pub stringlists_read :
        (j : Bytes)
        → x.lookup StringList r.stringlists j
          ≡ merged merged_strlist
              (x.lookup StringList config2.stringlists j)
              j
              (x.lookup StringList config1.stringlists j)
    pub metas_are : r.flags.undef_metas ≡ flags2.undef_metas
    pub attrs_are : r.flags.undef_attrs ≡ flags2.undef_attrs
    pub tokenize_is : r.flags.tokenize ≡ flags2.tokenize
    pub cascade_is : r.flags.cascade_meta_context ≡ flags2.cascade_meta_context
    pub xmlns_is : r.flags.ignore_xmlns ≡ flags2.ignore_xmlns
    pub xinclude_is : r.flags.follow_xinclude ≡ flags2.follow_xinclude
    pub prop_ids_grow :
        (lt_int r.flags.max_prop_id config1.flags.max_prop_id ≡ false)
        × (lt_int r.flags.max_prop_id flags2.max_prop_id ≡ false)
    pub meta_ids_grow :
        (lt_int r.flags.max_meta_id config1.flags.max_meta_id ≡ false)
        × (lt_int r.flags.max_meta_id flags2.max_meta_id ≡ false)

  config_merge_steps :
      (c1 c2 : Config x) (f : ConfigFlags x) {ps : x.Table Property} {ms : x.Table MetaName}
      {pa ix ta mc : x.Table Bytes} {mi : Option (x.Table Bytes)} {sl : x.Table StringList}
      → merge_properties x c1.properties c2.properties ≡ ok ps
      → merge_metanames x c1.metanames c2.metanames ≡ ok ms
      → hash_merge x c1.parsers c2.parsers ≡ ok pa
      → merge_mimes x c1.mimes c2.mimes ≡ ok mi
      → hash_merge x c1.index c2.index ≡ ok ix
      → hash_merge x c1.tag_aliases c2.tag_aliases ≡ ok ta
      → hash_merge x c1.misc c2.misc ≡ ok mc
      → merge_stringlists x c1.stringlists c2.stringlists ≡ ok sl
      → read_flags x c2.misc c2.flags ≡ ok f
      → config_merge x c1 c2
        ≡ ok (record {
          misc = mc;
          properties = ps;
          metanames = ms;
          tag_aliases = ta;
          parsers = pa;
          mimes = mi;
          index = ix;
          stringlists = sl;
          flags = merge_flags x c1.flags f;
        })
  unfolding config_merge
  config_merge_steps c1 c2 f e₁ e₂ e₃ e₄ e₅ e₆ e₇ e₈ e₉ =
      ground (arith, e₁, e₂, e₃, e₄, e₅, e₆, e₇, e₈, e₉)

  neither : (t2 : x.Table Bytes) → ¬ ((some t2 ≡ none) ⊎ ((t : x.Table Bytes) × (none ≡ some t)))
  neither t2 (inl e) = absurd cc
  neither t2 (inr (t, e)) = absurd cc

  merge_mimes-reads :
      (mimes1 mimes2 : Option (x.Table Bytes))
      → (mimes2 ≡ none) ⊎ ((t : x.Table Bytes) × (mimes1 ≡ some t))
      → Returns (merge_mimes x mimes1 mimes2) (λ r.
        (j : Bytes) → lookup_in r j ≡ first_of_two x laws (lookup_in mimes2 j) (lookup_in mimes1 j))
  unfolding merge_mimes
  merge_mimes-reads mimes1 none h = (mimes1, refl, λ j. refl)
  merge_mimes-reads none (some t2) h = absurd (neither t2 h)
  merge_mimes-reads (some t1) (some t2) h =
      let (t, e, reads) = hash_merge-reads x laws t1 t2 in
      (some t, ap (λ m. m >>= λ mimes. ok (some mimes)) e, reads)

  -- Where the first configuration has a table of MIME types or the second has none, where no alias
  -- of either points to a string that an earlier merge has freed, and where the settings of the
  -- second can be read, a merge does not end the program. Properties and metanames of the second are
  -- laid over those of the first, the entries of its tables replace the first's, its string lists
  -- follow the first's, its flags, as its settings make them, become the first's, and the largest
  -- numbers of the first only grow and are then at least those of the second.
  pub config_merge-Merges :
      (config1 config2 : Config x) (flags2 : ConfigFlags x)
      → UnfreedProperties x laws config1.properties
      → UnfreedProperties x laws config2.properties
      → UnfreedMetaNames x laws config1.metanames
      → UnfreedMetaNames x laws config2.metanames
      → (config2.mimes ≡ none) ⊎ ((t : x.Table Bytes) × (config1.mimes ≡ some t))
      → read_flags x config2.misc config2.flags ≡ ok flags2
      → Returns (config_merge x config1 config2) (Merges config1 config2 flags2)
  unfolding merge_flags
  config_merge-Merges c1 c2 f p₁ p₂ m₁ m₂ has h =
      let (ps, e₁, r₁) = merge_properties-reads x laws c1.properties c2.properties p₁ p₂ in
      let (ms, e₂, r₂) = merge_metanames-reads x laws c1.metanames c2.metanames m₁ m₂ in
      let (pa, e₃, r₃) = hash_merge-reads x laws c1.parsers c2.parsers in
      let (mi, e₄, r₄) = merge_mimes-reads c1.mimes c2.mimes has in
      let (ix, e₅, r₅) = hash_merge-reads x laws c1.index c2.index in
      let (ta, e₆, r₆) = hash_merge-reads x laws c1.tag_aliases c2.tag_aliases in
      let (mc, e₇, r₇) = hash_merge-reads x laws c1.misc c2.misc in
      let (sl, e₈, r₈) = merge_stringlists-reads x laws c1.stringlists c2.stringlists in
      (
        _,
        config_merge_steps c1 c2 f e₁ e₂ e₃ e₄ e₅ e₆ e₇ e₈ h,
        record {
          properties_read = r₁;
          metanames_read = r₂;
          parsers_read = r₃;
          mimes_read = r₄;
          index_read = r₅;
          tag_aliases_read = r₆;
          misc_read = r₇;
          stringlists_read = r₈;
          metas_are = refl;
          attrs_are = refl;
          tokenize_is = refl;
          cascade_is = refl;
          xmlns_is = refl;
          xinclude_is = refl;
          prop_ids_grow = larger c1.flags.max_prop_id f.max_prop_id;
          meta_ids_grow = larger c1.flags.max_meta_id f.max_meta_id;
        },
      )
