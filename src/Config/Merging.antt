-- ===== src/Config/Merging.antt =====
-- What a merge of two configurations leaves in the tables of properties, metanames and string
-- lists.
use libswish.Config.Fold.{Steps, Loops, merged, loop-reads, found_all}
use libswish.Config.{
  Pointer, Property, MetaName, copy_alias, overwrite_property, copy_property, copy_properties,
  merge_properties, copy_metaname, copy_metanames, merge_metanames, copy_strlist, copy_strlists,
  merge_stringlists,
}
use libswish.LibXml.{LibXml, IsLibXml}
use libswish.Prelude.{
  ◌≡◌, ◌≢◌, refl, sym, ◌∙◌, none, some, List, [], ◌∷◌, Bytes, croak, Returns, All, arith, inl, inr,
  Option-cases, double_free, eq_bytes_iff,
}
use libswish.StringList.{StringList}
use libswish.StringList as Strings
use libswish.Config.Entries.{
  merged_property, merged_metaname, merged_strlist, FitProperty, FitMetaName, FitStrlist,
  overwrite_property_lem, overwrite_metaname_lem, new_property, new_metaname,
}

module _ (x : LibXml) (laws : IsLibXml x) where
  copy_property-Steps : Steps x (copy_property x) merged_property FitProperty
  unfolding copy_property
  copy_property-Steps v t k fit = elim (Option-cases (x.lookup Property t k)) [
    | inl absent ↦
        let (t', put, reads) = laws.add_absent Property t k (merged_property v k none) absent in
        (t', ground (arith, absent, put, new_property v k fit.0), λ j. rw absent (reads j))
    | inr (w, present) ↦
        let (t', put, reads) = laws.update Property t k (merged_property v k (some w)) in
        (
          t',
          ground (
            arith,
            present,
            put,
            overwrite_property_lem v (record w { name = v.name }) fit.0 (fit.1 w present),
          ),
          λ j. rw present (reads j),
        )
  ]

  copy_properties-Loops : Loops x (copy_property x) (copy_properties x)
  unfolding copy_properties
  copy_properties-Loops = (λ t. refl, λ e es t. refl)

  copy_metaname-Steps : Steps x (copy_metaname x) merged_metaname FitMetaName
  unfolding copy_metaname
  copy_metaname-Steps v t k fit = elim (Option-cases (x.lookup MetaName t k)) [
    | inl absent ↦
        let (t', put, reads) = laws.add_absent MetaName t k (merged_metaname v k none) absent in
        (t', ground (arith, absent, put, new_metaname v k fit.0), λ j. rw absent (reads j))
    | inr (w, present) ↦
        let (t', put, reads) = laws.update MetaName t k (merged_metaname v k (some w)) in
        (
          t',
          ground (
            arith,
            present,
            put,
            overwrite_metaname_lem v (record w { name = v.name }) fit.0 (fit.1 w present),
          ),
          λ j. rw present (reads j),
        )
  ]

  copy_metanames-Loops : Loops x (copy_metaname x) (copy_metanames x)
  unfolding copy_metanames
  copy_metanames-Loops = (λ t. refl, λ e es t. refl)

  copy_strlist-Steps : Steps x (copy_strlist x) merged_strlist FitStrlist
  unfolding copy_strlist Strings.merge Strings.copy Strings.init
  copy_strlist-Steps v t k fit = elim (Option-cases (x.lookup StringList t k)) [
    | inl absent ↦
        let (t', put, reads) = laws.add_absent StringList t k (merged_strlist v k none) absent in
        (t', ground (arith, absent, put), λ j. rw absent (reads j))
    | inr (w, present) ↦
        let (t', put, reads) = laws.update StringList t k (merged_strlist v k (some w)) in
        (t', ground (arith, present, put), λ j. rw present (reads j))
  ]

  copy_strlists-Loops : Loops x (copy_strlist x) (copy_strlists x)
  unfolding copy_strlists
  copy_strlists-Loops = (λ t. refl, λ e es t. refl)

  -- No alias in the table is a string that a merge has freed.
  abbrev pub UnfreedProperties : x.Table Property → Type 0
  UnfreedProperties t =
      (k : Bytes) (p : Property) → x.lookup Property t k ≡ some p → p.alias_for ≢ Pointer.freed

  abbrev pub UnfreedMetaNames : x.Table MetaName → Type 0
  UnfreedMetaNames t =
      (k : Bytes) (m : MetaName) → x.lookup MetaName t k ≡ some m → m.alias_for ≢ Pointer.freed

  all_properties :
      (es : List (Bytes × Property)) (t : x.Table Property)
      → UnfreedProperties t
      → All (λ e. (e.1).alias_for ≢ Pointer.freed) es
      → All (λ e. FitProperty e.1 (x.lookup Property t e.0)) es
  all_properties [] t u all = tt
  all_properties (e ∷ es) t u all = ((all.0, λ w found. u e.0 w found), all_properties es t u all.1)

  -- Where no alias was freed before, merging does not end the program and lays each property of the
  -- second table over the first's of that name, or over a new one.
  pub merge_properties-reads :
      (props1 props2 : x.Table Property)
      → UnfreedProperties props1
      → UnfreedProperties props2
      → Returns (merge_properties x props1 props2) (λ r.
        (j : Bytes)
        → x.lookup Property r j
          ≡ merged merged_property (x.lookup Property props2 j) j (x.lookup Property props1 j))
  unfolding merge_properties
  merge_properties-reads props1 props2 u₁ u₂ =
      let es = x.scan Property props2 in
      let unfreed =
        found_all (λ v. v.alias_for ≢ Pointer.freed) es (laws.scan-Distinct Property props2)
          λ k v found. u₂ k v (sym (laws.scan_find Property props2 k) ∙ found) in
      let (t', done, reads) =
        loop-reads x (copy_property x) (copy_properties x) merged_property FitProperty
          copy_property-Steps copy_properties-Loops es props1 (laws.scan-Distinct Property props2)
          (all_properties es props1 u₁ unfreed) in
      (t', done, λ j. rw (← laws.scan_find Property props2 j) (reads j))

  all_metanames :
      (es : List (Bytes × MetaName)) (t : x.Table MetaName)
      → UnfreedMetaNames t
      → All (λ e. (e.1).alias_for ≢ Pointer.freed) es
      → All (λ e. FitMetaName e.1 (x.lookup MetaName t e.0)) es
  all_metanames [] t u all = tt
  all_metanames (e ∷ es) t u all = ((all.0, λ w found. u e.0 w found), all_metanames es t u all.1)

  -- Where no alias was freed before, merging does not end the program and lays each metaname of the
  -- second table over the first's of that name, or over a new one.
  pub merge_metanames-reads :
      (metas1 metas2 : x.Table MetaName)
      → UnfreedMetaNames metas1
      → UnfreedMetaNames metas2
      → Returns (merge_metanames x metas1 metas2) (λ r.
        (j : Bytes)
        → x.lookup MetaName r j
          ≡ merged merged_metaname (x.lookup MetaName metas2 j) j (x.lookup MetaName metas1 j))
  unfolding merge_metanames
  merge_metanames-reads metas1 metas2 u₁ u₂ =
      let es = x.scan MetaName metas2 in
      let unfreed =
        found_all (λ v. v.alias_for ≢ Pointer.freed) es (laws.scan-Distinct MetaName metas2)
          λ k v found. u₂ k v (sym (laws.scan_find MetaName metas2 k) ∙ found) in
      let (t', done, reads) =
        loop-reads x (copy_metaname x) (copy_metanames x) merged_metaname FitMetaName
          copy_metaname-Steps copy_metanames-Loops es metas1 (laws.scan-Distinct MetaName metas2)
          (all_metanames es metas1 u₁ unfreed) in
      (t', done, λ j. rw (← laws.scan_find MetaName metas2 j) (reads j))

  all_strlists :
      (es : List (Bytes × StringList)) (t : x.Table StringList)
      → All (λ e. FitStrlist e.1 (x.lookup StringList t e.0)) es
  all_strlists [] t = tt
  all_strlists (e ∷ es) t = (tt, all_strlists es t)

  -- Merging string lists never ends the program, and puts the strings of the second table's lists
  -- behind those of the first's.
  pub merge_stringlists-reads :
      (lists1 lists2 : x.Table StringList)
      → Returns (merge_stringlists x lists1 lists2) (λ r.
        (j : Bytes)
        → x.lookup StringList r j
          ≡ merged merged_strlist (x.lookup StringList lists2 j) j (x.lookup StringList lists1 j))
  unfolding merge_stringlists
  merge_stringlists-reads lists1 lists2 =
      let es = x.scan StringList lists2 in
      let (t', done, reads) =
        loop-reads x (copy_strlist x) (copy_strlists x) merged_strlist FitStrlist copy_strlist-Steps
          copy_strlists-Loops es lists1 (laws.scan-Distinct StringList lists2)
          (all_strlists es lists1) in
      (t', done, λ j. rw (← laws.scan_find StringList lists2 j) (reads j))

  copy_property-freed :
      (prop3 : Property) (t : x.Table Property) (k : Bytes) (w : Property)
      → x.lookup Property t k ≡ some w
      → w.alias_for ≡ Pointer.freed
      → copy_property x prop3 t k ≡ croak double_free
  unfolding copy_property overwrite_property copy_alias
  copy_property-freed prop3 t k w present freed = ground (arith, present, freed)

  -- A property that is an alias in the first table and none in the second stays in the first with
  -- a pointer to the string that the merge has freed: the next merge that has a property of this
  -- name frees the string once more.
  pub copy_property-double_free :
      (prop1 prop2 prop3 : Property) (props1 : x.Table Property) (k target : Bytes)
      → x.lookup Property props1 k ≡ some prop1
      → prop1.alias_for ≡ Pointer.to target
      → prop2.alias_for ≡ Pointer.null
      → Returns
          (copy_property x prop2 props1 k)
          (λ props. copy_property x prop3 props k ≡ croak double_free)
  copy_property-double_free prop1 prop2 prop3 props1 k target present a n =
      let (t', put, reads) =
        copy_property-Steps prop2 props1 k
          (λ e. absurd cc, λ w found e. absurd (ground (arith, present, found, a, e))) in
      (
        t',
        put,
        copy_property-freed prop3 t' k (merged_property prop2 k (some prop1))
            (reads k ∙ rw ((eq_bytes_iff k k).1 refl) (rw present refl)) (rw a (rw n refl)),
      )
