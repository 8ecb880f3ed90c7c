-- ===== src/Config/Defaults/Numbered.antt =====
-- The default configuration.
use libswish.Config.{property_init, Property, MetaName, metaname_init}
use libswish.Config.Defaults.{
  config_init, set_default_metanames, set_default_properties, config_set_default, default_metaname,
  title, description, default_parsers, default_index, default_aliases, description_property,
  title_property,
}
use libswish.Config.Defaults.Listed.{parser_for, alias_for, index_setting, property_with}
use libswish.Config.Ids.{IsNumbered}
use libswish.Config.Whole.{Config, init_flags}
use libswish.Hash.{hash_add}
use libswish.Hash.Merge.{hash_add-Puts}
use libswish.LibXml.{find, LibXml, IsLibXml}
use libswish.Mime.{add_types, mime_defaults, mime_table}
use libswish.Mime.Defaults.{distinct, add_types-create, mime_defaults-reads}
use libswish.Numbers.{ℤ, int_to_string}
use libswish.Prelude.{
  ℕ, ◌≤◌, ◌≡◌, ◌≢◌, refl, sym, ◌∙◌, ap, text, true, false, Option, none, some, Bytes, ok,
  if◌then◌else◌, Returns, eq_bytes, eq_bytes_iff, arith, Bool-cases, inl, inr,
}

none-some : {A : Type 0} {o : Option A} {a : A} → o ≡ none → o ≢ some a
none-some n e = absurd cc

differ : (a b : Bytes) → eq_bytes a b ≡ false → a ≢ b
differ a b h e = absurd (ground (arith, h, e, eq_bytes_iff a b))

same_id : (p q : Property) → some p ≡ some q → p.id ≡ q.id
same_id p q e = ground (arith, e)

module _ (x : LibXml) (laws : IsLibXml x) where
  -- Two entries that are put in an empty table.
  two_entries :
      {V : Type 0} (t : x.Table V) (j k : Bytes) (v w : V)
      → ((i : Bytes) → x.lookup V t i ≡ none)
      → eq_bytes k j ≡ false
      → (t' : x.Table V) × (t'' : x.Table V) × (hash_add x t j v ≡ ok t')
        × (hash_add x t' k w ≡ ok t'')
        × ((i : Bytes)
            → x.lookup V t'' i
              ≡ (if eq_bytes i k then some w else if eq_bytes i j then some v else none))
  two_entries {V} t j k v w empty h =
      let (t', e, reads) = hash_add-Puts x laws t j v (empty j) in
      let (t'', e', reads') = hash_add-Puts x laws t' k w (reads k ∙ ground (arith, h, empty k)) in
      (t', t'', e, e', λ i. ground (arith, reads' i, reads i, empty i))

  set_default_properties_steps :
      (config : Config x) {ps ps' : x.Table Property} {is is' : x.Table Bytes}
      → hash_add x config.properties description description_property ≡ ok ps
      → hash_add x ps title title_property ≡ ok ps'
      → hash_add x config.flags.prop_ids (int_to_string (ℤ.pos 6)) description ≡ ok is
      → hash_add x is (int_to_string (ℤ.pos 3)) title ≡ ok is'
      → set_default_properties x config
        ≡ ok (record config {
          properties = ps';
          flags = record config.flags { prop_ids = is'; max_prop_id = ℤ.pos 6 };
        })
  unfolding set_default_properties
  set_default_properties_steps config e e' f f' = ground (arith, e, e', f, f')

  set_default_metanames_steps :
      (config : Config x) {ms ms' : x.Table MetaName} {is is' : x.Table Bytes}
      → hash_add x config.metanames default_metaname
          (record (metaname_init default_metaname) { id = ℤ.pos 0 })
        ≡ ok ms
      → hash_add x ms title (record (metaname_init title) { id = ℤ.pos 1 }) ≡ ok ms'
      → hash_add x config.flags.meta_ids (int_to_string (ℤ.pos 0)) default_metaname ≡ ok is
      → hash_add x is (int_to_string (ℤ.pos 1)) title ≡ ok is'
      → set_default_metanames x config
        ≡ ok (record config {
          metanames = ms';
          flags = record config.flags { meta_ids = is'; max_meta_id = ℤ.pos 1 };
        })
  unfolding set_default_metanames
  set_default_metanames_steps config e e' f f' = ground (arith, e, e', f, f')

  default_ids : Bytes → Option Bytes
  default_ids i =
      if eq_bytes i (int_to_string (ℤ.pos 3))
      then some title
      else if eq_bytes i (int_to_string (ℤ.pos 6))
      then some description
      else none

  default_properties : Bytes → Option Property
  default_properties i =
      if eq_bytes i title
      then some title_property
      else if eq_bytes i description
      then some description_property
      else none

  ids_default :
      (i : Bytes)
      → (if eq_bytes i (int_to_string (ℤ.pos 3))
          then some title
          else if eq_bytes i (int_to_string (ℤ.pos 6))
          then some description
          else none)
        ≡ default_ids i
  unfolding default_ids
  ids_default i = refl

  properties_default :
      (i : Bytes)
      → (if eq_bytes i title
          then some title_property
          else if eq_bytes i description
          then some description_property
          else none)
        ≡ default_properties i
  unfolding default_properties
  properties_default i = refl

  used_default :
      (k name : Bytes)
      → default_ids k ≡ some name
      → (n : ℕ) × (n ≤ 6) × (k ≡ int_to_string (ℤ.pos n))
  unfolding default_ids
  used_default k name e = elim (Bool-cases (eq_bytes k (int_to_string (ℤ.pos 3)))) [
    | inl three ↦ (3, omega arith, (eq_bytes_iff k (int_to_string (ℤ.pos 3))).0 three)
    | inr other ↦ elim (Bool-cases (eq_bytes k (int_to_string (ℤ.pos 6)))) [
      | inl six ↦ (6, omega arith, (eq_bytes_iff k (int_to_string (ℤ.pos 6))).0 six)
      | inr no_number ↦ absurd (ground (arith, e, other, no_number))
    ]
  ]

  ids_of_title : default_ids (int_to_string (ℤ.pos 3)) ≡ some title
  unfolding default_ids int_to_string eq_bytes
  ids_of_title = refl

  ids_of_description : default_ids (int_to_string (ℤ.pos 6)) ≡ some description
  unfolding default_ids int_to_string eq_bytes
  ids_of_description = refl

  agrees_default :
      (name : Bytes) (p : Property)
      → default_properties name ≡ some p
      → default_ids (int_to_string p.id) ≡ some name
  unfolding default_properties
  agrees_default name p e = elim (Bool-cases (eq_bytes name title)) [
    | inl is ↦
        ap (λ i. default_ids (int_to_string i)) (same_id p title_property (sym e ∙ rw is refl))
        ∙ ids_of_title
        ∙ ap some (sym ((eq_bytes_iff name title).0 is))
    | inr other ↦ elim (Bool-cases (eq_bytes name description)) [
      | inl is ↦
          ap (λ i. default_ids (int_to_string i))
            (same_id p description_property (sym e ∙ rw other (rw is refl)))
          ∙ ids_of_description
          ∙ ap some (sym ((eq_bytes_iff name description).0 is))
      | inr no_name ↦ absurd (ground (arith, e, other, no_name))
    ]
  ]

  set_default_steps :
      (locale : Bytes) (config c₁ c₂ : Config x) {mi pa ix ta : x.Table Bytes}
      → mime_defaults x ≡ ok mi
      → set_default_metanames x (record config { mimes = some mi }) ≡ ok c₁
      → set_default_properties x c₁ ≡ ok c₂
      → add_types x default_parsers c₂.parsers ≡ ok pa
      → add_types x (default_index locale) c₂.index ≡ ok ix
      → add_types x default_aliases c₂.tag_aliases ≡ ok ta
      → config_set_default x locale config
        ≡ ok (record c₂ { parsers = pa; index = ix; tag_aliases = ta })
  unfolding config_set_default
  set_default_steps locale config c₁ c₂ e₁ e₂ e₃ e₄ e₅ e₆ = ground (arith, e₁, e₂, e₃, e₄, e₅, e₆)

  pub record IsDefault (locale : Bytes) (r : Config x) : Type 0 where
    pub numbered : IsNumbered x r 6
    pub parsers_read : (j : Bytes) → x.lookup Bytes r.parsers j ≡ parser_for j
    pub aliases_read : (j : Bytes) → x.lookup Bytes r.tag_aliases j ≡ alias_for j
    pub index_read : (j : Bytes) → x.lookup Bytes r.index j ≡ index_setting locale j
    pub mimes : x.Table Bytes
    pub mimes_are : r.mimes ≡ some mimes
    pub mimes_read :
        (j : Bytes)
        → x.lookup Bytes mimes j ≡ (if eq_bytes j (text "zip") then none else find j mime_table)
    pub properties_read :
        (j : Bytes)
        → x.lookup Property r.properties j ≡ (
            if eq_bytes j (text "swishtitle")
            then some (property_with (text "swishtitle") (ℤ.pos 3) true)
            else if eq_bytes j (text "swishdescription")
            then some (property_with (text "swishdescription") (ℤ.pos 6) false)
            else none)

  parsers_distinct : distinct default_parsers ≡ true
  unfolding eq_bytes
  parsers_distinct = refl

  aliases_distinct : distinct default_aliases ≡ true
  unfolding eq_bytes
  aliases_distinct = refl

  index_distinct : (locale : Bytes) → distinct (default_index locale) ≡ true
  unfolding eq_bytes
  index_distinct locale = refl

  keys_differ :
      (eq_bytes title default_metaname ≡ false)
      × (eq_bytes title description ≡ false)
      × (eq_bytes (int_to_string (ℤ.pos 1)) (int_to_string (ℤ.pos 0)) ≡ false)
      × (eq_bytes (int_to_string (ℤ.pos 3)) (int_to_string (ℤ.pos 6)) ≡ false)
      × (eq_bytes description title ≡ false)
  unfolding eq_bytes int_to_string
  keys_differ = (refl, refl, refl, refl, refl)

  -- Setting the defaults of a new configuration never ends the program. Its properties and their
  -- numbers are in step, 6 being the largest. A parser is set for plain text, for the two types of
  -- XML, for HTML and for any other type, `title` and `body` are aliases of `swishtitle` and
  -- `swishdescription`, the index has its format, name and locale, the MIME types are those that the
  -- source lists without "zip", and the two properties are the title, number 3, and the description,
  -- number 6 and not sorted by.
  pub config_set_default-IsDefault :
      (locale : Bytes) → Returns (config_set_default x locale (config_init x)) (IsDefault locale)
  unfolding config_init init_flags find property_init
  config_set_default-IsDefault locale =
      let c = config_init x in
      let empty = laws.lookup-create Bytes in
      let (mi, e₁, r₁) = mime_defaults-reads x laws in
      let (ms, ms', f₁, f₂, rm) =
        two_entries c.metanames default_metaname title
          (record (metaname_init default_metaname) { id = ℤ.pos 0 })
          (record (metaname_init title) { id = ℤ.pos 1 }) (λ i. laws.lookup-create MetaName i)
          keys_differ.0 in
      let (ks, ks', f₃, f₄, rk) =
        two_entries c.flags.meta_ids (int_to_string (ℤ.pos 0)) (int_to_string (ℤ.pos 1))
          default_metaname title empty keys_differ.2 in
      let (ps, ps', g₁, g₂, rp) =
        two_entries c.properties description title description_property title_property
          (λ i. laws.lookup-create Property i) keys_differ.1 in
      let (is, is', g₃, g₄, ri) =
        two_entries c.flags.prop_ids (int_to_string (ℤ.pos 6)) (int_to_string (ℤ.pos 3)) description
          title empty keys_differ.3 in
      let (pa, e₄, r₄) = add_types-create x laws default_parsers parsers_distinct in
      let (ix, e₅, r₅) = add_types-create x laws (default_index locale) (index_distinct locale) in
      let (ta, e₆, r₆) = add_types-create x laws default_aliases aliases_distinct in
      let c₀ : Config x = record c { mimes = some mi } in
      let c₁ : Config x = record c₀ {
        metanames = ms';
        flags = record c₀.flags { meta_ids = ks'; max_meta_id = ℤ.pos 1 };
      } in
      let c₂ : Config x = record c₁ {
        properties = ps';
        flags = record c₁.flags { prop_ids = is'; max_prop_id = ℤ.pos 6 };
      } in
      (
        record c₂ { parsers = pa; index = ix; tag_aliases = ta },
        set_default_steps locale c c₁ c₂ e₁ (set_default_metanames_steps c₀ f₁ f₂ f₃ f₄)
            (set_default_properties_steps c₁ g₁ g₂ g₃ g₄) e₄ e₅ e₆,
        record {
          numbered = record {
            max_is = refl;
            used = λ k name e. used_default k name (sym (ids_default k) ∙ sym (ri k) ∙ e);
            agrees = λ name p e.
                ri (int_to_string p.id)
                ∙ ids_default (int_to_string p.id)
                ∙ agrees_default name p (sym (properties_default name) ∙ sym (rp name) ∙ e);
          };
          parsers_read = r₄;
          aliases_read = r₆;
          index_read = r₅;
          mimes = mi;
          mimes_are = refl;
          mimes_read = r₁.0;
          properties_read = rp;
        },
      )
