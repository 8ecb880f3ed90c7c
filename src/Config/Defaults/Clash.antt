-- ===== src/Config/Defaults/Clash.antt =====
-- src/libswish3/property.c: the first number that a default configuration gives out.
use libswish.Config.{Property, get_builtin_id, get_id}
use libswish.Config.Defaults.{config_init, config_set_default, title, description}
use libswish.Config.Ids.{property_new-IsNumbered}
use libswish.Config.Whole.{property_new}
use libswish.LibXml.{LibXml, IsLibXml}
use libswish.Numbers.{ℤ}
use libswish.Prelude.{
  ◌≡◌, refl, sym, ◌∙◌, ap, false, none, Bytes, text, ok, ◌>>=◌, Returns, eq_bytes, arith,
}
use libswish.Config.Defaults.Numbered.{config_set_default-IsDefault}

module _ (x : LibXml) (laws : IsLibXml x) where
  wordnum_id : (t : x.Table Property) → get_id x (text "swishwordnum") t ≡ ok (ℤ.pos 7)
  unfolding get_id get_builtin_id eq_bytes
  wordnum_id t = refl

  -- The first property that is made on the fly in a default configuration, as the parser does for an
  -- undefined name if it is told to, gets the number of the built-in property `swishwordnum`.
  pub property_new_clash :
      (locale name : Bytes)
      → eq_bytes name title ≡ false
      → eq_bytes name description ≡ false
      → get_builtin_id name ≡ ℤ.negsuc 1
      → Returns
          (config_set_default x locale (config_init x) >>= property_new x name)
          (λ r. get_id x name r.properties ≡ get_id x (text "swishwordnum") r.properties)
  property_new_clash locale name t d plain =
      let (c, e, default) = config_set_default-IsDefault x laws locale in
      let absent : x.lookup Property c.properties name ≡ none =
        default.properties_read name ∙ rw t (rw d refl) in
      let (r, e', (numbered, found, puts)) =
        property_new-IsNumbered x laws name c 6 default.numbered (omega arith) absent plain in
      (r, ap (λ m. m >>= property_new x name) e ∙ e', found ∙ sym (wordnum_id r.properties))
