-- ===== src/Parser/Attributes.antt =====
-- src/libswish3/parser.c: `bake_tag` on a tag with attributes.
pub mod Reading
use libswish.Hash.{hash_exists}
use libswish.LibXml.{LibXml}
use libswish.Parser.{Env, ParserData, dot}
use libswish.Parser.Baking.{
  name_of, html_bump, meta_atts, class_names, is_undefined, undefined_html, undefined_attr,
  xml_undefined, find_alias, bake_plain,
}
use libswish.Parser.Tags.{drop_tag, opened, tag_with_content}
use libswish.Prelude.{
  Bool, true, false, List, [], ◌∷◌, ◌++◌, Option, none, some, Bytes, text, eq_bytes, Run, ok, croak,
  ◌>>=◌, if◌then◌else◌, null_pointer,
}
use libswish.Str.{str_tolower}

module _ (x : LibXml) (env : Env x) where
  -- The meta tag of HTML: whether its content has been taken, upon which `bake_tag` gives NULL.
  unfoldable pub html_meta :
      Option Bytes × Option Bytes → Option Bytes → ParserData x → Run (Bool × ParserData x)
  unfolding is_undefined undefined_html tag_with_content
  html_meta (none, content) xmlns_prefix pd = ok (false, pd)
  html_meta (some metaname, content) xmlns_prefix pd = do
    pd₁ ← if is_undefined x env metaname pd then undefined_html x env metaname pd else ok pd
    elim content [
      | none ↦ ok (false, record pd₁ { ignore_content = pd.ignore_content })
      | some metacontent ↦ tag_with_content x env metaname metacontent xmlns_prefix pd₁ >>= λ pd₂.
          ok (true, record pd₂ { bump_word = pd₁.bump_word })
    ]

  abbrev pub class_words : List Bytes
  class_words = elim env.class_attributes [ none ↦ [] | some words ↦ words ]

  -- One round of the loop over the attributes of an XML tag.
  unfoldable pub xml_att :
      Bytes → Bytes → Option Bytes → Bytes × ParserData x → Run (Bytes × ParserData x)
  unfolding class_names hash_exists undefined_attr tag_with_content
  xml_att att value xmlns_prefix (swishtag, pd) = do
    attr_lower ← str_tolower env.wide att
    attr_val_lower ← str_tolower env.wide value
    let swishtag' = class_names class_words attr_lower attr_val_lower swishtag
    let metaname = swishtag' ++ dot ∷ attr_lower
    pd₁ ←
        if hash_exists x pd.config.metanames metaname
        then ok pd
        else undefined_attr x env metaname attr_val_lower pd
    pd₂ ←
        if hash_exists x pd₁.config.metanames metaname
        then tag_with_content x env metaname attr_val_lower xmlns_prefix pd₁
        else ok pd₁
    ok (swishtag', pd₂)

  unfoldable pub xml_atts :
      List (Option Bytes) → Option Bytes → Bytes × ParserData x → Run (Bytes × ParserData x)
  unfolding xml_att
  xml_atts (some att ∷ some value ∷ atts) xmlns_prefix r =
      xml_att att value xmlns_prefix r >>= xml_atts atts xmlns_prefix
  xml_atts (some att ∷ atts) xmlns_prefix r = croak null_pointer
  xml_atts (none ∷ atts) xmlns_prefix r = ok r
  xml_atts [] xmlns_prefix r = ok r

  -- What stands between the name of the tag and its alias.
  unfoldable pub bake_atts :
      Bytes → List (Option Bytes) → Option Bytes → ParserData x → Run (Option Bytes × ParserData x)
  unfolding html_bump meta_atts html_meta xml_atts xml_undefined
  bake_atts swishtag atts xmlns_prefix pd =
      if pd.is_html
      then (let found =
            if eq_bytes swishtag (text "meta") then meta_atts atts (none, none) else (none, none) in
          html_meta found xmlns_prefix (html_bump x env swishtag pd) >>= λ r.
          ok (if r.0 then none else some swishtag, r.1))
      else (xml_atts atts xmlns_prefix (swishtag, record pd { bump_word = true }) >>= λ r.
          xml_undefined x env r.0 r.1 >>= λ pd'. ok (some r.0, pd'))

  unfoldable pub bake_tag :
      Bytes
      → Option (List (Option Bytes))
      → Option Bytes
      → ParserData x
      → Run (Option Bytes × ParserData x)
  unfolding bake_plain name_of bake_atts find_alias
  bake_tag tag none xmlns_prefix pd = bake_plain x env tag xmlns_prefix pd
  bake_tag tag (some atts) xmlns_prefix pd = do
    swishtag ← name_of x env tag xmlns_prefix pd
    r ← bake_atts swishtag atts xmlns_prefix pd
    elim r.0 [
      | none ↦ ok (none, r.1)
      | some swishtag' ↦ find_alias x env swishtag' r.1 >>= λ baked. ok (some baked, r.1)
    ]

  unfoldable pub open_tag :
      Bytes → Option (List (Option Bytes)) → Option Bytes → ParserData x → Run (ParserData x)
  unfolding drop_tag bake_tag opened
  open_tag tag atts xmlns_prefix pd = do
    dropped ← drop_tag pd.tag
    r ← bake_tag tag atts xmlns_prefix (record pd { tag = dropped })
    opened x env tag r.0 r.1
