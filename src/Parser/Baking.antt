-- ===== src/Parser/Baking.antt =====
-- src/libswish3/parser.c: `bake_tag`, the name under which a tag is indexed, but for the tags that
-- its attributes make.

use libswish.Config.Whole.{
  property_new, metaname_new, metas_error, metas_ignore, metas_index, metas_auto, metas_autoall,
  attrs_error, attrs_ignore, attrs_index, attrs_auto, attrs_autoall, attrs_disable,
}
use libswish.Hash.{hash_exists, hash_fetch}
use libswish.LibXml.{LibXml}
use libswish.NamedBuffer.{nb_new}
use libswish.Parser.{Env, ParserData, dot, buffer_characters}
use libswish.Prelude.{
  ◌+◌, Bool, true, not, ◌&&◌, ◌||◌, List, [], ◌∷◌, ◌++◌, Option, none, some, Bytes, text, eq_bytes,
  Run, ok, croak, ◌>>=◌, if◌then◌else◌, undefined_metaname,
}
use libswish.Str.{str_tolower}
use libswish.TagStack.{flatten_tag_stack}

-- The attribute's value becomes part of the tag once for each class attribute of its name.
unfoldable pub class_names : List Bytes → Bytes → Bytes → Bytes → Bytes
class_names [] attr value swishtag = swishtag
class_names (word ∷ words) attr value swishtag =
    class_names words attr value (if eq_bytes word attr then swishtag ++ dot ∷ value else swishtag)

-- `atts[i + 1]`, where behind the last one stands the NULL.
abbrev pub next_att : List (Option Bytes) → Option Bytes
next_att [] = none
next_att (a ∷ atts) = a

-- One round of the loop over the attributes of an HTML tag: the name and the content found so far.
unfoldable pub meta_att :
    Bytes → Option Bytes → Option Bytes × Option Bytes → Option Bytes × Option Bytes
meta_att a following (metaname, metacontent) =
    if eq_bytes a (text "name")
    then (following, metacontent)
    else if eq_bytes a (text "content")
    then (metaname, following)
    else (metaname, metacontent)

-- The loop goes in steps of one, over the names and the values, and ends at a NULL.
unfoldable pub meta_atts :
    List (Option Bytes) → Option Bytes × Option Bytes → Option Bytes × Option Bytes
unfolding meta_att
meta_atts [] found = found
meta_atts (none ∷ atts) found = found
meta_atts (some a ∷ atts) found = meta_atts atts (meta_att a (next_att atts) found)

module _ (x : LibXml) (env : Env x) where
  -- The tag in lower case, behind its name space where these are not ignored.
  unfoldable pub name_of : Bytes → Option Bytes → ParserData x → Run Bytes
  name_of tag xmlns_prefix pd = str_tolower env.wide tag >>= λ swishtag. elim xmlns_prefix [
    | none ↦ ok swishtag
    | some prefix ↦
        if pd.config.flags.ignore_xmlns
        then ok swishtag
        else (str_tolower env.wide prefix >>= λ xmlns. ok (xmlns ++ 58 ∷ swishtag))
  ]

  unfoldable pub html_bump : Bytes → ParserData x → ParserData x
  html_bump swishtag pd =
      if eq_bytes swishtag (text "br") || eq_bytes swishtag (text "img")
      then record pd { bump_word = true }
      else elim (env.html_inline swishtag) [
        | none ↦ pd
        | some inline ↦ record pd { bump_word = not inline }
      ]

  -- The cases `auto` and `autoall` of the three switches.
  unfoldable pub auto : Bytes → ParserData x → Run (ParserData x)
  unfolding metaname_new nb_new
  auto name pd = do
    config' ← metaname_new x name pd.config
    nb ← nb_new x pd.metanames name
    ok (record pd { config = config'; metanames = nb })

  unfoldable pub autoall : Bytes → ParserData x → Run (ParserData x)
  unfolding auto hash_exists property_new nb_new
  autoall name pd = do
    pd₁ ← auto name pd
    if hash_exists x pd₁.config.properties name
        then ok pd₁
        else (property_new x name pd₁.config >>= λ config'. nb_new x pd₁.properties name >>= λ nb.
            ok (record pd₁ { config = config'; properties = nb }))

  -- The name is neither a metaname nor an alias.
  unfoldable pub is_undefined : Bytes → ParserData x → Bool
  unfolding hash_exists
  is_undefined name pd =
      not (hash_exists x pd.config.metanames name) && not (hash_exists x pd.config.tag_aliases name)

  -- The switch for the name of an HTML meta tag.
  unfoldable pub undefined_html : Bytes → ParserData x → Run (ParserData x)
  unfolding auto autoall
  undefined_html name pd = elim pd.config.flags.undef_metas [
    | metas_error ↦ croak undefined_metaname
    | metas_ignore ↦ ok (record pd { ignore_content = pd.ignore_content + 1 })
    | metas_index ↦ ok pd
    | metas_auto ↦ auto name pd
    | metas_autoall ↦ autoall name pd
  ]

  -- The switch for an XML tag.
  unfoldable pub undefined_xml : Bytes → ParserData x → Run (ParserData x)
  unfolding auto autoall
  undefined_xml name pd = elim pd.config.flags.undef_metas [
    | metas_error ↦ croak undefined_metaname
    | metas_ignore ↦ ok (record pd { ignore_content = pd.ignore_content + 1 })
    | metas_index ↦ ok (record pd { ignore_content = 0 })
    | metas_auto ↦ auto name pd
    | metas_autoall ↦ autoall name pd
  ]

  -- The switch for an XML attribute. As text of the tag its value is set off, and the flag is put
  -- back.
  unfoldable pub undefined_attr : Bytes → Bytes → ParserData x → Run (ParserData x)
  unfolding auto autoall buffer_characters
  undefined_attr name value pd = elim pd.config.flags.undef_attrs [
    | attrs_error ↦ croak undefined_metaname
    | attrs_ignore ↦ ok pd
    | attrs_index ↦ buffer_characters x env value (record pd { bump_word = true }) >>= λ pd'.
        ok (record pd' { bump_word = pd.bump_word })
    | attrs_auto ↦ auto name pd
    | attrs_autoall ↦ autoall name pd
    | attrs_disable ↦ ok pd
  ]

  unfoldable pub xml_undefined : Bytes → ParserData x → Run (ParserData x)
  unfolding is_undefined undefined_xml
  xml_undefined swishtag pd = if is_undefined swishtag pd then undefined_xml swishtag pd else ok pd

  -- The alias of the tag, or else that of the path to it, or else the tag.
  unfoldable pub find_alias : Bytes → ParserData x → Run Bytes
  unfolding hash_fetch flatten_tag_stack
  find_alias swishtag pd = elim (hash_fetch x pd.config.tag_aliases swishtag) [
    | some alias ↦ ok alias
    | none ↦ flatten_tag_stack (some swishtag) pd.domstack.head dot >>= λ swishdomtag.
        elim (hash_fetch x pd.config.tag_aliases swishdomtag) [
          | some alias ↦ ok alias
          | none ↦ ok swishtag
        ]
  ]

  -- `bake_tag` without attributes.
  unfoldable pub bake_plain :
      Bytes → Option Bytes → ParserData x → Run (Option Bytes × ParserData x)
  unfolding name_of html_bump xml_undefined find_alias
  bake_plain tag xmlns_prefix pd = do
    swishtag ← name_of tag xmlns_prefix pd
    pd₁ ←
        if pd.is_html
        then ok (html_bump swishtag pd)
        else xml_undefined swishtag (record pd { bump_word = true })
    baked ← find_alias swishtag pd₁
    ok (some baked, pd₁)
