-- ===== src/Parser/Content/Baking.antt =====
-- The name under which a tag of a document is indexed.
use libswish.Config.Whole.{Config}
use libswish.LibXml.{LibXml}
use libswish.Parser.{Env, ParserData, dot}
use libswish.Parser.Baking.{
  name_of, html_bump, is_undefined, undefined_xml, xml_undefined, find_alias, bake_plain,
}
use libswish.Parser.Content.{baked_of, sets_off}
use libswish.Parser.Content.State.{Vars, IsPlain, state}
use libswish.Prelude.{
  Bool, true, false, ◌≡◌, refl, ◌∙◌, ap, inl, inr, List, [], ◌∷◌, none, some, Bytes, ok, ◌>>=◌,
  if◌then◌else◌, arith, Option-cases, Bool-cases,
}
use libswish.Str.{str_tolower}
use libswish.TagStack.{Tag, flatten_tag_stack, flatten_from}
use libswish.TagStack.Contexts.{flatten_tag_stack-path}

module _ (x : LibXml) (env : Env x) (c : Config x) (plain : IsPlain x c)
    (lower : Bytes → Bytes) where
  find_alias_known :
      (swishtag alias : Bytes) (pd : ParserData x)
      → x.lookup Bytes pd.config.tag_aliases swishtag ≡ some alias
      → find_alias x env swishtag pd ≡ ok alias
  unfolding find_alias
  find_alias_known swishtag alias pd e = ground (arith, e)

  find_alias_path :
      (swishtag path : Bytes) (pd : ParserData x)
      → x.lookup Bytes pd.config.tag_aliases swishtag ≡ none
      → flatten_tag_stack (some swishtag) pd.domstack.head dot ≡ ok path
      → x.lookup Bytes pd.config.tag_aliases path ≡ none
      → find_alias x env swishtag pd ≡ ok swishtag
  unfolding find_alias
  find_alias_path swishtag path pd e f g =
      ap
        (λ o. elim o [
          | some alias ↦ ok alias
          | none ↦ flatten_tag_stack (some swishtag) pd.domstack.head dot >>= λ swishdomtag.
              elim (x.lookup Bytes pd.config.tag_aliases swishdomtag) [
                | some alias ↦ ok alias
                | none ↦ ok swishtag
              ]
        ])
        e
      ∙ ap
          (λ r. r >>= λ swishdomtag. elim (x.lookup Bytes pd.config.tag_aliases swishdomtag) [
            | some alias ↦ ok alias
            | none ↦ ok swishtag
          ])
          f
      ∙ ground (arith, g)

  -- The path to a tag within another has a dot in it, that to the outermost tag is its name.
  no_path :
      (swishtag : Bytes) (ts : List Tag)
      → x.lookup Bytes c.tag_aliases swishtag ≡ none
      → (path : Bytes) × (flatten_tag_stack (some swishtag) ts dot ≡ ok path)
        × (x.lookup Bytes c.tag_aliases path ≡ none)
  unfolding flatten_tag_stack flatten_from
  no_path swishtag [] e = (swishtag, refl, e)
  no_path swishtag (t ∷ ts) e =
      (_, flatten_tag_stack-path dot swishtag t ts, plain.aliases_dotless _ swishtag)

  find_alias-baked_of :
      (is_html : Bool) (tag : Bytes) (v : Vars x)
      → find_alias x env (lower tag) (state x env c is_html lower v)
        ≡ ok (baked_of x env c is_html lower tag)
  find_alias-baked_of is_html tag v =
      elim (Option-cases (x.lookup Bytes c.tag_aliases (lower tag))) [
        | inl e ↦
            let (path, f, g) = no_path (lower tag) v.domstack.head e in
            find_alias_path (lower tag) path (state x env c is_html lower v) e f g
            ∙ ground (arith, e)
        | inr (alias, e) ↦
            find_alias_known (lower tag) alias (state x env c is_html lower v) e ∙ ground (arith, e)
      ]

  name_of_lem :
      (tag : Bytes) (pd : ParserData x)
      → str_tolower env.wide tag ≡ ok (lower tag)
      → name_of x env tag none pd ≡ ok (lower tag)
  unfolding name_of
  name_of_lem tag pd e = ap (λ r. r >>= ok) e

  bake_plain_steps :
      (tag swishtag baked : Bytes) (pd pd₁ : ParserData x)
      → name_of x env tag none pd ≡ ok swishtag
      → (if pd.is_html
          then ok (html_bump x env swishtag pd)
          else xml_undefined x env swishtag (record pd { bump_word = true }))
        ≡ ok pd₁
      → find_alias x env swishtag pd₁ ≡ ok baked
      → bake_plain x env tag none pd ≡ ok (some baked, pd₁)
  unfolding bake_plain
  bake_plain_steps tag swishtag baked pd pd₁ e f g =
      ap
        (λ r. r >>= λ swishtag.
          (if pd.is_html
            then ok (html_bump x env swishtag pd)
            else xml_undefined x env swishtag (record pd { bump_word = true }))
          >>= λ pd₁. find_alias x env swishtag pd₁ >>= λ baked. ok (some baked, pd₁))
        e
      ∙ ap (λ r. r >>= λ pd₁. find_alias x env swishtag pd₁ >>= λ baked. ok (some baked, pd₁)) f
      ∙ ap (λ r. r >>= λ baked. ok (some baked, pd₁)) g

  html_bump_lem :
      (tag : Bytes) (v : Vars x)
      → html_bump x env (lower tag) (state x env c true lower v)
        ≡ state x env c true lower
            (record v { bump_word = sets_off x env c true lower tag v.bump_word })
  unfolding html_bump
  html_bump_lem tag v = ground arith

  xml_undefined_lem :
      (swishtag : Bytes) (v : Vars x)
      → xml_undefined x env swishtag (state x env c false lower v)
        ≡ ok (state x env c false lower v)
  unfolding xml_undefined undefined_xml
  xml_undefined_lem swishtag v =
      elim (Bool-cases (is_undefined x env swishtag (state x env c false lower v))) [
        | inl undefined ↦ ground (arith, undefined, plain.indexes)
        | inr known ↦ ground (arith, known)
      ]

  -- The tag is found under its name, and whether words are set apart is known; nothing else changes.
  pub bake_plain_lem :
      (is_html : Bool) (tag : Bytes) (v : Vars x)
      → str_tolower env.wide tag ≡ ok (lower tag)
      → bake_plain x env tag none (state x env c is_html lower v)
        ≡ ok (
          some (baked_of x env c is_html lower tag),
          state x env c is_html lower
              (record v { bump_word = sets_off x env c is_html lower tag v.bump_word }),
        )
  bake_plain_lem true tag v e =
      bake_plain_steps tag (lower tag) (baked_of x env c true lower tag)
        (state x env c true lower v)
        (state x env c true lower
          (record v { bump_word = sets_off x env c true lower tag v.bump_word }))
        (name_of_lem tag (state x env c true lower v) e) (ap ok (html_bump_lem tag v))
        (find_alias-baked_of true tag
          (record v { bump_word = sets_off x env c true lower tag v.bump_word }))
  bake_plain_lem false tag v e =
      bake_plain_steps tag (lower tag) (baked_of x env c false lower tag)
        (state x env c false lower v) (state x env c false lower (record v { bump_word = true }))
        (name_of_lem tag (state x env c false lower v) e)
        (xml_undefined_lem (lower tag) (record v { bump_word = true }))
        (find_alias-baked_of false tag (record v { bump_word = true }))
