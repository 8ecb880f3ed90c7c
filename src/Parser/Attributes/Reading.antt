-- ===== src/Parser/Attributes/Reading.antt =====
-- How the attributes of a tag are read: the name and content of a meta tag of HTML, and the array
-- that is made of the attributes of an XML tag.
use libswish.LibXml.{LibXml}
use libswish.Parser.{Env, ParserData}
use libswish.Parser.Attributes.{xml_att, xml_atts}
use libswish.Parser.Baking.{meta_att, meta_atts}
use libswish.Parser.Events.{att_pairs}
use libswish.Prelude.{
  true, false, ◌≡◌, refl, List, [], ◌∷◌, ◌++◌, Option, none, some, Bytes, text, eq_bytes,
  eq_bytes_iff, >>=-cong, if◌then◌else◌, arith,
}

literals :
    (eq_bytes (text "name") (text "name") ≡ true)
    × (eq_bytes (text "content") (text "name") ≡ false)
    × (eq_bytes (text "content") (text "content") ≡ true)
unfolding eq_bytes
literals = (refl, refl, refl)

-- No text is both words.
both_words : (s : Bytes) → eq_bytes s (text "name") ≡ true → eq_bytes s (text "content") ≡ false
both_words s h = rw ((eq_bytes_iff s (text "name")).0 h) (unfold eq_bytes in refl)

-- What is found of a meta tag that has a name and a content, in this order. As name counts what
-- stands behind the last `name`, among the names of attributes or their values, and as content what
-- stands behind the last `content`: a content that is itself `name` loses the name, a content that is
-- `content` loses the content, and of a name that is `name` the word `content` is taken for it.
pub meta_atts-name_content :
    (name content : Bytes)
    → meta_atts
        (some (text "name") ∷ some name ∷ some (text "content") ∷ some content ∷ [])
        (none, none)
      ≡ (
        (if eq_bytes content (text "name")
            then none
            else if eq_bytes name (text "name")
            then some (text "content")
            else some name),
        (if eq_bytes content (text "content") then none else some content),
      )
unfolding meta_atts meta_att
meta_atts-name_content name content = ground (arith, literals, both_words name, both_words content)

module _ (x : LibXml) (env : Env x) where
  -- An attribute that is empty hides all behind it.
  pub xml_atts-empty :
      (attributes hidden : List (Bytes × Bytes)) (att : Bytes) (prefix : Option Bytes)
      (r : Bytes × ParserData x)
      → xml_atts x env (att_pairs (attributes ++ (att, []) ∷ hidden)) prefix r
        ≡ xml_atts x env (att_pairs attributes) prefix r
  unfolding xml_atts att_pairs
  xml_atts-empty [] hidden att prefix r = refl
  xml_atts-empty ((a, []) ∷ attributes) hidden att prefix r = refl
  xml_atts-empty ((a, v ∷ vs) ∷ attributes) hidden att prefix r =
      >>=-cong (xml_att x env a (v ∷ vs) prefix r) _ _ (xml_atts-empty attributes hidden att prefix)
