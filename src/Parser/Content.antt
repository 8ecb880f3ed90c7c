-- ===== src/Parser/Content.antt =====
-- What the callbacks of src/libswish3/parser.c make of a document, as a walk over the tree of its
-- elements: no stacks, no callbacks, and text that is handed on in the order of the document.
pub mod Storing
pub mod State
pub mod Baking
pub mod Flushing
pub mod Opening
pub mod Descending
pub mod Entering
pub mod Closing
pub mod Leaving
pub mod Stepping
pub mod Walking
pub mod Plain
pub mod Whole
use libswish.Config.{MetaName, Property}
use libswish.Config.Whole.{Config}
use libswish.LibXml.{LibXml}
use libswish.NamedBuffer.{bumper}
use libswish.Parser.{Env, stored_as}
use libswish.Parser.Events.{
  Event, start_element, end_element, start_element_ns, end_element_ns, characters,
}
use libswish.Prelude.{
  ℕ, ◌+◌, Bool, true, false, not, ◌&&◌, ◌||◌, List, [], ◌∷◌, ◌++◌, Option, none, some, Bytes, text,
  eq_bytes, Run, ok, ◌>>=◌, if◌then◌else◌, ◌==◌, length,
}
use libswish.Str.{all_ws}
use libswish.TokenList.{TokenIterator}

-- The text and the elements of an element: the first of them, and the rest.
pub data Content : Type 0 where
  end : Content
  chars : Bytes → Content → Content
  element : Bytes → Content → Content → Content

-- What libxml2 calls: for HTML the callbacks of SAX 1, for XML those of SAX 2.
abbrev pub start_of : Bool → Bytes → Event
start_of true tag = start_element tag none
start_of false tag = start_element_ns tag none none []

abbrev pub end_of : Bool → Bytes → Event
end_of true tag = end_element tag
end_of false tag = end_element_ns tag none

abbrev pub events_of : Bool → Content → List Event
events_of is_html end = []
events_of is_html (chars ch rest) = characters ch ∷ events_of is_html rest
events_of is_html (element tag kids rest) =
    start_of is_html tag ∷ (events_of is_html kids ++ (end_of is_html tag ∷ events_of is_html rest))

-- The metaname that text belongs to, and the path to it.
pub record Place : Type 0 where
  pub name : Bytes
  pub context : Bytes

-- A text that is handed on.
pub record Piece : Type 0 where
  pub place : Place
  pub words : Bytes

-- The text that waits, whether the next one is set off, and what was handed on.
pub record Progress : Type 0 where
  pub waiting : Bytes
  pub bump : Bool
  pub pieces : List Piece

abbrev pub add_text : Bool → Bytes → Bytes → Bytes
add_text bump buf ch = (if bump && not (length buf == 0) then buf ++ bumper else buf) ++ ch

abbrev pub hand_on : Place → Progress → Progress
hand_on place s = record s {
  waiting = [];
  pieces = s.pieces ++ record { place = place; words = s.waiting } ∷ [];
}

module _ (x : LibXml) (env : Env x) (c : Config x) (is_html : Bool) (lower : Bytes → Bytes) where
  -- The name under which a tag is indexed.
  abbrev pub baked_of : Bytes → Bytes
  baked_of tag = elim (x.lookup Bytes c.tag_aliases (lower tag)) [
    | none ↦ lower tag
    | some alias ↦ alias
  ]

  -- Whether words around a tag are set apart: always in XML, at block elements in HTML.
  abbrev pub sets_off : Bytes → Bool → Bool
  sets_off tag before =
      if not is_html
      then true
      else if eq_bytes (lower tag) (text "br") || eq_bytes (lower tag) (text "img")
      then true
      else elim (env.html_inline (lower tag)) [ none ↦ before | some inline ↦ not inline ]

  abbrev pub place_of : Place → Bytes → Place
  place_of place tag = record { name = baked_of tag; context = place.context ++ 47 ∷ baked_of tag }

  -- An element whose name is a metaname hands on what waits before it and, at its end, its own text.
  -- Any other leaves its text where it stands.
  abbrev pub walk : Place → Content → Progress → Progress
  walk place end s = s
  walk place (chars ch rest) s =
      walk place rest (record s { waiting = add_text s.bump s.waiting ch; bump = false })
  walk place (element tag kids rest) s =
      let before : Progress = record s { bump = sets_off tag s.bump } in
      elim (x.lookup MetaName c.metanames (baked_of tag)) [
        | none ↦
            let after = walk place kids before in
            walk place rest (record after { bump = sets_off tag after.bump })
        | some meta ↦
            let after = walk (place_of place tag) kids (hand_on place before) in
            walk place rest
              (hand_on (place_of place tag) (record after { bump = sets_off tag after.bump }))
      ]

-- Text that is all white space is not stored.
abbrev pub store_text : Option Bytes → Bytes → Option Bytes
store_text old words = if all_ws words then old else elim old [
  | none ↦ some words
  | some b ↦ some (if length b == 0 then words else (b ++ bumper) ++ words)
]

-- A map from names to texts, once the pieces are stored.
abbrev pub store_pieces : List Piece → (Bytes → Option Bytes) → Bytes → Option Bytes
store_pieces [] texts = texts
store_pieces (p ∷ ps) texts =
    store_pieces ps λ j. if eq_bytes j p.place.name then store_text (texts j) p.words else texts j
