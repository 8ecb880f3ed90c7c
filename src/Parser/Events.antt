-- ===== src/Parser/Events.antt =====
-- src/libswish3/parser.c: the callbacks that libxml2 makes while it reads a document.
use libswish.Ctype.{to_lower}
use libswish.Config.Defaults.{default_metaname}
use libswish.LibXml.{LibXml}
use libswish.Parser.{Env, ParserData, flush_buffer, buffer_characters}
use libswish.Parser.Attributes.{open_tag}
use libswish.Parser.Tags.{close_tag}
use libswish.Prelude.{
  ◌+◌, ◌-◌, Bool, true, false, ◌&&◌, ◌||◌, List, [], ◌∷◌, map, Option, none, some, Bytes, text,
  eq_bytes, eq_option, Run, ok, ◌>>=◌, if◌then◌else◌, ◌==◌, length, take, drop,
}
use libswish.Str.{skip_ws, trim_ws}

-- `uri` is the name space of an element; the values of its attributes come as two pointers each.
pub data Event : Type 0 where
  start_element : Bytes → Option (List (Option Bytes)) → Event
  end_element : Bytes → Event
  start_element_ns : Bytes → Option Bytes → Option Bytes → List (Bytes × Bytes) → Event
  end_element_ns : Bytes → Option Bytes → Event
  characters : Bytes → Event
  comments : Bytes → Event
  end_document : Event

-- The array of names and values; a NULL stands for the name of an attribute that is empty, and the
-- value behind it is not set.
unfoldable pub att_pairs : List (Bytes × Bytes) → List (Option Bytes)
att_pairs [] = []
att_pairs ((att, []) ∷ attributes) = none ∷ none ∷ att_pairs attributes
att_pairs ((att, c ∷ value) ∷ attributes) = some att ∷ some (c ∷ value) ∷ att_pairs attributes

unfoldable pub sax_atts : List (Bytes × Bytes) → Option (List (Option Bytes))
unfolding att_pairs
sax_atts [] = none
sax_atts (a ∷ attributes) = some (att_pairs (a ∷ attributes))

-- `xmlStrcasecmp` on two strings.
unfoldable pub eq_nocase : Bytes → Bytes → Bool
unfolding eq_bytes
eq_nocase a b = eq_bytes (map to_lower a) (map to_lower b)

abbrev pub swish_command : Bytes
swish_command = text "SwishCommand"

-- The comment behind a `SwishCommand` that it starts with, if it does.
unfoldable pub command_of : Bytes → Option Bytes
unfolding eq_nocase skip_ws
command_of comment =
    if eq_nocase (take 12 comment) swish_command then some (skip_ws (drop 12 comment)) else none

-- `XINCLUDE_OLD_NS` and `XINCLUDE_NS`
unfoldable pub is_xinclude : Option Bytes → Bytes → Bool
is_xinclude uri localname =
    (eq_option uri (text "http://www.w3.org/2001/XInclude")
      || eq_option uri (text "http://www.w3.org/2003/XInclude"))
    && eq_bytes localname (text "include")

-- What an XInclude element refers to, and whether as text.
unfoldable pub xinclude_of : List (Option Bytes) → Option Bytes × Bool → Option Bytes × Bool
xinclude_of (some att ∷ value ∷ atts) found = xinclude_of atts (
  if eq_bytes att (text "href") then value else found.0,
  if eq_bytes att (text "parse") then eq_option value (text "text") else found.1,
)
xinclude_of _ found = found

module _ (x : LibXml) (env : Env x) where
  -- The commands `noindex` and `index`; any other comment that is no command sets the words around
  -- it apart.
  unfoldable pub do_command : Bool → Bytes → ParserData x → ParserData x
  unfolding eq_nocase
  do_command swishcmd_found comment_text pd =
      if eq_nocase comment_text (text "noindex")
      then record pd { ignore_content = pd.ignore_content + 1 }
      else if eq_nocase comment_text (text "index")
      then record pd { ignore_content = pd.ignore_content - 1 }
      else if swishcmd_found
      then pd
      else record pd { bump_word = true }

  unfoldable pub mycomments : Bytes → ParserData x → ParserData x
  unfolding skip_ws trim_ws command_of do_command
  mycomments cmt pd =
      let comment_text = trim_ws (skip_ws cmt) in
      if length comment_text == 0 then pd else elim (command_of comment_text) [
        | none ↦ do_command false comment_text pd
        | some command ↦ do_command true command pd
      ]

  -- `include` is `process_xinclude`.
  unfoldable pub follow_xinclude :
      (Bytes → Bool → ParserData x → Run (ParserData x))
      → Option Bytes
      → Bytes
      → List (Bytes × Bytes)
      → ParserData x
      → Run (ParserData x)
  unfolding is_xinclude sax_atts xinclude_of
  follow_xinclude include uri localname attributes pd = elim (sax_atts attributes) [
    | none ↦ ok pd
    | some atts ↦
        if is_xinclude uri localname
        then (elim (xinclude_of atts (none, false)).0 [
          | none ↦ ok pd
          | some target ↦
              if pd.config.flags.follow_xinclude
              then include target (xinclude_of atts (none, false)).1 pd
              else ok pd
        ])
        else ok pd
  ]

  unfoldable pub handle_event :
      (Bytes → Bool → ParserData x → Run (ParserData x)) → Event → ParserData x → Run (ParserData x)
  unfolding open_tag close_tag sax_atts follow_xinclude buffer_characters mycomments flush_buffer
  handle_event include (start_element name atts) pd = open_tag x env name atts none pd
  handle_event include (end_element name) pd = close_tag x env name none pd
  handle_event include (start_element_ns localname prefix uri attributes) pd =
      follow_xinclude include uri localname attributes pd
      >>= open_tag x env localname (sax_atts attributes) prefix
  handle_event include (end_element_ns localname prefix) pd = close_tag x env localname prefix pd
  handle_event include (characters ch) pd = buffer_characters x env ch pd
  handle_event include (comments cmt) pd = ok (mycomments cmt pd)
  handle_event include end_document pd = flush_buffer x env default_metaname default_metaname pd

  unfoldable pub handle_events :
      (Bytes → Bool → ParserData x → Run (ParserData x))
      → List Event
      → ParserData x
      → Run (ParserData x)
  unfolding handle_event
  handle_events include [] pd = ok pd
  handle_events include (e ∷ es) pd = handle_event include e pd >>= handle_events include es
