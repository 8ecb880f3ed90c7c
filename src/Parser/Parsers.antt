-- ===== src/Parser/Parsers.antt =====
-- src/libswish3/parser.c: the parsers for XML, HTML and plain text.

use libswish.Config.Defaults.{default_metaname, title}
use libswish.DocInfo.{given}
use libswish.LibXml.{LibXml}
use libswish.Numbers.{ℤ}
use libswish.Parser.{ParserData, dom_char, flush_buffer, buffer_characters}
use libswish.Parser.Events.{handle_events}
use libswish.Prelude.{
  ℕ, ◌+◌, Bool, true, ◌||◌, [], Option, none, some, Bytes, text, eq_bytes, eq_option, Run, ok,
  croak, ◌>>=◌, ◌>>◌, guard, if◌then◌else◌, ◌==◌, leb, length, take, map, out_of_bounds,
  strdup_of_null, unknown_parser,
}
use libswish.Str.{at}
use libswish.TagStack.{push_tag_stack}
use libswish.TokenList.{up_to_nul}
use libswish.Ctype.{to_lower}
use libswish.Parser.Documents.{Outside, utf8}

-- `swish_xstrdup` of what `getenv` gives.
unfoldable pub env_encoding : Option Bytes → Run Bytes
env_encoding none = croak strdup_of_null
env_encoding (some enc) = ok enc

abbrev pub set_encoding_to : {x : LibXml} → Bytes → ParserData x → ParserData x
set_encoding_to enc pd = record pd { docinfo = record pd.docinfo { encoding = enc } }

-- The first byte of the parser's name, in either case.
unfoldable pub starts_with : ℕ → Bytes → Bool
starts_with c parser = at parser 0 == c || at parser 0 == c + 32

module _ (x : LibXml) (o : Outside x) where
  unfoldable pub document_encoding : Option Bytes → Run Bytes
  unfolding env_encoding
  document_encoding none = env_encoding o.swish_encoding
  document_encoding (some enc) = ok enc

  unfoldable pub set_encoding : Bytes → ParserData x → Run (ParserData x)
  unfolding env_encoding
  set_encoding buffer pd =
      if o.check_utf8 buffer
      then ok (set_encoding_to utf8 pd)
      else (env_encoding o.swish_encoding >>= λ enc. ok (set_encoding_to enc pd))

  unfoldable pub xml_parser :
      (Bytes → Bool → ParserData x → Run (ParserData x))
      → Bytes
      → ParserData x
      → Run (ℤ × ParserData x)
  unfolding handle_events document_encoding
  xml_parser include buffer pd = elim (o.xml_document buffer) [
    | none ↦ ok (ℤ.negsuc 0, pd)
    | some sax ↦ do
      pd' ← handle_events x o.env include sax.events pd
      enc ← document_encoding sax.encoding
      ok (sax.result, set_encoding_to enc pd')
  ]

  unfoldable pub html_parser :
      (Bytes → Bool → ParserData x → Run (ParserData x))
      → Bytes
      → ParserData x
      → Run (ℤ × ParserData x)
  unfolding handle_events document_encoding
  html_parser include buffer pd = elim (o.html_document buffer) [
    | none ↦ ok (ℤ.pos 0, pd)
    | some sax ↦ do
      enc ← document_encoding sax.encoding
      pd' ← handle_events x o.env include sax.events (set_encoding_to enc pd)
      ok (sax.result, pd')
  ]

  -- A text that is not UTF-8 is taken for Latin 1: `none` where that fails and the code gives up.
  -- The name of the encoding is compared in its first nine bytes, in either case.
  unfoldable pub to_utf8 : Bytes → Bytes → Option Bytes
  to_utf8 encoding buffer =
      if eq_bytes encoding utf8
      then some buffer
      else if eq_bytes (map to_lower (take 9 encoding)) (text "iso8859-1")
      then some (o.latin1 buffer).1
      else if eq_option o.swish_encoding encoding
      then (if (o.latin1 buffer).0 then some (o.latin1 buffer).1 else none)
      else some buffer

  -- A metaname is opened that is never closed, for the text and for the name of the file.
  unfoldable pub text_under : Bytes → Bytes → ParserData x → Run (ParserData x)
  unfolding push_tag_stack buffer_characters flush_buffer
  text_under name ch pd = do
    stack ← push_tag_stack pd.metastack name name dom_char
    pd' ← buffer_characters x o.env ch (record pd { metastack = stack })
    flush_buffer x o.env name name pd'

  -- `buffer` is the string, `whole` the bytes that its size counts.
  unfoldable pub txt_parser : Bytes → Bytes → ParserData x → Run (ℤ × ParserData x)
  unfolding set_encoding to_utf8 text_under
  txt_parser buffer whole pd = do
    pd₁ ← set_encoding buffer pd
    elim (to_utf8 pd₁.docinfo.encoding whole) [
      | none ↦ ok (ℤ.pos 100, pd₁)
      | some out ↦ text_under default_metaname out pd₁ >>= λ pd₂.
          text_under title (given pd₂.docinfo.uri []) pd₂ >>= λ pd₃. ok (ℤ.pos 0, pd₃)
    ]

  unfoldable pub by_parser :
      (Bytes → Bool → ParserData x → Run (ParserData x))
      → Bytes
      → Bytes
      → ℕ
      → ParserData x
      → Run (ℤ × ParserData x)
  unfolding starts_with xml_parser html_parser txt_parser
  by_parser include parser buffer size pd =
      if starts_with 72 parser
      then html_parser include (up_to_nul buffer) (record pd { is_html = true })
      else if starts_with 88 parser
      then guard (leb size (length buffer)) out_of_bounds
        >> xml_parser include (take size buffer) pd
      else if starts_with 84 parser
      then guard (leb size (length buffer)) out_of_bounds
        >> txt_parser (up_to_nul buffer) (take size buffer) pd
      else croak unknown_parser
