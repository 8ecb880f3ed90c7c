-- ===== src/Tests/Documents.antt =====
-- Headers, documents and tags: src/libswish3/parser.c and docinfo.c.
use libswish.Ctype.{is_space, to_lower}
use libswish.DocInfo.{
  DocInfo, docinfo_init, FileSystem, Types, default_mime, default_parser, given, is_minus_one,
  is_zero, mime_get_type, mime_get_parser, docinfo_check, docinfo_from_filesystem,
}
use libswish.DocInfo.Checked.{
  Checks, docinfo_check-Checks, docinfo_check_guards, dot_gz, docinfo_from_filesystem-gz,
}
use libswish.Fs.{get_file_ext}
use libswish.Head.{head_to_docinfo, buf_to_head}
use libswish.Head.Fields.{header, document_lines, document, head_to_docinfo-document}
use libswish.Head.Lines.{IsHeader, IsLineChar, render, buf_to_head-render}
use libswish.LibXml.Assoc.{assoc, put, lookup-put}
use libswish.Numbers.{ℤ, string_to_int}
use libswish.Prelude.{
  ℕ, ◌+◌, ◌<◌, ◌≡◌, ◌≢◌, refl, true, false, List, [], ◌∷◌, ◌++◌, none, some, Bytes, text, All, ok,
  ◌>>=◌, Returns, length, drop, arith,
}
use libswish.Str.{Wide, skip_ws, str_tolower}
use libswish.TagStack.{TagStack, push_tag_stack}
use libswish.TagStack.Contexts.{Pushes, push_tag_stack-Pushes}

abbrev latin : Wide
latin = record { mbstowcs = λ s. some s; wcstombs = λ s. some s; towlower = λ c. c }

abbrev types : Types assoc
types = record {
  mimes = assoc.create Bytes;
  parsers = put (assoc.create Bytes) default_parser (text "HTML");
}

abbrev found : DocInfo
found = record docinfo_init { uri = some (text "a/b.xml"); size = ℤ.pos 12 }

found_uri : found.uri ≡ some (text "a/b.xml")
unfolding docinfo_init
found_uri = refl

found_size : (is_minus_one found.size ≡ false) × (is_zero found.size ≡ false)
unfolding docinfo_init is_minus_one is_zero
found_size = (refl, refl)

found_ext : get_file_ext latin (text "a/b.xml") ≡ ok (some (text "xml"))
unfolding get_file_ext to_lower str_tolower
found_ext = refl

default_there : assoc.lookup Bytes types.parsers default_parser ≡ some (text "HTML")
default_there = lookup-put (assoc.create Bytes) default_parser (text "HTML")

docinfo_check-Checks_example :
    Returns (docinfo_check assoc latin types found) (Checks assoc types found (some (text "xml")))
docinfo_check-Checks_example =
    docinfo_check-Checks assoc latin types found (text "a/b.xml") (some (text "xml")) (text "HTML")
      found_uri found_size.0 found_size.1 found_ext default_there

docinfo_check_guards_example :
    (found.uri ≢ none) × (is_minus_one found.size ≡ false) × (is_zero found.size ≡ false)
docinfo_check_guards_example =
    docinfo_check_guards assoc latin types found docinfo_check-Checks_example.0
      docinfo_check-Checks_example.1

abbrev files : FileSystem
files = record {
  file_exists = λ name. true;
  file_mtime = λ name. ℤ.pos 1000;
  file_size = λ name. ℤ.pos 12;
}

docinfo_from_filesystem-gz_example :
    Returns
      (docinfo_from_filesystem assoc latin files types (text "a/b.xml" ++ dot_gz) found)
      (λ (there, r).
        (there ≡ true)
        × (r ≡ record found {
          is_gzipped = true;
          ext = some (text "xml");
          uri = some (text "a/b.xml" ++ dot_gz);
          mtime = ℤ.pos 1000;
          size = ℤ.pos 12;
          mime = some (mime_get_type assoc types (some (text "xml")));
          parser = r.parser;
        })
        × (ok (given r.parser [])
            ≡ mime_get_parser assoc types (mime_get_type assoc types (some (text "xml")))))
docinfo_from_filesystem-gz_example =
    docinfo_from_filesystem-gz assoc latin files types (text "a/b.xml") found (some (text "xml"))
      (text "HTML") refl found_ext default_there

abbrev uri : Bytes
uri = text "/x"

abbrev lines : List Bytes
lines = document_lines uri default_mime (text "HTML") (text "12")

-- Bytes that are neither NUL nor newline.
line_char : (c : ℕ) → 10 < c → IsLineChar c
line_char c h = (λ e. absurd (omega (arith, e)), λ e. absurd (omega (arith, e)))

lines-IsHeader : All IsHeader lines
lines-IsHeader = (
  record { some_bytes = omega arith; short = omega arith; chars = ground arith },
  (
    record { some_bytes = omega arith; short = omega arith; chars = ground arith },
    (
      record { some_bytes = omega arith; short = omega arith; chars = ground arith },
      (record { some_bytes = omega arith; short = omega arith; chars = ground arith }, tt),
    ),
  ),
)

no_space : (c : ℕ) (s : Bytes) → is_space c ≡ false → skip_ws (c ∷ s) ≡ c ∷ s
unfolding skip_ws
no_space c s h = rw h refl

slash : is_space 47 ≡ false
unfolding is_space
slash = refl

twelve : string_to_int (text "12") ≡ ok (ℤ.pos 12)
unfolding string_to_int is_space skip_ws
twelve = refl

head_to_docinfo-document_example :
    (buf_to_head (render lines ++ 10 ∷ text "body") >>= head_to_docinfo)
    ≡ ok (document uri default_mime (text "HTML") (text "12") (ℤ.pos 12))
unfolding skip_ws is_space
head_to_docinfo-document_example =
    head_to_docinfo-document uri default_mime (text "HTML") (text "12") (text "body") (ℤ.pos 12)
      lines-IsHeader refl refl refl refl twelve

buf_to_head-render_example :
    let start = length (render lines) + 1 in
    (buf_to_head (render lines ++ 10 ∷ text "body")
      ≡ ok (record { lines = lines; body_start = start }))
    × (drop start (render lines ++ 10 ∷ text "body") ≡ text "body")
buf_to_head-render_example =
    buf_to_head-render (header (text "Content-Location") uri) (drop 1 lines) (text "body")
      lines-IsHeader (omega arith)

abbrev no_tags : TagStack
no_tags = record { head = []; count = 0 }

push_tag_stack-Pushes_example :
    Returns
      (push_tag_stack no_tags (text "TITLE") (text "swishtitle") 46)
      (Pushes 46 no_tags (text "TITLE") (text "swishtitle"))
push_tag_stack-Pushes_example =
    push_tag_stack-Pushes 46 no_tags (text "TITLE") (text "swishtitle")
      (record { count_is = refl; paths = tt })
