-- ===== src/Parser/Files.antt =====
-- src/libswish3/parser.c: `docparser`, the documents that a document includes, and documents from
-- files and from strings.
use libswish.Config.Whole.{Config}
use libswish.DocInfo.{
  DocInfo, docinfo_init, docinfo_check, docinfo_from_filesystem, Types, given, is_zero,
}
use libswish.Fs.{get_path}
use libswish.Head.{buf_to_head, head_to_docinfo}
use libswish.Io.{slurp_file_len, slurp_gzfile_len}
use libswish.LibXml.{LibXml}
use libswish.Numbers.{ℤ}
use libswish.Parser.{ParserData, flush_buffer}
use libswish.Parser.Tags.{top}
use libswish.Prelude.{
  ℕ, zero, suc, Bool, false, not, ◌&&◌, [], ◌∷◌, ◌++◌, Option, none, some, Bytes, text, Run, ok,
  croak, ◌>>=◌, ◌>>◌, if◌then◌else◌, ◌==◌, length, drop, out_of_bounds, guard, leb, out_of_fuel,
  out_of_memory, bad_uri,
}
use libswish.Str.{at}
use libswish.TokenList.{up_to_nul}
use libswish.Parser.Documents.{Outside, init_parser_data, xinclude_handler}
use libswish.Parser.Parsers.{by_parser}

module _ (x : LibXml) (o : Outside x) where
  -- The sizes are below 2 ^ 31, which the conversion to `int` keeps. A negative one asks for more
  -- memory than there is.
  unfoldable pub size_of : ℤ → Run ℕ
  size_of (ℤ.pos n) = ok n
  size_of (ℤ.negsuc n) = croak out_of_memory

  -- The text of a file, and the document with the size of the text if the file was compressed.
  unfoldable pub slurp : Bytes → ParserData x → Run (Bytes × ParserData x)
  unfolding size_of slurp_gzfile_len slurp_file_len up_to_nul
  slurp filename pd = size_of pd.docinfo.size >>= λ flen.
      if pd.docinfo.is_gzipped
      then (slurp_gzfile_len (o.inflate_file filename) flen false >>= λ buffer. ok (
        buffer,
        record pd { docinfo = record pd.docinfo { size = ℤ.pos (length (up_to_nul buffer)) } },
      ))
      else (slurp_file_len (o.read_file filename) flen false >>= λ buffer. ok (buffer, pd))

  -- `docparser` of a file.
  unfoldable pub parse_named :
      (Bytes → Bool → ParserData x → Run (ParserData x))
      → Bytes
      → ParserData x
      → Run (ℤ × ParserData x)
  unfolding slurp size_of by_parser
  parse_named include filename pd = if is_zero pd.docinfo.size then ok (ℤ.pos 1, pd) else do
    r ← slurp filename pd
    size ← size_of r.1.docinfo.size
    by_parser x o include (given pd.docinfo.parser []) r.0 size r.1

  -- `docparser` of a string. An empty one is refused only if the document has no size either.
  unfoldable pub parse_string :
      (Bytes → Bool → ParserData x → Run (ParserData x))
      → Bytes
      → ParserData x
      → Run (ℤ × ParserData x)
  unfolding by_parser
  parse_string include buffer pd =
      if length buffer == 0 && is_zero pd.docinfo.size
      then ok (ℤ.pos 1, pd)
      else by_parser x o include (given pd.docinfo.parser []) (buffer ++ 0 ∷ []) (length buffer) pd

  -- In a table that is NULL nothing is found.
  abbrev pub types_of : Config x → Types x
  types_of config = record {
    mimes = elim config.mimes [ none ↦ x.create Bytes | some mimes ↦ mimes ];
    parsers = config.parsers;
  }

  -- The file that an include refers to, seen from the document.
  unfoldable pub xinclude_uri : Bytes → ParserData x → Run Bytes
  unfolding get_path
  xinclude_uri uri pd =
      if at uri 0 == 47
      then ok uri
      else (let path : Option Bytes = elim pd.docinfo.uri [ none ↦ none | some u ↦ get_path u ] in
          elim (o.build_uri uri (given path (text "./"))) [
            | none ↦ croak bad_uri
            | some xuri ↦ ok xuri
          ])

  -- A file that is included as text is parsed as text.
  unfoldable pub included_as : Bool → DocInfo → DocInfo
  included_as is_text i = if is_text then record i { parser = some (text "TXT") } else i

  -- At most `fuel` includes are followed into one another, which the code does without an end.
  unfoldable pub process_xinclude : ℕ → Bytes → Bool → ParserData x → Run (ParserData x)
  unfolding xinclude_uri top flush_buffer init_parser_data docinfo_from_filesystem included_as
      parse_named xinclude_handler
  process_xinclude zero uri is_text pd = croak out_of_fuel
  process_xinclude (suc fuel) uri is_text pd = do
    xuri ← xinclude_uri uri pd
    head ← top pd.metastack
    pd' ← flush_buffer x o.env head.baked head.context pd
    child ← init_parser_data x pd'.config docinfo_init
    known ← docinfo_from_filesystem x o.env.wide o.fs (types_of pd'.config) xuri docinfo_init
    if not known.0
        then ok pd'
        else (parse_named (process_xinclude fuel) xuri
              (record child { docinfo = included_as is_text known.1 })
            >>= λ r. xinclude_handler x r.1 pd')

  -- `swish_parse_file`: the value of the parser, none for a file that is not there, and what the
  -- handler is given.
  unfoldable pub parse_file : ℕ → Bytes → Config x → Run (Option (ℤ × ParserData x))
  unfolding init_parser_data docinfo_from_filesystem parse_named process_xinclude
  parse_file fuel filename config = do
    pd ← init_parser_data x config docinfo_init
    known ← docinfo_from_filesystem x o.env.wide o.fs (types_of config) filename docinfo_init
    if not known.0
        then ok none
        else (parse_named (process_xinclude fuel) filename (record pd { docinfo = known.1 })
            >>= λ r. ok (some r))

  -- `swish_parse_buffer`: behind the last byte of the buffer stands its NUL, and the body of a buffer
  -- that ends with its headers would begin behind that.
  unfoldable pub parse_buffer : ℕ → Bytes → Config x → Run (ℤ × ParserData x)
  unfolding buf_to_head init_parser_data head_to_docinfo docinfo_check parse_string process_xinclude
  parse_buffer fuel buf config = do
    head ← buf_to_head buf
    pd ← init_parser_data x config docinfo_init
    docinfo ← head_to_docinfo head
    checked ← docinfo_check x o.env.wide (types_of config) docinfo
    guard (leb head.body_start (length buf)) out_of_bounds
    parse_string (process_xinclude fuel) (drop head.body_start buf)
        (record pd { docinfo = checked })
