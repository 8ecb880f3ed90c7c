-- ===== src/Tests/Streams.antt =====
-- Documents from a stream: src/libswish3/parser.c.

use libswish.Config.{MetaName}
use libswish.Config.Defaults.{title}
use libswish.LibXml.{find}
use libswish.NamedBuffer.{nb_get_value}
use libswish.Parser.Content.{store_pieces}
use libswish.Parser.Content.Plain.{plain_pieces, txt_parser-pieces}
use libswish.Parser.Content.State.{tokenize_pieces}
use libswish.Parser.Content.Whole.{no_texts, no_tokens}
use libswish.Parser.Parsers.{txt_parser}
use libswish.Ctype.{is_space, is_cntrl, is_punct, to_lower}
use libswish.DocInfo.{DocInfo, FileSystem, docinfo_init}
use libswish.Head.Fields.{header}
use libswish.Head.Lines.{render}
use libswish.Io.Counting.{
  IsFileLine, operable, count_operable_file_lines, count_operable_file_lines-render,
}
use libswish.LibXml.Assoc.{assoc, assoc-IsLibXml}
use libswish.Numbers.{ℤ}
use libswish.Parser.Documents.{Outside, init_parser_data}
use libswish.Parser.Streams.{Feed, read_lines}
use libswish.Parser.Streams.Lines.{Item, stream_of}
use libswish.Parser.Streams.Rounds.{Reads, read_lines-Reads}
use libswish.Prelude.{
  ℕ, Run, croak, All, false, eq_bytes, Returns, ◌≢◌, ◌≡◌, refl, true, [], ◌∷◌, ◌++◌, none, some,
  Bytes, text, ok, ◌>>=◌, arith,
}
use libswish.Str.{is_ascii}
use libswish.TokenList.{TokenIterator, add_token, set_token, cache_context, grown, token_list_init}
use libswish.Tokenizer.{
  tokenize, tokenize_ascii, scan, scan_char, end_token, add_to_token, start_token, put_char, bump,
  next, strip_ascii_chrs, strip_end, strip_start, ascii_word_table, ascii_end_table,
  ascii_start_table, is_ignore_word_ascii, is_ignore_end_ascii, is_ignore_start_ascii,
}
use libswish.Hash.{hash_exists_or_add, hash_exists, hash_add, hash_fetch}
use libswish.Tests.Parsing.{env, config, config-IsPlain, default_is_known}

abbrev files : FileSystem
files = record {
  file_exists = λ name. true;
  file_mtime = λ name. ℤ.pos 1000;
  file_size = λ name. ℤ.pos 12;
}

-- No XML and HTML can be read, and every text is UTF-8.
abbrev outside : Outside assoc
outside = record {
  env = env;
  fs = files;
  read_file = λ name. text "text";
  inflate_file = λ name. text "text";
  xml_document = λ s. none;
  html_document = λ s. none;
  check_utf8 = λ s. true;
  latin1 = λ s. (true, s);
  swish_encoding = some (text "UTF-8");
  build_uri = λ uri path. some (path ++ uri);
}

abbrev location : Bytes
location = header (text "Content-Location") (text "/x")

abbrev size : Bytes
size = header (text "Content-Length") (text "2")

abbrev item : Item
item = record { headers = location ∷ size ∷ []; body = text "hi" }

abbrev info : DocInfo
info = record docinfo_init { uri = some (text "/x"); size = ℤ.pos 2 }

abbrev feed : Feed assoc outside
feed = record {
  stream = stream_of (item ∷ []);
  head_buf = [];
  nheaders = 0;
  config = config;
  done = [];
}

read_lines-Reads_example : Reads assoc outside 1 feed (read_lines assoc outside 1 100 feed)
read_lines-Reads_example = read_lines-Reads assoc outside 1 100 feed (omega arith)

title_is_known : assoc.lookup MetaName config.metanames title ≢ none
unfolding assoc find eq_bytes
title_is_known e = absurd cc

abbrev named : DocInfo
named = record docinfo_init { uri = some (text "/x") }

abbrev value_or : {A : Type 0} → A → Run A → A
value_or d (ok a) = a
value_or d (croak e) = d

abbrev text_tokens : ℕ × TokenIterator assoc
text_tokens =
    value_or (0, no_tokens assoc env config false (λ s. s))
      (tokenize_pieces assoc env config false (λ s. s)
        (plain_pieces assoc assoc-IsLibXml outside config config-IsPlain (text "hi") named)
        (docinfo_init.nwords, no_tokens assoc env config false (λ s. s)))

tokenizes_text :
    tokenize_pieces assoc env config false
      (λ s. s)
      (plain_pieces assoc assoc-IsLibXml outside config config-IsPlain (text "hi") named)
      (docinfo_init.nwords, no_tokens assoc env config false (λ s. s))
    ≡ ok text_tokens
unfolding assoc find eq_bytes to_lower tokenize tokenize_ascii scan scan_char end_token add_to_token
    start_token put_char bump next strip_ascii_chrs strip_end strip_start ascii_word_table
    ascii_end_table ascii_start_table is_ignore_word_ascii is_ignore_end_ascii is_ignore_start_ascii
    is_cntrl is_punct is_space is_ascii add_token set_token cache_context grown hash_exists_or_add
    hash_exists hash_add hash_fetch token_list_init
tokenizes_text = refl

txt_parser-pieces_example :
    Returns
      (init_parser_data assoc config named >>= txt_parser assoc outside (text "hi") (text "hi"))
      (λ r.
        (r.0 ≡ ℤ.pos 0)
        × ((j : Bytes)
            → nb_get_value assoc (r.1).metanames j
              ≡ store_pieces
                  (plain_pieces assoc assoc-IsLibXml outside config config-IsPlain
                    (text "hi")
                    named)
                  (no_texts assoc env config false (λ s. s))
                  j)
        × (tokenize_pieces assoc env config false
              (λ s. s)
              (plain_pieces assoc assoc-IsLibXml outside config config-IsPlain (text "hi") named)
              (docinfo_init.nwords, no_tokens assoc env config false (λ s. s))
            ≡ ok (((r.1).docinfo).nwords, (r.1).token_iterator))
        × ((r.1).meta_buf ≡ []))
txt_parser-pieces_example =
    txt_parser-pieces assoc assoc-IsLibXml outside config config-IsPlain (text "hi") (text "hi")
      named text_tokens default_is_known title_is_known refl tokenizes_text

file_lines : All IsFileLine (text "a" ∷ text "# b" ∷ [])
file_lines = (
  record { short = omega arith; chars = ground arith },
  (record { short = omega arith; chars = ground arith }, tt),
)

count_operable_file_lines-render_example :
    count_operable_file_lines (some (render (text "a" ∷ text "# b" ∷ [])))
    ≡ ok (operable (text "a" ∷ text "# b" ∷ []))
count_operable_file_lines-render_example =
    count_operable_file_lines-render (text "a" ∷ text "# b" ∷ []) file_lines

counts_one : operable (text "a" ∷ text "# b" ∷ []) ≡ 1
unfolding is_space
counts_one = refl
