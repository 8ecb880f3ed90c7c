-- ===== src/Lib.antt =====
-- libswish3, a library that parses documents and configurations for a search engine.
--
-- The program. A configuration (config.c, property.c, metaname.c) holds tables of settings,
-- properties and metanames, which are libxml2 hash tables behind hash.c. A document comes from a
-- file or from a buffer with headers (parser.c, docinfo.c, mime_types.c, fs.c). While it is parsed,
-- the open tags stand on stacks (parser.c), the text of each property and metaname is collected in
-- named buffers (namedbuffer.c), and the text is split in words, which go to a list of tokens
-- (tokenizer.c). Strings, lists of strings and numbers are handled by string.c.
--
-- The files, with the code in src/libswish3/ that they model: Prelude      names and lemmas that
-- the others share; `Run` is the result of code that can end the program by `SWISH_CROAK`, write
-- out of bounds or follow a null pointer Ctype        the C library's character classes on single
-- bytes Str          string.c: white space, case, code points, Booleans Numbers      string.c:
-- `swish_string_to_int`, `swish_int_to_string` StringList   string.c: `swish_StringList`, from
-- `swish_stringlist_init` to `getword` LibXml       libxml2's hash tables and buffers: a parameter,
-- its laws, and an instance Hash         hash.c NamedBuffer  namedbuffer.c TokenList
-- tokenizer.c: `swish_TokenList`, `swish_TokenIterator` Tokenizer    tokenizer.c:
-- `swish_tokenize_ascii`, `strip_ascii_chrs` TagStack     parser.c: `push_tag_stack`,
-- `pop_tag_stack`, `flatten_tag_stack` Io           io.c: `swish_io_slurp_fh`,
-- `swish_io_slurp_file_len`, `swish_io_slurp_gzfile_len`, `no_nulls`,
-- `swish_io_count_operable_file_lines`, `swish_io_is_skippable_line` Fs           fs.c: extensions
-- and paths Mime         mime_types.c: `swish_mime_defaults` DocInfo      docinfo.c, and the
-- look-ups of mime_types.c Head         parser.c: `buf_to_head`, `head_to_docinfo` Parser
-- parser.c: the state of a parse; `flush_buffer`, `buffer_characters`, `bake_tag`, `open_tag`,
-- `close_tag`, the callbacks of the handler, `docparser` with the parsers for XML, HTML and text,
-- `process_xinclude`, `swish_parse_file`, `swish_parse_buffer`, `swish_parse_fh` Config
-- config.c: `swish_config_init`, `swish_config_merge`, `swish_config_set_default`; property.c,
-- metaname.c Tests        examples of the theorems and runs of the definitions
--
-- The functions keep the names of the source, without the prefix `swish_`. A C string is the list
-- of its bytes without the NUL, a pointer that may be NULL an option, a buffer its contents, and a
-- struct a record. A function that changes an object returns the changed object. A write to a block
-- is guarded by the size that the source allocates, and gives `out_of_bounds` behind it; a read
-- behind the NUL does the same where it can happen. An `int` is an integer whose conversion from
-- `long` wraps at 32 bits; the counters of lists and tokens are natural numbers, since no text is
-- long enough to make them wrap.
--
-- Loops are by recursion on the string or list that they walk. `swish_stringlist_build` takes a
-- word off the line in each round, and is given one round more than the line has bytes; the digits
-- of a number n are printed in at most n + 1 rounds. The loop that inflates a file is given 33
-- rounds: its block grows threefold in each and its size is read at 32 bits. The words of an
-- included document are copied in one round more than there are words, and a stream of documents is
-- read in one round more than it has bytes. How many documents may be included in one another is
-- given by the caller of `parse_file`, `parse_buffer` and `parse_fh`, since the code sets no bound.
--
-- The parser is given the events of a document, as libxml2 reports them; `Parser.Content` has a
-- document as a tree, its events, and what the named buffers and the tokenizer should be given of
-- it by recursion on the tree.
--
-- Parameters, with their documented behaviour as hypotheses: libxml2's hash tables and buffers as
-- long as memory lasts, `xmlUTF8Size`, the C library's conversions between multibyte and wide
-- strings, what `stat` says of a file and `setlocale` of the locale. `swish_tokenize_utf8`, which
-- walks the text by a copy of another project's library, is a parameter of `tokenize`. The parser has two records of what it
-- calls: `Env` with the tokenizer of its analyzer and what libxml2 says of an HTML element, `Outside`
-- with the contents of files, the events and the encoding of a text, and the conversion from Latin 1.
--
-- Not modelled: reference counts and the freeing of memory, but for the tag of the parser and the
-- pointers that a merge of properties leaves behind; debugging output and warnings; header.c;
-- the opening of files in io.c.
pub mod Prelude
pub mod Ctype
pub mod Str
pub mod Numbers
pub mod StringList
pub mod LibXml
pub mod Hash
pub mod NamedBuffer
pub mod TokenList
pub mod Tokenizer
pub mod TagStack
pub mod Io
pub mod Fs
pub mod Mime
pub mod DocInfo
pub mod Head
pub mod Config
pub mod Parser
pub mod Tests
