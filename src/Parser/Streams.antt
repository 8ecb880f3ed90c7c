-- ===== src/Parser/Streams.antt =====
-- src/libswish3/parser.c: `swish_parse_fh`, documents with headers from a stream.
pub mod Rounds
pub mod Lines
pub mod Documents
use libswish.Config.Whole.{Config}
use libswish.DocInfo.{DocInfo, docinfo_init, docinfo_check, given}
use libswish.Head.{max_str_len, buf_to_head, head_to_docinfo}
use libswish.Io.{slurp_fh}
use libswish.LibXml.{LibXml}
use libswish.Numbers.{ℤ}
use libswish.Parser.{ParserData, append_text}
use libswish.Parser.Documents.{Outside, init_parser_data}
use libswish.Parser.Files.{size_of, types_of, process_xinclude}
use libswish.Parser.Parsers.{by_parser}
use libswish.Prelude.{
  ℕ, zero, suc, ◌+◌, ◌-◌, Bool, true, false, ◌&&◌, List, [], ◌∷◌, ◌++◌, Option, none, some, Bytes,
  Run, ok, croak, ◌>>=◌, if◌then◌else◌, ◌==◌, leb, length, take, drop, out_of_fuel,
  not_enough_headers, unparsed_headers,
}
use libswish.Str.{skip_ws, trim_ws}
use libswish.TokenList.{up_to_nul}

-- `fgets` for at most `n` bytes: what it read, which ends behind a newline, and the rest of the
-- stream.
unfoldable pub fgets : ℕ → Bytes → Bytes × Bytes
fgets zero stream = ([], stream)
fgets (suc n) [] = ([], [])
fgets (suc n) (c ∷ stream) =
    let rest = fgets n stream in if c == 10 then (c ∷ [], stream) else (c ∷ rest.0, rest.1)

-- `strrchr`: what stands before the last `c`.
unfoldable pub before_last : ℕ → Bytes → Option Bytes
before_last c [] = none
before_last c (d ∷ s) = elim (before_last c s) [
  | some b ↦ some (d ∷ b)
  | none ↦ if d == c then some [] else none
]

-- A line without the white space around it. White space at its end is left in one that has no
-- newline.
unfoldable pub trimmed_line : Bytes → Bytes
unfolding skip_ws before_last trim_ws
trimmed_line ln = elim (before_last 10 (skip_ws ln)) [
  | none ↦ skip_ws ln
  | some line ↦ trim_ws line
]

module _ (x : LibXml) (o : Outside x) where
  -- The state of the loop. `done` are the documents so far, as the handler is given them, with what
  -- the parser returned; `file_cnt` is their number.
  pub record Feed : Type 0 where
    pub stream : Bytes
    pub head_buf : Bytes
    pub nheaders : ℕ
    pub config : Config x
    pub done : List (ℤ × ParserData x)

  -- The document that the headers announce.
  unfoldable pub announced : Bytes → Config x → Run (ParserData x)
  unfolding init_parser_data buf_to_head head_to_docinfo docinfo_check
  announced head_buf config = do
    pd ← init_parser_data x config docinfo_init
    head ← buf_to_head head_buf
    docinfo ← head_to_docinfo head
    checked ← docinfo_check x o.env.wide (types_of x o config) docinfo
    ok (record pd { docinfo = checked })

  -- `docparser` of what was read. The size is not 0, so that no document is passed over as empty.
  unfoldable pub parse_read : ℕ → Bytes → ℕ → ParserData x → Run (ℤ × ParserData x)
  unfolding by_parser process_xinclude
  parse_read fuel read_buffer size pd =
      by_parser x o (process_xinclude x o fuel) (given pd.docinfo.parser []) read_buffer size pd

  unfoldable pub read_document : ℕ → Feed → Run Feed
  unfolding announced size_of slurp_fh parse_read
  read_document fuel feed = do
    pd ← announced feed.head_buf feed.config
    size ← size_of x o pd.docinfo.size
    read_buffer ← slurp_fh (take size feed.stream) size false
    r ← parse_read fuel read_buffer size pd
    ok (record {
      stream = drop size feed.stream;
      head_buf = [];
      nheaders = 0;
      config = (r.1).config;
      done = feed.done ++ r ∷ [];
    })

  -- One round of the loop, with the line that was read.
  unfoldable pub read_line : ℕ → Bytes → Feed → Run Feed
  unfolding trimmed_line read_document append_text
  read_line fuel ln feed =
      let line = trimmed_line ln in
      if leb 2 feed.nheaders && length line == 0
      then read_document fuel feed
      else if length line == 0
      then croak not_enough_headers
      else (append_text x feed.head_buf line >>= λ buf. append_text x buf (10 ∷ []) >>= λ head_buf'.
          ok (record feed { head_buf = head_buf'; nheaders = feed.nheaders + 1 }))

  unfoldable pub read_lines : ℕ → ℕ → Feed → Run Feed
  unfolding fgets up_to_nul read_line
  read_lines fuel zero feed = croak out_of_fuel
  read_lines fuel (suc rounds) feed =
      let got = fgets (max_str_len - 1) feed.stream in
      if length got.0 == 0
      then (if length feed.head_buf == 0 then ok feed else croak unparsed_headers)
      else (read_line fuel (up_to_nul got.0) (record feed { stream = got.1 })
          >>= read_lines fuel rounds)

  -- `swish_parse_fh`: as many rounds as the stream has bytes, and one more.
  unfoldable pub parse_fh : ℕ → Bytes → Config x → Run Feed
  unfolding read_lines
  parse_fh fuel stream config =
      read_lines fuel (suc (length stream))
        (record { stream = stream; head_buf = []; nheaders = 0; config = config; done = [] })
