-- ===== src/Parser/Streams/Documents.antt =====
-- A stream of documents with headers is parsed as each of them is from a buffer.
use libswish.Config.Whole.{Config}
use libswish.DocInfo.{DocInfo, docinfo_check}
use libswish.Head.{Head, head_to_docinfo}
use libswish.Head.Lines.{render}
use libswish.LibXml.{LibXml, IsLibXml}
use libswish.Numbers.{ℤ}
use libswish.Parser.{ParserData}
use libswish.Parser.Documents.{Outside}
use libswish.Parser.Files.{types_of, parse_buffer}
use libswish.Parser.Streams.{Feed}
use libswish.Prelude.{ℕ, ◌+◌, ◌≡◌, List, [], ◌∷◌, ◌++◌, Bytes, Run, ok, ◌>>=◌, length}
use libswish.Parser.Streams.Lines.{Item, item_text}

module _ (x : LibXml) (laws : IsLibXml x) (o : Outside x) where
  -- What both ways of reading do with the header lines.
  abbrev checked_with : Config x → Head → ParserData x → Run (ParserData x)
  checked_with config head pd = head_to_docinfo head >>= λ docinfo.
      docinfo_check x o.env.wide (types_of x o config) docinfo >>= λ checked.
      ok (record pd { docinfo = checked })

  abbrev head_of : Item → Head
  head_of d = record { lines = d.headers; body_start = length (render d.headers) + 1 }

  Sized : Item → ParserData x → Type 0
  Sized d pd = pd.docinfo.size ≡ ℤ.pos (length d.body)

  -- The stream behind a document, with what it gave.
  abbrev after_item : Bytes → List (ℤ × ParserData x) → ℤ × ParserData x → Feed x o
  after_item t done r = record {
    stream = t;
    head_buf = [];
    nheaders = 0;
    config = (r.1).config;
    done = done ++ r ∷ [];
  }

  -- Each document from a buffer of its own, with the configuration that the one before it leaves.
  abbrev pub parse_each : ℕ → List Item → Config x → List (ℤ × ParserData x) → Run (Feed x o)
  parse_each fuel [] config done =
      ok (record { stream = []; head_buf = []; nheaders = 0; config = config; done = done })
  parse_each fuel (d ∷ ds) config done = parse_buffer x o fuel (item_text d) config >>= λ r.
      parse_each fuel ds (r.1).config (done ++ r ∷ [])
