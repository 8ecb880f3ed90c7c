-- ===== src/Parser/Streams/Lines.antt =====
-- The lines of headers in a stream, and how `swish_parse_fh` reads them.
use libswish.Config.Whole.{Config}
use libswish.Ctype.{is_space}
use libswish.DocInfo.{DocInfo}
use libswish.Head.{Head, max_headers, max_str_len, buf_to_head, head_to_docinfo}
use libswish.Head.Lines.{IsLineChar, IsHeader, render, buf_to_head-render, buf_to_head-alone}
use libswish.Io.{no_nulls, slurp_fh}
use libswish.LibXml.{LibXml, IsLibXml}
use libswish.Numbers.{ℤ}
use libswish.Parser.{ParserData, append_text}
use libswish.Parser.Documents.{Outside}
use libswish.Parser.Streams.{
  fgets, before_last, trimmed_line, Feed, read_document, read_line, read_lines,
}
use libswish.Prelude.{
  ℕ, zero, suc, ◌+◌, ◌-◌, ◌≤◌, ◌<◌, ◌≡◌, refl, sym, ◌∙◌, ap, ap₂, false, List, [], ◌∷◌, ◌++◌,
  append_assoc, append-nil, none, some, Bytes, ok, ◌>>=◌, ◌==◌, length, drop, length-append, All,
  arith,
}
use libswish.Str.{skip_ws, trim_ws}
use libswish.TokenList.{up_to_nul}
use libswish.TokenList.Layout.{IsText, up_to_nul-text}

-- A header line that is as long as `fgets` reads with its newline, and has no white space around it.
pub record IsLine (h : Bytes) : Type 0 where
  pub first : ℕ
  pub others : Bytes
  pub starts : h ≡ first ∷ others
  pub tight : is_space first ≡ false
  pub trimmed : trim_ws h ≡ h
  pub short : length h ≤ 2046
  pub chars : All IsLineChar h

pub record Item : Type 0 where
  pub headers : List Bytes
  pub body : Bytes

abbrev pub item_text : Item → Bytes
item_text d = render d.headers ++ 10 ∷ d.body

abbrev pub stream_of : List Item → Bytes
stream_of [] = []
stream_of (d ∷ ds) = item_text d ++ stream_of ds

-- Two to six headers, which give the size of the body, and a body without NULs.
pub record IsItem (d : Item) : Type 0 where
  pub lines : All IsLine d.headers
  pub enough : 2 ≤ length d.headers
  pub few : length d.headers ≤ max_headers
  pub info : DocInfo
  pub reads : (buf_to_head (render d.headers) >>= head_to_docinfo) ≡ ok info
  pub sized : info.size ≡ ℤ.pos (length d.body)
  pub nonempty : 0 < length d.body
  pub is_text : IsText d.body

pub fgets-line :
    (n : ℕ) (h t : Bytes)
    → All IsLineChar h
    → length h < n
    → fgets n (h ++ 10 ∷ t) ≡ (h ++ 10 ∷ [], t)
unfolding fgets
fgets-line zero h t c le = absurd (omega arith)
fgets-line (suc n) [] t c le = refl
fgets-line (suc n) (d ∷ h) t c le = ground (arith, c.0.0, fgets-line n h t c.1 (omega arith))

pub up_to_nul-line : (h : Bytes) → All IsLineChar h → up_to_nul (h ++ 10 ∷ []) ≡ h ++ 10 ∷ []
unfolding up_to_nul
up_to_nul-line [] c = refl
up_to_nul-line (d ∷ h) c = ground (arith, c.0.1, up_to_nul-line h c.1)

before_last-line : (h : Bytes) → All IsLineChar h → before_last 10 (h ++ 10 ∷ []) ≡ some h
unfolding before_last
before_last-line [] c = refl
before_last-line (d ∷ h) c = rw (before_last-line h c.1) refl

skip_ws-tight : (c : ℕ) (s : Bytes) → is_space c ≡ false → skip_ws (c ∷ s) ≡ c ∷ s
unfolding skip_ws
skip_ws-tight c s h = ground (arith, h)

trimmed_line-line : (h : Bytes) → IsLine h → trimmed_line (h ++ 10 ∷ []) ≡ h
unfolding trimmed_line
trimmed_line-line h l =
    let skipped : skip_ws (h ++ 10 ∷ []) ≡ h ++ 10 ∷ [] =
      ap (λ s. skip_ws (s ++ 10 ∷ [])) l.starts
      ∙ skip_ws-tight l.first (l.others ++ 10 ∷ []) l.tight
      ∙ ap (λ s. s ++ 10 ∷ []) (sym l.starts) in
    ap (λ s. elim (before_last 10 s) [ none ↦ s | some line ↦ trim_ws line ]) skipped
    ∙ ap (λ b. elim b [ none ↦ h ++ 10 ∷ [] | some line ↦ trim_ws line ])
        (before_last-line h l.chars)
    ∙ l.trimmed

IsLine-IsHeader : (h : Bytes) → IsLine h → IsHeader h
IsLine-IsHeader h l = record {
  some_bytes = ground (arith, l.starts);
  short = omega (arith, l.short);
  chars = l.chars;
}

IsLine-IsHeaders : (hs : List Bytes) → All IsLine hs → All IsHeader hs
IsLine-IsHeaders [] l = tt
IsLine-IsHeaders (h ∷ hs) l = (IsLine-IsHeader h l.0, IsLine-IsHeaders hs l.1)

no_nulls-IsText : (s : Bytes) → IsText s → no_nulls (s ++ 0 ∷ []) (length s) ≡ s ++ 0 ∷ []
unfolding no_nulls
no_nulls-IsText s t = rw (up_to_nul-text s [] t) (ground arith)

pub slurp_fh-IsText : (s : Bytes) → IsText s → slurp_fh s (length s) false ≡ ok (s ++ 0 ∷ [])
unfolding slurp_fh
slurp_fh-IsText s t = ground (arith, no_nulls-IsText s t)

pub newline-length : (h : Bytes) → (length (h ++ 10 ∷ []) == 0) ≡ false
newline-length [] = refl
newline-length (c ∷ h) = ground arith

IsLine-length : (h : Bytes) → IsLine h → (length h == 0) ≡ false
IsLine-length h l = rw l.starts (ground arith)

pub headers_heads :
    (hs : List Bytes) (body : Bytes)
    → All IsLine hs
    → 2 ≤ length hs
    → length hs ≤ max_headers
    → let head : Head = record { lines = hs; body_start = length (render hs) + 1 } in
      (buf_to_head (render hs) ≡ ok head)
      × (buf_to_head (render hs ++ 10 ∷ body) ≡ ok head)
      × (drop (length (render hs) + 1) (render hs ++ 10 ∷ body) ≡ body)
headers_heads [] body l two few = absurd (omega arith)
headers_heads (h ∷ hs) body l two few = (
  buf_to_head-alone h hs (IsLine-IsHeaders (h ∷ hs) l) few,
  (buf_to_head-render h hs body (IsLine-IsHeaders (h ∷ hs) l) few).0,
  (buf_to_head-render h hs body (IsLine-IsHeaders (h ∷ hs) l) few).1,
)

module _ (x : LibXml) (laws : IsLibXml x) (o : Outside x) where
  append_text-some : (buf s : Bytes) → (length s == 0) ≡ false → append_text x buf s ≡ ok (buf ++ s)
  unfolding append_text
  append_text-some buf [] h = absurd cc
  append_text-some buf (c ∷ s) h = ground (arith, laws.buffer_adds buf (c ∷ s))

  read_header :
      (fuel : ℕ) (h : Bytes) (feed : Feed x o)
      → IsLine h
      → read_line x o fuel (h ++ 10 ∷ []) feed
        ≡ ok (record feed {
          head_buf = feed.head_buf ++ (h ++ 10 ∷ []);
          nheaders = feed.nheaders + 1;
        })
  unfolding read_line
  read_header fuel h feed l = ground (
    arith,
    trimmed_line-line h l,
    IsLine-length h l,
    append_text-some feed.head_buf h (IsLine-length h l),
    append_text-some (feed.head_buf ++ h) (10 ∷ []) refl,
    append_assoc feed.head_buf h (10 ∷ []),
  )

  pub read_blank :
      (fuel : ℕ) (feed : Feed x o)
      → 2 ≤ feed.nheaders
      → read_line x o fuel (10 ∷ []) feed ≡ read_document x o fuel feed
  unfolding read_line trimmed_line skip_ws before_last is_space
  read_blank fuel feed h = ground arith

  -- One round, with the line that stands first in the stream.
  pub next_line :
      (fuel rounds : ℕ) (h t : Bytes) (feed : Feed x o)
      → All IsLineChar h
      → length h ≤ 2046
      → feed.stream ≡ h ++ 10 ∷ t
      → read_lines x o fuel (suc rounds) feed ≡ (
          read_line x o fuel (h ++ 10 ∷ []) (record feed { stream = t })
          >>= read_lines x o fuel rounds)
  unfolding read_lines
  next_line fuel rounds h t feed c le e =
      let got : fgets (max_str_len - 1) feed.stream ≡ (h ++ 10 ∷ [], t) =
        ap (fgets 2047) e ∙ fgets-line 2047 h t c (omega arith) in
      rw got (rw (newline-length h) (rw (up_to_nul-line h c) refl))

  -- A stream in which the lines are still to be read, and one in which they have been.
  abbrev pub before_lines :
      List Bytes → Bytes → Bytes → ℕ → Config x → List (ℤ × ParserData x) → Feed x o
  before_lines hs t buf n config done = record {
    stream = render hs ++ t;
    head_buf = buf;
    nheaders = n;
    config = config;
    done = done;
  }

  pub read_headers :
      (fuel rounds : ℕ) (hs : List Bytes) (t buf : Bytes) (n : ℕ) (config : Config x)
      (done : List (ℤ × ParserData x))
      → All IsLine hs
      → length (render hs ++ t) < rounds
      → (left : ℕ) × (length t < left)
        × (read_lines x o fuel rounds (before_lines hs t buf n config done)
            ≡ read_lines x o fuel left
                (before_lines [] t (buf ++ render hs) (n + length hs) config done))
  read_headers fuel rounds [] t buf n config done l h = (
    rounds,
    h,
    ap₂ (λ b m. read_lines x o fuel rounds (before_lines [] t b m config done))
        (sym (append-nil buf)) (omega arith),
  )
  read_headers fuel zero (k ∷ hs) t buf n config done l h = absurd (omega arith)
  read_headers fuel (suc rounds) (k ∷ hs) t buf n config done l h =
      let feed = before_lines (k ∷ hs) t buf n config done in
      let kept = buf ++ (k ++ 10 ∷ []) in
      let (left, lt, eq) = read_headers fuel rounds hs t kept (n + 1) config done l.1 (
        omega (
          arith,
          h,
          length-append k (10 ∷ render hs),
          length-append (k ++ 10 ∷ render hs) t,
          length-append (render hs) t,
        )) in
      (
        left,
        lt,
        next_line fuel rounds k (render hs ++ t) feed (l.0).chars (l.0).short
              (append_assoc k (10 ∷ render hs) t)
            ∙ ap (λ m. m >>= read_lines x o fuel rounds)
                (read_header fuel k (record feed { stream = render hs ++ t }) l.0)
            ∙ eq
            ∙ ap₂ (λ b m. read_lines x o fuel left (before_lines [] t b m config done))
                (append_assoc buf (k ++ 10 ∷ []) (render hs)
                  ∙ ap (λ s. buf ++ s) (append_assoc k (10 ∷ []) (render hs)))
                (omega arith),
      )
