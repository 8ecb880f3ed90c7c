-- ===== src/Head.antt =====
-- src/libswish3/parser.c: the headers in front of a document that is parsed from a buffer.
pub mod Lines
pub mod Fields
use libswish.Ctype.{is_space, to_lower}
use libswish.DocInfo.{DocInfo, docinfo_init}
use libswish.Numbers.{ℤ, string_to_int}
use libswish.Prelude.{
  ℕ, zero, suc, ◌+◌, ◌-◌, ◌*◌, Bool, true, false, not, ◌&&◌, ◌||◌, List, [], ◌∷◌, ◌++◌, Option,
  none, some, Bytes, text, eq_bytes, Run, ok, croak, ◌>>=◌, ◌>>◌, guard, if◌then◌else◌, ◌==◌, ltb,
  leb, length, take, drop, newline_starts_header, bad_header_line, out_of_bounds, bad_number, ◌%◌,
  ◌^◌,
}
use libswish.Str.{at, skip_ws}

-- `SWISH_MAX_HEADERS` and `SWISH_MAXSTRLEN`
abbrev pub max_headers : ℕ
max_headers = 6

abbrev pub max_str_len : ℕ
max_str_len = 2048

-- `HEAD`: `nlines` is the number of `lines`.
pub record Head : Type 0 where
  pub lines : List Bytes
  pub body_start : ℕ

-- The loop, with `buf[k]` and what follows it as the list, which ends at the NUL. `line` holds the
-- bytes written to a block of `max_str_len + 1`, so that `i` is its length.
unfoldable pub head_lines : List Bytes → Bytes → ℕ → Bytes → Run Head
head_lines lines line k [] =
    if ltb (length lines) max_headers && leb (length line) max_str_len
    then croak out_of_bounds
    else ok (record { lines = lines; body_start = 0 })
head_lines lines line k (c ∷ []) =
    let rest = head_lines lines (line ++ c ∷ []) (k + 1) [] in
    if ltb (length lines) max_headers && leb (length line) max_str_len
    then (if c == 10 then croak newline_starts_header else rest)
    else ok (record { lines = lines; body_start = 0 })
head_lines lines line k (c ∷ d ∷ buf) =
    if ltb (length lines) max_headers && leb (length line) max_str_len
    then (if c == 10 then croak newline_starts_header else elim (d == 10) [
      | false ↦ head_lines lines (line ++ c ∷ []) (k + 1) (d ∷ buf)
      | true ↦
          guard (leb (length line + 1) max_str_len) out_of_bounds
          >> (elim (at buf 0 == 10 || at buf 0 == 0) [
            | true ↦ ok (record { lines = lines ++ (line ++ c ∷ []) ∷ []; body_start = k + 3 })
            | false ↦ head_lines (lines ++ (line ++ c ∷ []) ∷ []) [] (k + 2) buf
          ])
    ])
    else ok (record { lines = lines; body_start = 0 })

unfoldable pub buf_to_head : Bytes → Run Head
unfolding head_lines
buf_to_head buf = head_lines [] [] 0 buf

-- `xmlStrncasecmp` on the first `n` bytes, as a test.
unfoldable pub has_prefix : Bytes → Bytes → ℕ → Bool
has_prefix s name zero = true
has_prefix [] [] (suc n) = true
has_prefix (c ∷ s) (d ∷ name) (suc n) = to_lower c == to_lower d && has_prefix s name n
has_prefix s name (suc n) = false

-- `xmlStrchr`: the string from the first `c` on.
unfoldable pub find_chr : Bytes → ℕ → Option Bytes
find_chr [] c = none
find_chr (d ∷ s) c = if d == c then some (d ∷ s) else find_chr s c

-- One header line. Each comparison has the length that the source gives, and what no comparison
-- accepts is ignored.
unfoldable pub header_field : Bytes → Bytes → DocInfo → Run DocInfo
unfolding has_prefix string_to_int
header_field line val info =
    if has_prefix line (text "Content-Length") 14
    then (string_to_int val >>= λ n. ok (record info { size = n }))
    else if has_prefix line (text "Last-Modified") 13
    then (string_to_int val >>= λ n. ok (record info { mtime = n }))
    else if has_prefix line (text "Last-Mtime") 10
    then (string_to_int val >>= λ n. ok (record info { mtime = n }))
    else if has_prefix line (text "Content-Location") 16
    then ok (record info { uri = some val })
    else if has_prefix line (text "Path-Name") 9
    then ok (record info { uri = some val })
    else if has_prefix line (text "Document-Type") 13
    then ok (record info { parser = some val })
    else if has_prefix line (text "Parser-Type") 11
    then ok (record info { parser = some val })
    else if has_prefix line (text "Content-Type") 12
    then ok (record info { mime = some val })
    else if has_prefix line (text "Encoding") 8 || has_prefix line (text "Charset") 7
    then ok (record info { encoding = val })
    else if has_prefix line (text "Action") 11
    then ok (record info { action = some val })
    else ok info

unfoldable pub header_line : Bytes → DocInfo → Run DocInfo
unfolding find_chr header_field
header_line line info = elim (find_chr line 58) [
  | none ↦ croak bad_header_line
  | some val ↦ header_field line (skip_ws (drop 1 val)) info
]

unfoldable pub header_lines : List Bytes → DocInfo → Run DocInfo
unfolding header_line
header_lines [] info = ok info
header_lines (line ∷ lines) info = header_line line info >>= header_lines lines

unfoldable pub head_to_docinfo : Head → Run DocInfo
unfolding header_lines docinfo_init
head_to_docinfo h = header_lines h.lines docinfo_init
