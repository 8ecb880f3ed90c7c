-- ===== src/Head/Fields.antt =====
-- The fields that `head_to_docinfo` reads.
use libswish.Ctype.{is_space, to_lower}
use libswish.DocInfo.{DocInfo, docinfo_init}
use libswish.Head.{
  has_prefix, find_chr, header_field, header_line, header_lines, head_to_docinfo, buf_to_head,
}
use libswish.Head.Lines.{IsHeader, render, buf_to_head-render}
use libswish.Numbers.{ℤ, string_to_int}
use libswish.Prelude.{
  ◌≡◌, refl, ◌∙◌, ap, List, [], ◌∷◌, ◌++◌, some, Bytes, text, ok, ◌>>=◌, drop, All, arith,
}
use libswish.Str.{skip_ws}

-- A header line with a name, a colon, a space and a value.
abbrev pub header : Bytes → Bytes → Bytes
header name val = name ++ (58 ∷ 32 ∷ val)

-- A header line sets the field of its name to its value, which does not start with white space,
-- and no other field.
pub header_line-fields :
    (val : Bytes) (info : DocInfo)
    → skip_ws val ≡ val
    → (header_line (header (text "Content-Location") val) info
        ≡ ok (record info { uri = some val }))
      × (header_line (header (text "Path-Name") val) info ≡ ok (record info { uri = some val }))
      × (header_line (header (text "Content-Type") val) info ≡ ok (record info { mime = some val }))
      × (header_line (header (text "Parser-Type") val) info
          ≡ ok (record info { parser = some val }))
      × (header_line (header (text "Document-Type") val) info
          ≡ ok (record info { parser = some val }))
      × (header_line (header (text "Encoding") val) info ≡ ok (record info { encoding = val }))
      × (header_line (header (text "Charset") val) info ≡ ok (record info { encoding = val }))
      × (header_line (header (text "Content-Length") val) info
          ≡ (string_to_int val >>= λ n. ok (record info { size = n })))
      × (header_line (header (text "Last-Modified") val) info
          ≡ (string_to_int val >>= λ n. ok (record info { mtime = n })))
unfolding header_line header_field find_chr has_prefix to_lower skip_ws is_space
header_line-fields val info h = (
  ap (λ s. ok (record info { uri = some s })) h,
  ap (λ s. ok (record info { uri = some s })) h,
  ap (λ s. ok (record info { mime = some s })) h,
  ap (λ s. ok (record info { parser = some s })) h,
  ap (λ s. ok (record info { parser = some s })) h,
  ap (λ s. ok (record info { encoding = s })) h,
  ap (λ s. ok (record info { encoding = s })) h,
  ap (λ s. string_to_int s >>= λ n. ok (record info { size = n })) h,
  ap (λ s. string_to_int s >>= λ n. ok (record info { mtime = n })) h,
)

-- No value of an `Action` header reaches the record: the line is taken for an unknown one.
pub header_line-action :
    (val : Bytes) (info : DocInfo) → header_line (header (text "Action") val) info ≡ ok info
unfolding header_line header_field find_chr has_prefix to_lower skip_ws is_space
header_line-action val info = refl

-- The header of a document with a location, a type, a parser and a length.
abbrev pub document_lines : Bytes → Bytes → Bytes → Bytes → List Bytes
document_lines uri mime parser size =
    header (text "Content-Location") uri
    ∷ header (text "Content-Type") mime
    ∷ header (text "Parser-Type") parser
    ∷ header (text "Content-Length") size
    ∷ []

module _ (uri mime parser size : Bytes) (n : ℤ) where
  -- The record of that document.
  abbrev pub document : DocInfo
  document = record docinfo_init {
    uri = some uri;
    mime = some mime;
    parser = some parser;
    size = n;
  }

  abbrev info₁ : DocInfo
  info₁ = record docinfo_init { uri = some uri }

  abbrev info₂ : DocInfo
  info₂ = record info₁ { mime = some mime }

  abbrev info₃ : DocInfo
  info₃ = record info₂ { parser = some parser }

  header_lines-document :
      skip_ws uri ≡ uri
      → skip_ws mime ≡ mime
      → skip_ws parser ≡ parser
      → skip_ws size ≡ size
      → string_to_int size ≡ ok n
      → header_lines (document_lines uri mime parser size) docinfo_init ≡ ok document
  unfolding header_lines
  header_lines-document u m p s e =
      let lines = document_lines uri mime parser size in
      ap (λ r. r >>= header_lines (drop 1 lines)) (header_line-fields uri docinfo_init u).0
      ∙ ap (λ r. r >>= header_lines (drop 2 lines)) (header_line-fields mime info₁ m).2
      ∙ ap (λ r. r >>= header_lines (drop 3 lines)) (header_line-fields parser info₂ p).3
      ∙ ap (λ r. r >>= header_lines [])
          ((header_line-fields size info₃ s).7
            ∙ ap (λ r. r >>= λ k. ok (record info₃ { size = k })) e)

-- A buffer that starts with the four headers, in lines that are short enough, and an empty line
-- gives the record with the four values, the other fields as `swish_docinfo_init` leaves them.
pub head_to_docinfo-document :
    (uri mime parser size body : Bytes) (n : ℤ)
    → All IsHeader (document_lines uri mime parser size)
    → skip_ws uri ≡ uri
    → skip_ws mime ≡ mime
    → skip_ws parser ≡ parser
    → skip_ws size ≡ size
    → string_to_int size ≡ ok n
    → (buf_to_head (render (document_lines uri mime parser size) ++ 10 ∷ body) >>= head_to_docinfo)
      ≡ ok (document uri mime parser size n)
unfolding head_to_docinfo
head_to_docinfo-document uri mime parser size body n h u m p s e =
    ap (λ r. r >>= head_to_docinfo)
      (buf_to_head-render (header (text "Content-Location") uri)
        (drop 1 (document_lines uri mime parser size)) body h (omega arith)).0
    ∙ header_lines-document uri mime parser size n u m p s e
