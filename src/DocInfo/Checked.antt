-- ===== src/DocInfo/Checked.antt =====
-- What `swish_docinfo_check` and `swish_docinfo_from_filesystem` leave in the record.
use libswish.DocInfo.{
  DocInfo, FileSystem, Types, default_parser, given, given_or, is_minus_one, is_zero, mime_get_type,
  mime_get_parser, docinfo_check, docinfo_from_filesystem,
}
use libswish.Fs.{has_chr, get_file_ext, ext_ch}
use libswish.Fs.Names.{get_file_ext-splits}
use libswish.LibXml.{LibXml}
use libswish.Prelude.{
  ◌-◌, ◌≡◌, refl, sym, ◌∙◌, ap, true, false, [], ◌∷◌, ◌++◌, Option, none, some, Bytes, text, ok,
  length, take, arith, take-append, length-append, eq_bytes_refl, Returns, Option-cases, inl, inr,
  ◌≢◌,
}
use libswish.Ctype.{to_lower}
use libswish.Str.{Wide, str_tolower}

parser_found :
    (x : LibXml) (config : Types x) (given_parser : Option Bytes) (mime parser : Bytes)
    → x.lookup Bytes config.parsers default_parser ≡ some parser
    → (p : Bytes) × (given_or given_parser (mime_get_parser x config mime) ≡ ok p)
unfolding mime_get_parser
parser_found x config (some p) mime parser d = (p, refl)
parser_found x config none mime parser d =
    elim (Option-cases (x.lookup Bytes config.parsers mime)) [
      | inl n ↦ (parser, ground (arith, n, d))
      | inr (p, e) ↦ (p, ground (arith, e))
    ]

given-none : (o : Option Bytes) {d : Bytes} → o ≡ none → given o d ≡ d
given-none none h = refl
given-none (some a) h = absurd cc

some_inj : {a b : Bytes} → some a ≡ some b → a ≡ b
some_inj e = ground (arith, e)

ok_inj : {a b : Bytes} → ok a ≡ ok b → a ≡ b
ok_inj e = ground (arith, e)

-- What a passed check leaves of a document, `ext` being the extension of its URI.
pub record Checks (x : LibXml) (config : Types x) (i : DocInfo) (ext : Option Bytes) (r : DocInfo)
    : Type 0 where
  pub ext_kept : (e : Bytes) → i.ext ≡ some e → r.ext ≡ some e
  pub ext_found : (e : Bytes) → i.ext ≡ none → ext ≡ some e → r.ext ≡ some e
  pub ext_missing : i.ext ≡ none → ext ≡ none → r.ext ≡ some (text "none")
  pub mime_kept : (m : Bytes) → i.mime ≡ some m → r.mime ≡ some m
  pub mime_found :
      (e m : Bytes)
      → i.mime ≡ none
      → r.ext ≡ some e
      → x.lookup Bytes config.mimes e ≡ some m
      → r.mime ≡ some m
  pub mime_missing :
      (e : Bytes)
      → i.mime ≡ none
      → r.ext ≡ some e
      → x.lookup Bytes config.mimes e ≡ none
      → r.mime ≡ some (text "text/html")
  pub parser_kept : (p : Bytes) → i.parser ≡ some p → r.parser ≡ some p
  pub parser_found :
      (m p : Bytes)
      → i.parser ≡ none
      → r.mime ≡ some m
      → x.lookup Bytes config.parsers m ≡ some p
      → r.parser ≡ some p
  pub parser_missing :
      (m : Bytes)
      → i.parser ≡ none
      → r.mime ≡ some m
      → x.lookup Bytes config.parsers m ≡ none
      → r.parser ≡ x.lookup Bytes config.parsers (text "default")
  pub others : r ≡ record i { ext = r.ext; mime = r.mime; parser = r.parser }

known_mime :
    (x : LibXml) (config : Types x) (e m : Bytes)
    → x.lookup Bytes config.mimes e ≡ some m
    → mime_get_type x config (some e) ≡ m
unfolding mime_get_type
known_mime x config e m h = ground (arith, h)

unknown_mime :
    (x : LibXml) (config : Types x) (e : Bytes)
    → x.lookup Bytes config.mimes e ≡ none
    → mime_get_type x config (some e) ≡ text "text/html"
unfolding mime_get_type
unknown_mime x config e h = ground (arith, h)

known_parser :
    (x : LibXml) (config : Types x) (m p : Bytes)
    → x.lookup Bytes config.parsers m ≡ some p
    → mime_get_parser x config m ≡ ok p
unfolding mime_get_parser
known_parser x config m p h = ground (arith, h)

unknown_parser :
    (x : LibXml) (config : Types x) (m p : Bytes)
    → x.lookup Bytes config.parsers m ≡ none
    → x.lookup Bytes config.parsers (text "default") ≡ some p
    → mime_get_parser x config m ≡ ok p
unfolding mime_get_parser
unknown_parser x config m p h d = ground (arith, h, d)

-- A document that has a URI and whose size is neither zero nor -1 passes the check, if the
-- extension of its URI can be read and there is a parser to fall back on. The extension, the MIME
-- type and the parser that the headers gave are kept. An extension that they did not give is that of
-- the URI, or "none"; a MIME type is what the table has for the extension, or "text/html"; a parser
-- is what the table has for the MIME type, or the default one. Nothing else changes.
pub docinfo_check-Checks :
    (x : LibXml) (wide : Wide) (config : Types x) (i : DocInfo) (uri : Bytes) (ext : Option Bytes)
    → (parser : Bytes) → i.uri ≡ some uri
    → is_minus_one i.size ≡ false
    → is_zero i.size ≡ false
    → get_file_ext wide uri ≡ ok ext
    → x.lookup Bytes config.parsers default_parser ≡ some parser
    → Returns (docinfo_check x wide config i) (Checks x config i ext)
unfolding docinfo_check
docinfo_check-Checks x wide config i uri ext parser has m z h d =
    let e = given i.ext (given ext (text "none")) in
    let mime = given i.mime (mime_get_type x config (some e)) in
    let (p, found) = parser_found x config i.parser mime parser d in
    (
      record i { ext = some e; mime = some mime; parser = some p },
      ground (arith, has, m, z, h, found),
      record {
        ext_kept = λ e' k. ground (arith, k);
        ext_found = λ e' n k. ground (arith, n, k);
        ext_missing = λ n k. ground (arith, n, k);
        mime_kept = λ m' k. ground (arith, k);
        mime_found = λ e' m' n k l.
            ap some (given-none i.mime n ∙ known_mime x config e m' (rw (some_inj k) l));
        mime_missing =
            λ e' n k l. ap some (given-none i.mime n ∙ unknown_mime x config e (rw (some_inj k) l));
        parser_kept = λ p' k. ap some (ok_inj (sym found ∙ rw k refl));
        parser_found = λ m' p' n k l.
            ap some (ok_inj (sym found ∙ rw n (known_parser x config mime p' (rw (some_inj k) l))));
        parser_missing = λ m' n k l.
            ap some (
              ok_inj (sym found ∙ rw n (unknown_parser x config mime parser (rw (some_inj k) l) d)))
            ∙ sym d;
        others = refl;
      },
    )

-- Only a document with a URI and with a size that is neither zero nor -1 passes the check.
pub docinfo_check_guards :
    (x : LibXml) (wide : Wide) (config : Types x) (i r : DocInfo)
    → docinfo_check x wide config i ≡ ok r
    → (i.uri ≢ none) × (is_minus_one i.size ≡ false) × (is_zero i.size ≡ false)
unfolding docinfo_check
docinfo_check_guards x wide config i r h =
    (λ n. ground (arith, h, n), ground (arith, h), ground (arith, h))

abbrev pub dot_gz : Bytes
dot_gz = ext_ch ∷ text "gz"

gz_ext : (wide : Wide) (name : Bytes) → get_file_ext wide (name ++ dot_gz) ≡ ok (some (text "gz"))
unfolding str_tolower has_chr to_lower
gz_ext wide name = (get_file_ext-splits wide name (text "gz") (refl, (refl, tt))).0

without_gz : (name : Bytes) → take (length (name ++ dot_gz) - 3) (name ++ dot_gz) ≡ name
without_gz name = ap (λ n. take n (name ++ dot_gz)) (size name) ∙ take-append name dot_gz
  where
    size : (s : Bytes) → length (s ++ dot_gz) - 3 ≡ length s
    size s = omega (arith, length-append s dot_gz)

-- An existing file whose name ends in `.gz` is marked as compressed and is known by the extension
-- that its name has without `.gz`; the file's name, time and size, the MIME type of that extension
-- and the parser of that type replace what was there. This needs a parser to fall back on.
pub docinfo_from_filesystem-gz :
    (x : LibXml) (wide : Wide) (fs : FileSystem) (config : Types x) (name : Bytes) (i : DocInfo)
    → (ext : Option Bytes) (parser : Bytes) → fs.file_exists (name ++ dot_gz) ≡ true
    → get_file_ext wide name ≡ ok ext
    → x.lookup Bytes config.parsers default_parser ≡ some parser
    → Returns (docinfo_from_filesystem x wide fs config (name ++ dot_gz) i) (λ (found, r).
      (found ≡ true)
      × (r ≡ record i {
        is_gzipped = true;
        ext = ext;
        uri = some (name ++ dot_gz);
        mtime = fs.file_mtime (name ++ dot_gz);
        size = fs.file_size (name ++ dot_gz);
        mime = some (mime_get_type x config ext);
        parser = r.parser;
      })
      × (ok (given r.parser []) ≡ mime_get_parser x config (mime_get_type x config ext)))
unfolding docinfo_from_filesystem
docinfo_from_filesystem-gz x wide fs config name i ext parser exists h d =
    let (p, found) = parser_found x config none (mime_get_type x config ext) parser d in
    (
      (
        true,
        record i {
          is_gzipped = true;
          ext = ext;
          uri = some (name ++ dot_gz);
          mtime = fs.file_mtime (name ++ dot_gz);
          size = fs.file_size (name ++ dot_gz);
          mime = some (mime_get_type x config ext);
          parser = some p;
        },
      ),
      ground (
        arith,
        gz_ext wide name,
        without_gz name,
        ap (get_file_ext wide) (without_gz name),
        h,
        exists,
        found,
        eq_bytes_refl (text "gz"),
      ),
      (refl, refl, sym found),
    )
