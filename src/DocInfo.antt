-- ===== src/DocInfo.antt =====
-- src/libswish3/docinfo.c, with the look-ups of src/libswish3/mime_types.c: what is known of
-- a document.
pub mod Checked
use libswish.Fs.{get_file_ext}
use libswish.Hash.{hash_fetch}
use libswish.LibXml.{LibXml}
use libswish.Numbers.{ℤ}
use libswish.Prelude.{
  ℕ, zero, suc, ◌+◌, ◌-◌, ◌*◌, ◌%◌, ◌^◌, Bool, true, false, not, ◌&&◌, ◌||◌, List, [], ◌∷◌, ◌++◌,
  Option, none, some, Bytes, text, eq_option, Run, ok, croak, ◌>>=◌, ◌>>◌, guard, if◌then◌else◌,
  ◌==◌, ltb, leb, length, take, no_uri, no_size, zero_size, out_of_bounds, null_pointer,
}
use libswish.Str.{Wide}

pub record DocInfo : Type 0 where
  pub mtime : ℤ
  pub size : ℤ
  pub mime : Option Bytes
  pub encoding : Bytes
  pub uri : Option Bytes
  pub nwords : ℕ
  pub ext : Option Bytes
  pub parser : Option Bytes
  pub action : Option Bytes
  pub is_gzipped : Bool

unfoldable pub docinfo_init : DocInfo
docinfo_init = record {
  mtime = ℤ.pos 0;
  size = ℤ.pos 0;
  mime = none;
  encoding = text "UTF-8";
  uri = none;
  nwords = 0;
  ext = none;
  parser = none;
  action = none;
  is_gzipped = false;
}

-- `SWISH_DEFAULT_MIME` and `SWISH_DEFAULT_PARSER`
abbrev pub default_mime : Bytes
default_mime = text "text/html"

abbrev pub default_parser : Bytes
default_parser = text "default"

-- What `stat` says of a file.
pub record FileSystem : Type 0 where
  pub file_exists : Bytes → Bool
  pub file_mtime : Bytes → ℤ
  pub file_size : Bytes → ℤ

unfoldable pub is_minus_one : ℤ → Bool
is_minus_one (ℤ.pos n) = false
is_minus_one (ℤ.negsuc n) = n == 0

unfoldable pub is_zero : ℤ → Bool
is_zero (ℤ.pos n) = n == 0
is_zero (ℤ.negsuc n) = false

-- The value, or what stands in where the pointer is NULL.
abbrev pub given : Option Bytes → Bytes → Bytes
given none d = d
given (some a) d = a

abbrev pub given_or : Option Bytes → Run Bytes → Run Bytes
given_or none d = d
given_or (some a) d = ok a

module _ (x : LibXml) where
  -- The two tables of the configuration that are read here.
  pub record Types : Type 0 where
    pub mimes : x.Table Bytes
    pub parsers : x.Table Bytes

  -- A null extension is in no table.
  unfoldable pub mime_get_type : Types → Option Bytes → Bytes
  unfolding hash_fetch
  mime_get_type config none = default_mime
  mime_get_type config (some fileext) = elim (hash_fetch x config.mimes fileext) [
    | none ↦ default_mime
    | some mime ↦ mime
  ]

  -- NULL cannot be copied: without a default parser, an unknown type ends the program.
  unfoldable pub mime_get_parser : Types → Bytes → Run Bytes
  unfolding hash_fetch
  mime_get_parser config mime = elim (hash_fetch x config.parsers mime) [
    | none ↦ elim (hash_fetch x config.parsers default_parser) [
      | none ↦ croak null_pointer
      | some deftype ↦ ok deftype
    ]
    | some parser ↦ ok parser
  ]

  unfoldable pub docinfo_check : Wide → Types → DocInfo → Run DocInfo
  unfolding get_file_ext mime_get_type mime_get_parser is_minus_one is_zero
  docinfo_check wide config i = elim i.uri [
    | none ↦ croak no_uri
    | some uri ↦ do
      guard (not (is_minus_one i.size)) no_size
      guard (not (is_zero i.size)) zero_size
      ext ← get_file_ext wide uri
      let ext' = given i.ext (given ext (text "none"))
      let mime' = given i.mime (mime_get_type config (some ext'))
      parser' ← given_or i.parser (mime_get_parser config mime')
      ok (record i { ext = some ext'; mime = some mime'; parser = some parser' })
  ]

  -- The file name without `.gz` gives the extension of a compressed file.
  unfoldable pub docinfo_from_filesystem :
      Wide → FileSystem → Types → Bytes → DocInfo → Run (Bool × DocInfo)
  unfolding get_file_ext mime_get_type mime_get_parser
  docinfo_from_filesystem wide fs config filename i = do
    ext ← get_file_ext wide filename
    let is_gz = eq_option ext (text "gz")
    let i₁ = if is_gz then record i { is_gzipped = true } else i
    ext' ← if is_gz then get_file_ext wide (take (length filename - 3) filename) else ok ext
    let i₂ = record i₁ { ext = ext' }
    if not (fs.file_exists filename)
        then ok (false, i₂)
        else (mime_get_parser config (mime_get_type config ext') >>= λ parser'. ok (
          true,
          record i₂ {
            uri = some filename;
            mtime = fs.file_mtime filename;
            size = fs.file_size filename;
            mime = some (mime_get_type config ext');
            parser = some parser';
          },
        ))
